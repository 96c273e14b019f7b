-- ===== src/Tests/Queries.antt =====
-- The member asks what the group 6 is.
use safe_harbor_server.Base.{none, some, [], ◌∷◌, ◌≡◌, refl}
use safe_harbor_server.Store.{ok}
use safe_harbor_server.Store.Reads.{Reads}
use safe_harbor_server.Handlers.Request.{Request, group_desc}
use safe_harbor_server.Handlers.ReadOnly.{query_handler, query_handler-Reads, group_itself}
use safe_harbor_server.Tests.Sample.{sample, server, cookie}

abbrev request : Request
request = record { values = λ field. some (6 ∷ []); session_ids = none }

group_itself_runs :
    (query_handler group_itself server (some cookie) request sample).0 ≡ ok (group_desc 6)
unfolding query_handler
group_itself_runs = refl

query_handler-Reads_example : Reads (query_handler group_itself server (some cookie) request)
query_handler-Reads_example = query_handler-Reads server (some cookie) request group_itself
