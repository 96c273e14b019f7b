-- ===== src/Handlers/Transactions.antt =====
-- What a request leaves of the store that its handler worked on (src/safeharbor/server/Dispatcher.go).
use safe_harbor_server.Base.{some, [], ◌≡◌, refl}
use safe_harbor_server.Store.{Text, Store, Result, ok, err, panic, Action, reset_transaction_cache}
use safe_harbor_server.Handlers.Request.{Response}
use safe_harbor_server.Handlers.Dispatch.{conclude, handle_request}

-- All that outlives a request is as in the one store, and the request's caches are empty.
pub record IsLeft (s t : Store) : Type 0 where
  pub heap : t.heap ≡ s.heap
  pub all_objects : t.all_objects ≡ s.all_objects
  pub all_user_ids : t.all_user_ids ≡ s.all_user_ids
  pub realm_map : t.realm_map ≡ s.realm_map
  pub email_token_map : t.email_token_map ≡ s.email_token_map
  pub unique_id : t.unique_id ≡ s.unique_id
  pub no_objects : (id : Text) → t.objects_cache id ≡ 0
  pub no_users : (id : Text) → t.users_cache id ≡ 0
  pub no_realms : t.realm_map_cache ≡ []

conclude-IsLeft : (r : Result Response) (s : Store) → IsLeft s (conclude (r, s)).store
unfolding conclude
conclude-IsLeft (ok r) s = record {
  heap = refl;
  all_objects = refl;
  all_user_ids = refl;
  realm_map = refl;
  email_token_map = refl;
  unique_id = refl;
  no_objects = λ id. refl;
  no_users = λ id. refl;
  no_realms = refl;
}
conclude-IsLeft (err e) s = record {
  heap = refl;
  all_objects = refl;
  all_user_ids = refl;
  realm_map = refl;
  email_token_map = refl;
  unique_id = refl;
  no_objects = λ id. refl;
  no_users = λ id. refl;
  no_realms = refl;
}
conclude-IsLeft panic s = record {
  heap = refl;
  all_objects = refl;
  all_user_ids = refl;
  realm_map = refl;
  email_token_map = refl;
  unique_id = refl;
  no_objects = λ id. refl;
  no_users = λ id. refl;
  no_realms = refl;
}

-- After a request for which there is a handler, whether that succeeded, failed or panicked, the
-- objects and the maps that outlive the request are as the handler left them, so that a failure
-- rolls nothing back, and the caches are empty.
pub handle_request-IsLeft :
    (handler : Action Response) (s : Store)
    → IsLeft (handler (reset_transaction_cache s)).1 (handle_request (some handler) s).store
unfolding handle_request
handle_request-IsLeft handler s =
    let (r, t) = handler (reset_transaction_cache s) in conclude-IsLeft r t
