-- ===== src/Tests/Removal.antt =====
-- A request of the group's member to delete flag 12 of repo 10, which the group may delete from.
use safe_harbor_server.Base.{true, none, some, [], ◌∷◌, ◌≡◌, ◌⊎◌, refl, ◌==◌, if◌then◌else◌}
use safe_harbor_server.Store.{Text, Store, Repo, Flag, repo, flag, acl_entry, ok}
use safe_harbor_server.Store.Reads.{SameObjects}
use safe_harbor_server.Auth.Masks.{delete_mask}
use safe_harbor_server.Contents.Remove.{Removal}
use safe_harbor_server.Handlers.Request.{Request, flag_id, get_required, result}
use safe_harbor_server.Handlers.Contents.{rem_flag}
use safe_harbor_server.Handlers.Gate.{Passed, after_authentication}
use safe_harbor_server.Handlers.Removal.{removal_gate, handler_of, field_of, a_flag}
use safe_harbor_server.Tests.Sample.{sample, objects, may_write, server, cookie}

abbrev tools : Repo
tools = record {
  resource = record {
    id = 10;
    acl_entry_ids = 8 ∷ [];
    name = 41;
    description = 43;
    parent_id = 2;
    creation_time = 1;
  };
  default_user_ids = [];
  dockerfile_ids = [];
  docker_image_ids = [];
  scan_config_ids = [];
  flag_ids = 12 ∷ [];
  file_directory = 45;
}

abbrev badge : Flag
badge = record {
  resource = record (tools.resource) { id = 12; acl_entry_ids = []; name = 47; parent_id = 10 };
  success_image_path = 49;
  used_by_scan_config_ids = [];
}

abbrev stocked : Store
stocked = record sample {
  heap = λ p.
      if p == 8
      then some (acl_entry (record may_write { resource_id = 10 }))
      else if p == 10
      then some (repo tools)
      else if p == 12
      then some (flag badge)
      else objects p;
  all_objects = λ id. id;
}

abbrev outside : Removal
outside = record { remove_file = λ p. true; remove_docker_image = λ a b c d. true }

abbrev request : Request
request = record { values = λ field. some (12 ∷ []); session_ids = none }

rem_flag_runs : (rem_flag outside server (some cookie) request stocked).0 ≡ ok (result 200)
unfolding rem_flag
rem_flag_runs = refl

removal_gate_example :
    SameObjects stocked (handler_of outside a_flag server (some cookie) request stocked).1
    ⊎ ((rid : Text) × ((get_required server request flag_id stocked).0 ≡ ok rid)
        × Passed server
            (some cookie)
            request
            delete_mask
            rid
            stocked
            (after_authentication server (some cookie) request stocked))
unfolding field_of
removal_gate_example = removal_gate outside a_flag server (some cookie) request stocked refl
