-- ===== src/Tests/Owners.antt =====
-- A dockerfile 14 of a repo 10 of the realm 2, which the member's group may write: by the documented
-- rules the member may write the dockerfile, and the code refuses it.
use safe_harbor_server.Base.{false, [], ◌∷◌, some, ◌≡◌, refl, arith, ◌==◌, if◌then◌else◌}
use safe_harbor_server.Store.{Store, Resource, Repo, Dockerfile, repo, dockerfile, ok}
use safe_harbor_server.Store.View.{fetch}
use safe_harbor_server.Auth.Masks.{find_action, write_mask}
use safe_harbor_server.Auth.Access.{user_authorized}
use safe_harbor_server.Auth.Rules.{by_entry, DocumentedMay, for_group, for_owner, child, descendant}
use safe_harbor_server.Tests.Sample.{sample, objects, alice, writers, may_write, home_resource}

abbrev tools_resource : Resource
tools_resource = record home_resource { id = 10; acl_entry_ids = []; parent_id = 2 }

abbrev recipe_resource : Resource
recipe_resource = record home_resource { id = 14; acl_entry_ids = []; parent_id = 10 }

abbrev tools : Repo
tools = record {
  resource = tools_resource;
  default_user_ids = [];
  dockerfile_ids = 14 ∷ [];
  docker_image_ids = [];
  scan_config_ids = [];
  flag_ids = [];
  file_directory = 45;
}

abbrev recipe : Dockerfile
recipe = record { resource = recipe_resource; file_path = 47; dockerfile_exec_event_ids = [] }

abbrev stocked : Store
stocked = record sample {
  heap = λ p.
      if p == 10
      then some (repo tools)
      else if p == 14
      then some (dockerfile recipe)
      else objects p;
  all_objects = λ id. id;
}

documented : DocumentedMay (fetch stocked) alice write_mask 14
unfolding fetch find_action
documented = for_group 2 recipe_resource 6 writers.party refl refl refl refl (
    for_owner home_resource
      (descendant recipe_resource tools_resource home_resource (omega arith) refl
        (child tools_resource home_resource (omega arith) refl))
      (by_entry 8 may_write refl refl refl refl))

refused : (user_authorized alice write_mask 14 stocked).0 ≡ ok false
unfolding user_authorized
refused = refl
