-- ===== src/Tests/Contents.antt =====
-- A repo 10 with a dockerfile 12 and a flag 16 that the scan config 20 uses; 14 and 18 are to be added.
use safe_harbor_server.Base.{
  true, Option, none, some, List, [], ◌∷◌, ◌≡◌, ◌≢◌, refl, arith, ◌==◌, if◌then◌else◌,
}
use safe_harbor_server.Store.{
  Text, Ptr, Store, Obj, Repo, Resource, Dockerfile, Flag, ScanConfig, repo, dockerfile, flag,
  scan_config, user_error, err,
}
use safe_harbor_server.Store.Places.{IsAt, Quiet, pointer}
use safe_harbor_server.Utilities.{Utilities}
use safe_harbor_server.Contents.Names.{Listed, Distinct}
use safe_harbor_server.Contents.Create.{add_dockerfile, add_flag}
use safe_harbor_server.Contents.Adding.{add_dockerfile-Distinct, add_flag-taken}
use safe_harbor_server.Contents.Remove.{Removal, delete_flag, delete_dockerfile}
use safe_harbor_server.Contents.Refusal.{delete_flag-used}
use safe_harbor_server.Contents.Kept.{SameLists, delete_dockerfile-SameLists}
use safe_harbor_server.Tests.Sample.{sample}

abbrev resource_of : Text → Text → Resource
resource_of id name = record {
  id = id;
  acl_entry_ids = [];
  name = name;
  description = 0;
  parent_id = 10;
  creation_time = 1;
}

abbrev tools : Repo
tools = record {
  resource = record (resource_of 10 41) { parent_id = 2 };
  default_user_ids = [];
  dockerfile_ids = 12 ∷ [];
  docker_image_ids = [];
  scan_config_ids = 20 ∷ [];
  flag_ids = 16 ∷ [];
  file_directory = 43;
}

abbrev file_named : Text → Text → Dockerfile
file_named id name = record {
  resource = resource_of id name;
  file_path = 45;
  dockerfile_exec_event_ids = [];
}

abbrev flag_with : Text → List Text → Flag
flag_with id users = record {
  resource = resource_of id 47;
  success_image_path = 49;
  used_by_scan_config_ids = users;
}

abbrev scan : ScanConfig
scan = record {
  resource = resource_of 20 51;
  success_expression = 0;
  provider_name = 53;
  parameter_value_ids = [];
  flag_id = 16;
  scan_event_ids = [];
  docker_image_ids_that_use = [];
}

abbrev contents : Ptr → Option Obj
contents p =
    if p == 10
    then some (repo tools)
    else if p == 12
    then some (dockerfile (file_named 12 55))
    else if p == 14
    then some (dockerfile (file_named 14 57))
    else if p == 16
    then some (flag (flag_with 16 (20 ∷ [])))
    else if p == 18
    then some (flag (flag_with 18 []))
    else if p == 20
    then some (scan_config scan)
    else none

abbrev stocked : Store
stocked = record sample { heap = contents; all_objects = λ id. id }

abbrev no_lists : Utilities
no_lists = record { remove_from = λ k xs. xs; remove_at = λ i xs. xs; add_uniquely = λ k xs. xs }

abbrev removed : Removal
removed = record { remove_file = λ p. true; remove_docker_image = λ a b c d. true }

lies : (id : Text) (o : Obj) → id ≢ 0 → contents id ≡ some o → IsAt stocked id o
unfolding pointer
lies id o set there = record { is_set = set; points = refl; there = there }

add_dockerfile-Distinct_example :
    let t = (add_dockerfile 10 14 stocked).1 in
    IsAt t 10 (repo (record tools { dockerfile_ids = 12 ∷ 14 ∷ [] }))
    × (Listed dockerfile (λ d. d.name) t (12 ∷ 14 ∷ []) (file_named 12 55 ∷ file_named 14 57 ∷ [])
        × Distinct dockerfile (λ d. d.name) (file_named 12 55 ∷ file_named 14 57 ∷ []))
unfolding Listed add_dockerfile
add_dockerfile-Distinct_example =
    add_dockerfile-Distinct 10 14 tools (file_named 14 57) (file_named 12 55 ∷ []) stocked
      (lies 10 (repo tools) (omega arith) refl)
      (lies 14 (dockerfile (file_named 14 57)) (omega arith) refl)
      (lies 12 (dockerfile (file_named 12 55)) (omega arith) refl, tt) (refl, tt) refl

add_flag-taken_example :
    ((add_flag 10 18 stocked).0 ≡ err user_error) × Quiet stocked (add_flag 10 18 stocked).1
unfolding Listed
add_flag-taken_example =
    add_flag-taken 10 18 tools (flag_with 18 []) (flag_with 16 (20 ∷ []))
      (flag_with 16 (20 ∷ []) ∷ []) stocked (lies 10 (repo tools) (omega arith) refl)
      (lies 18 (flag (flag_with 18 [])) (omega arith) refl)
      (lies 16 (flag (flag_with 16 (20 ∷ []))) (omega arith) refl, tt) refl

delete_flag-used_example :
    ((delete_flag no_lists removed 10 16 stocked).0 ≡ err user_error)
    × Quiet stocked (delete_flag no_lists removed 10 16 stocked).1
delete_flag-used_example =
    delete_flag-used no_lists removed 10 16 20 [] (flag_with 16 (20 ∷ [])) scan stocked
      (lies 16 (flag (flag_with 16 (20 ∷ []))) (omega arith) refl) refl
      (lies 20 (scan_config scan) (omega arith) refl)

delete_dockerfile-SameLists_example : SameLists stocked (delete_dockerfile no_lists 12 stocked).1
delete_dockerfile-SameLists_example = delete_dockerfile-SameLists no_lists 12 stocked
