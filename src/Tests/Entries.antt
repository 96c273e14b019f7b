-- ===== src/Tests/Entries.antt =====
-- ACL entries: the group's entry found and changed, and a new one for the user.
use safe_harbor_server.Base.{some, [], ◌∷◌, refl, arith}
use safe_harbor_server.Store.{◌>>◌, user, group, realm, acl_entry}
use safe_harbor_server.Store.Places.{IsAt, Quiet, pointer}
use safe_harbor_server.Store.Runs.{Runs}
use safe_harbor_server.Store.Fresh.{Advances}
use safe_harbor_server.Utilities.{Utilities}
use safe_harbor_server.Acl.Ids.{Advances-access_operations}
use safe_harbor_server.Acl.RoundTrip.{set_then_get}
use safe_harbor_server.Acl.Access.{
  set_access, add_access, delete_access, delete_all_access_to_resource,
  get_acl_entry_for_resource_id,
}
use safe_harbor_server.Acl.Entries.{db_create_acl_entry}
use safe_harbor_server.Acl.Create.{Linked, db_create_acl_entry_lem}
use safe_harbor_server.Acl.Find.{get_acl_entry_for_resource_id_lem}
use safe_harbor_server.Acl.Laws.{Changed, set_access_changes, set_access_creates}
use safe_harbor_server.Auth.Masks.{read_mask}
use safe_harbor_server.Tests.Sample.{sample, alice, writers, may_write, home, home_resource}

alice-IsAt : IsAt sample 4 (user alice)
unfolding pointer
alice-IsAt = record { is_set = omega arith; points = refl; there = refl }

writers-IsAt : IsAt sample 6 (group writers)
unfolding pointer
writers-IsAt = record { is_set = omega arith; points = refl; there = refl }

home-IsAt : IsAt sample 2 (realm home)
unfolding pointer
home-IsAt = record { is_set = omega arith; points = refl; there = refl }

may_write-IsAt : IsAt sample 8 (acl_entry may_write)
unfolding pointer
may_write-IsAt = record { is_set = omega arith; points = refl; there = refl }

get_acl_entry_for_resource_id_lem_example :
    Runs (get_acl_entry_for_resource_id 6 2) sample (some may_write) (Quiet sample)
get_acl_entry_for_resource_id_lem_example =
    get_acl_entry_for_resource_id_lem 2 6 (group writers) writers.party (may_write ∷ []) sample
      writers-IsAt refl refl (may_write-IsAt, tt)

set_access_changes_example :
    Runs (set_access 2 6 read_mask) sample 8 (Changed may_write read_mask sample)
set_access_changes_example =
    set_access_changes 2 6 (group writers) writers.party (may_write ∷ []) read_mask refl refl sample
      may_write writers-IsAt (may_write-IsAt, tt) refl

set_access_creates_example :
    Runs (set_access 2 4 read_mask) sample 10 (Linked 2 4 10 (realm home) (user alice) read_mask)
set_access_creates_example =
    set_access_creates 2 4 (user alice) alice.party [] read_mask refl refl sample (realm home)
      home_resource refl home-IsAt alice-IsAt (omega arith) (omega arith) (omega arith) tt refl

db_create_acl_entry_lem_example :
    Runs
      (db_create_acl_entry 2 4 read_mask)
      sample
      10
      (Linked 2 4 10 (realm home) (user alice) read_mask)
db_create_acl_entry_lem_example =
    db_create_acl_entry_lem 2 4 (realm home) (user alice) home_resource alice.party read_mask refl
      refl (omega arith) sample home-IsAt alice-IsAt (omega arith) (omega arith)

set_then_get_example :
    Runs
      (set_access 2 6 read_mask >> get_acl_entry_for_resource_id 6 2)
      sample
      (some (record may_write { permission_mask = read_mask }))
      (λ t. IsAt t 6 (group writers))
set_then_get_example =
    set_then_get 2 6 (group writers) writers.party (may_write ∷ []) read_mask sample may_write refl
      refl writers-IsAt (may_write-IsAt, tt) refl

abbrev no_utilities : Utilities
no_utilities = record {
  remove_from = λ k xs. xs;
  remove_at = λ i xs. xs;
  add_uniquely = λ k xs. xs;
}

Advances-access_operations_example :
    Advances (set_access 2 6 read_mask)
    × Advances (add_access 2 6 read_mask)
    × Advances (delete_access no_utilities 2 6)
    × Advances (delete_all_access_to_resource no_utilities 2)
Advances-access_operations_example = Advances-access_operations no_utilities 2 6 read_mask
