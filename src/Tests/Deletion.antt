-- ===== src/Tests/Deletion.antt =====
-- A group of three users is deleted.
use safe_harbor_server.Base.{some, [], ◌∷◌, ◌≡◌, refl, arith, ◌==◌, if◌then◌else◌}
use safe_harbor_server.Store.{Store, User, Group, user, group, realm, user_error, err}
use safe_harbor_server.Store.Places.{IsAt, pointer}
use safe_harbor_server.Realms.Remove.{delete_group}
use safe_harbor_server.Realms.Failure.{delete_group_fails}
use safe_harbor_server.Tests.Sample.{sample, objects, itself, alice, writers, home}
use safe_harbor_server.Utilities.{Utilities}

abbrev dora : User
dora = record alice { party = record alice.party { id = 12; name = 31 } }

abbrev trio : Group
trio = record writers { user_obj_ids = 4 ∷ 10 ∷ 12 ∷ [] }

abbrev with_trio : Store
with_trio = record sample {
  heap = λ p. if p == 6 then some (group trio) else if p == 12 then some (user dora) else objects p;
  all_objects = λ id. if id == 12 then 12 else itself id;
}

abbrev plain : Utilities
plain = record { remove_from = λ k xs. xs; remove_at = λ i xs. xs; add_uniquely = λ k xs. xs }

home-IsAt_trio : IsAt with_trio 2 (realm home)
unfolding pointer
home-IsAt_trio = record { is_set = omega arith; points = refl; there = refl }

trio-IsAt : IsAt with_trio 6 (group trio)
unfolding pointer
trio-IsAt = record { is_set = omega arith; points = refl; there = refl }

alice-IsAt_trio : IsAt with_trio 4 (user alice)
unfolding pointer
alice-IsAt_trio = record { is_set = omega arith; points = refl; there = refl }

dora-IsAt : IsAt with_trio 12 (user dora)
unfolding pointer
dora-IsAt = record { is_set = omega arith; points = refl; there = refl }

delete_group_fails_example : (delete_group plain 2 6 with_trio).0 ≡ err user_error
delete_group_fails_example =
    delete_group_fails plain 2 6 4 10 12 writers home alice dora (omega arith) (omega arith)
      (omega arith) refl refl with_trio home-IsAt_trio trio-IsAt alice-IsAt_trio dora-IsAt
