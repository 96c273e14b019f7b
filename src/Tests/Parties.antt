-- ===== src/Tests/Parties.antt =====
-- A member leaves the group, and logins.
use safe_harbor_server.Base.{
  List, ◌++◌, contains, ◌≤◌, ◌<◌, true, false, [], ◌∷◌, ◌≡◌, refl, arith, leb, length, some, ◌==◌,
  if◌then◌else◌,
}
use safe_harbor_server.Store.{Text, Store, User, Group, user, group, ok}
use safe_harbor_server.Store.Places.{IsAt, pointer}
use safe_harbor_server.Store.Runs.{Runs}
use safe_harbor_server.Parties.Joining.{Joined, add_user_id-Joined}
use safe_harbor_server.Store.View.{fetch}
use safe_harbor_server.Auth.Masks.{write_mask}
use safe_harbor_server.Auth.Rules.{UserMay}
use safe_harbor_server.Auth.Access.{user_authorized}
use safe_harbor_server.Auth.Decision.{user_authorized_sound}
use safe_harbor_server.Parties.Users.{attempts_after}
use safe_harbor_server.Parties.Groups.{add_user_id, remove_user}
use safe_harbor_server.Parties.Logins.{after_logins, length-attempts_after, logins_never_counted}
use safe_harbor_server.Parties.Membership.{IsGroupAt, remove_user_lem, remove_user_keeps_rights}
use safe_harbor_server.Tests.Sample.{objects, sample, alice, writers}

writers-IsGroupAt : IsGroupAt sample 6 writers
unfolding fetch
writers-IsGroupAt = record { is_set = omega arith; there = refl; shown = refl }

remove_user_lem_example :
    let (r, s) = remove_user 6 4 sample in
    (r ≡ ok tt)
    × ((before : List Text) × (after : List Text) × ((4 ∷ []) ≡ before ++ 4 ∷ after)
        × (contains 4 before ≡ false)
        × (fetch s 6 ≡ ok (group (record writers { user_obj_ids = before ++ after }))))
remove_user_lem_example = remove_user_lem sample 6 4 writers writers-IsGroupAt refl

alice_may : (user_authorized alice write_mask 2 sample).0 ≡ ok true
unfolding user_authorized
alice_may = refl

alice_shown : fetch sample 4 ≡ ok (user alice)
unfolding fetch
alice_shown = refl

remove_user_keeps_rights_example :
    let s = (remove_user 6 4 sample).1 in
    (fetch s 4 ≡ ok (user alice)) × UserMay (fetch s) alice write_mask 2
remove_user_keeps_rights_example =
    remove_user_keeps_rights sample 6 4 writers writers-IsGroupAt refl alice write_mask 2
      alice_shown (user_authorized_sound alice write_mask 2 sample alice_may)

length-attempts_after_example :
    (1 < 2 → length (attempts_after 1 9 (7 ∷ 8 ∷ [])) ≡ 2)
    × (2 ≤ 1 → attempts_after 1 9 (7 ∷ 8 ∷ []) ≡ 9 ∷ [])
length-attempts_after_example = length-attempts_after 1 9 (7 ∷ 8 ∷ [])

logins_never_counted_example :
    leb 5 (length (after_logins 5 (1 ∷ 2 ∷ 3 ∷ 4 ∷ 5 ∷ 6 ∷ []) [])) ≡ false
logins_never_counted_example = logins_never_counted 5 (1 ∷ 2 ∷ 3 ∷ 4 ∷ 5 ∷ 6 ∷ []) (omega arith)

abbrev outsider : User
outsider = record alice { group_ids = [] }

abbrev nobody : Group
nobody = record writers { user_obj_ids = [] }

-- The sample, with the user not yet in the group.
abbrev before_joining : Store
before_joining = record sample {
  heap = λ p.
      if p == 4 then some (user outsider) else if p == 6 then some (group nobody) else objects p;
}

nobody-IsAt : IsAt before_joining 6 (group nobody)
unfolding pointer
nobody-IsAt = record { is_set = omega arith; points = refl; there = refl }

outsider-IsAt : IsAt before_joining 4 (user outsider)
unfolding pointer
outsider-IsAt = record { is_set = omega arith; points = refl; there = refl }

add_user_id-Joined_example :
    Runs (add_user_id 6 4) before_joining tt (Joined 6 4 nobody outsider before_joining)
add_user_id-Joined_example =
    add_user_id-Joined 6 4 nobody outsider before_joining nobody-IsAt outsider-IsAt refl
      (omega arith) refl refl
