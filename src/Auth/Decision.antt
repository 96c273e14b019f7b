-- ===== src/Auth/Decision.antt =====
-- The access decision against the rules: a permission is never given without an entry for it, and
-- never withheld where the entries can be read.
use safe_harbor_server.Base.{
  ℕ, Bool, true, false, Option, none, some, List, [], ◌∷◌, ◌≡◌, inl, inr, refl, sym, ◌∙◌, ◌==◌,
  if◌then◌else◌, get_elem?, contains, arith, ==_iff, Bool-cases,
}
use safe_harbor_server.Store.{
  Text, Party, User, AclEntry, Resource, Store, Obj, Result, ok, err, panic, acl_entry, as_party,
  as_resource, as_acl_entry, user_error, server_error,
}
use safe_harbor_server.Store.View.{fetch, fetch_as, and_then, or_panic}
use safe_harbor_server.Auth.Masks.{find_action, at_most_one}
use safe_harbor_server.Auth.Access.{user_authorized}
use safe_harbor_server.Auth.Rules.{
  View, Entitles, by_entry, PartyMay, direct, by_parent, UserMay, own, as_self, through_group,
}
use safe_harbor_server.Auth.Spec.{
  entries_grant, action_granted, party_granted, groups_granted, user_granted, user_authorized-Reads,
}

-- A step that went well had a result.
and_then-ok :
    {A B : Type 0} (r : Result A) (f : A → Result B) (b : B)
    → and_then r f ≡ ok b
    → (a : A) × (r ≡ ok a) × (f a ≡ ok b)
and_then-ok (ok a) f b h = (a, refl, h)
and_then-ok (err e) f b h = cc
and_then-ok panic f b h = cc

entry_of_fetch :
    (r : Result Obj) (e : AclEntry)
    → fetch_as as_acl_entry server_error r ≡ ok e
    → r ≡ ok (acl_entry e)
entry_of_fetch r e h = ground arith

Entitles-there :
    (v : View) (action : ℕ) (rid id : Text) (ids : List Text)
    → Entitles v action rid ids
    → Entitles v action rid (id ∷ ids)
Entitles-there v action rid id ids (by_entry i e mem found same bit) =
    by_entry i e (ground arith) found same bit

entries_grant_sound :
    (v : View) (action : ℕ) (rid : Text) (ids : List Text)
    → entries_grant v action rid ids ≡ ok true
    → Entitles v action rid ids
unfolding entries_grant
entries_grant_sound v action rid [] h = cc
entries_grant_sound v action rid (id ∷ ids) h =
    let (e, found, rest) = and_then-ok (fetch_as as_acl_entry server_error (v id)) _ true h in
    let ih = λ (k : entries_grant v action rid ids ≡ ok true).
      Entitles-there v action rid id ids (entries_grant_sound v action rid ids k) in
    elim (Bool-cases (e.resource_id == rid)) [
      | inl same ↦
          let (b, bit, after) =
            and_then-ok (or_panic (get_elem? e.permission_mask action)) _ true (rw same at rest) in
          elim (Bool-cases b) [
            | inl yes_ ↦
                by_entry id e (ground arith) (entry_of_fetch (v id) e found) ((==_iff _ _).0 same)
                  (ground arith)
            | inr no_ ↦ ih (rw no_ at after)
          ]
      | inr other ↦ ih (rw other at rest)
    ]

party_granted_sound :
    (v : View) (action : ℕ) (p : Party) (r : Resource)
    → party_granted v (some (some action)) p r ≡ ok true
    → PartyMay v action p r
unfolding party_granted action_granted
party_granted_sound v action p r h =
    let (b, first, rest) = and_then-ok (entries_grant v action r.id p.acl_entry_ids) _ true h in
    elim (Bool-cases b) [
      | inl yes_ ↦ direct (entries_grant_sound v action r.id p.acl_entry_ids (rw yes_ at first))
      | inr no_ ↦ elim (Bool-cases (r.parent_id == 0)) [
        | inl top ↦ cc (rw (no_, top) at rest)
        | inr has_parent ↦
            let (parent, found, last) =
              and_then-ok (fetch_as as_resource user_error (v r.parent_id)) _ true
                (rw (no_, has_parent) at rest) in
            by_parent parent (ground arith) found
              (entries_grant_sound v action parent.id p.acl_entry_ids last)
      ]
    ]

-- A mask with no field or with two gives nobody access.
party_granted_acts :
    (v : View) (m : Option (Option ℕ)) (p : Party) (r : Resource)
    → party_granted v m p r ≡ ok true
    → (action : ℕ) × (m ≡ some (some action)) × PartyMay v action p r
unfolding party_granted action_granted
party_granted_acts v none p r h = cc
party_granted_acts v (some none) p r h = elim (Bool-cases (r.parent_id == 0)) [
  | inl top ↦ cc (rw top at h)
  | inr has_parent ↦
      let (parent, found, last) =
        and_then-ok (fetch_as as_resource user_error (v r.parent_id)) _ true (rw has_parent at h) in
      cc last
]
party_granted_acts v (some (some a)) p r h = (a, refl, party_granted_sound v a p r h)

groups_granted_sound :
    (v : View) (m : Option (Option ℕ)) (r : Resource) (ids : List Text)
    → groups_granted v m r ids ≡ ok true
    → (id : Text) × (g : Party) × (contains id ids ≡ true)
      × (fetch_as as_party user_error (v id) ≡ ok g)
      × (party_granted v m g r ≡ ok true)
unfolding groups_granted
groups_granted_sound v m r [] h = cc
groups_granted_sound v m r (id ∷ ids) h =
    let (g, found, rest) = and_then-ok (fetch_as as_party user_error (v id)) _ true h in
    let (b, decided, after) = and_then-ok (party_granted v m g r) _ true rest in
    elim (Bool-cases b) [
      | inl yes_ ↦ (id, g, ground arith, found, rw yes_ at decided)
      | inr no_ ↦
          let (id', g', mem, found', granted) = groups_granted_sound v m r ids (rw no_ at after) in
          (id', g', ground arith, found', granted)
    ]

-- What the first party, the user, or else the groups decided.
parties_granted_sound :
    (v : View) (u : User) (mask : List Bool) (rid : Text) (r : Resource) (b : Bool)
    → fetch_as as_resource user_error (v rid) ≡ ok r
    → party_granted v (find_action 0 none mask) u.party r ≡ ok b
    → (if b then ok true else groups_granted v (find_action 0 none mask) r u.group_ids) ≡ ok true
    → UserMay v u mask rid
parties_granted_sound v u mask rid r true found first h =
    let (a, names, may) = party_granted_acts v (find_action 0 none mask) u.party r first in
    as_self a r names found may
parties_granted_sound v u mask rid r false found first h =
    let (gid, g, mem, is_group, granted) =
      groups_granted_sound v (find_action 0 none mask) r u.group_ids h in
    let (a, names, may) = party_granted_acts v (find_action 0 none mask) g r granted in
    through_group a r gid g names found mem is_group may

resource_granted_sound :
    (v : View) (u : User) (mask : List Bool) (rid : Text) (r : Resource)
    → fetch_as as_resource user_error (v rid) ≡ ok r
    → and_then (party_granted v (find_action 0 none mask) u.party r) (λ allowed.
      if allowed then ok true else groups_granted v (find_action 0 none mask) r u.group_ids)
      ≡ ok true
    → UserMay v u mask rid
resource_granted_sound v u mask rid r found h =
    let (b, first, h') =
      and_then-ok (party_granted v (find_action 0 none mask) u.party r) _ true h in
    parties_granted_sound v u mask rid r b found first h'

user_granted_sound :
    (v : View) (u : User) (mask : List Bool) (rid : Text)
    → user_granted v u mask rid ≡ ok true
    → UserMay v u mask rid
unfolding user_granted
user_granted_sound v u mask rid h = elim (Bool-cases (u.id == rid)) [
  | inl mine ↦ own ((==_iff _ _).0 mine)
  | inr other ↦
      let (t, once, h1) =
        and_then-ok (if at_most_one 0 mask then ok tt else err user_error) _ true (rw other at h) in
      let (r, found, h2) = and_then-ok (fetch_as as_resource user_error (v rid)) _ true h1 in
      resource_granted_sound v u mask rid r found h2
]

-- Whoever is authorized may: the user asks for the own user object, or the user or one of the
-- user's groups has an entry, for the resource or for its parent, with the bit of the one action
-- that the mask names.
pub user_authorized_sound :
    (u : User) (mask : List Bool) (rid : Text) (s : Store)
    → (user_authorized u mask rid s).0 ≡ ok true
    → UserMay (fetch s) u mask rid
user_authorized_sound u mask rid s h =
    user_granted_sound (fetch s) u mask rid (sym (user_authorized-Reads u mask rid s).result ∙ h)
