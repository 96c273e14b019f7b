-- ===== src/Auth/Complete.antt =====
-- Where the entries of the parties can be read, a permission that the rules give is not withheld.
use safe_harbor_server.Base.{
  ℕ, ◌+◌, Bool, true, false, Option, none, some, List, [], ◌∷◌, ◌≡◌, ◌≢◌, ◌⊎◌, ◌↔◌, inl, inr, refl,
  ◌∙◌, ◌==◌, if◌then◌else◌, get_elem?, contains, arith, Bool-cases,
}
use safe_harbor_server.Store.{
  Text, Party, User, AclEntry, Resource, Store, ok, acl_entry, as_party, as_resource, user_error,
}
use safe_harbor_server.Store.View.{fetch, fetch_as}
use safe_harbor_server.Auth.Masks.{find_action, at_most_one}
use safe_harbor_server.Auth.Access.{user_authorized}
use safe_harbor_server.Auth.Rules.{
  DocumentedPartyMay, for_itself, for_owner, DocumentedMay, own_object, for_user, for_group, child,
  View, Entitles, by_entry, PartyMay, direct, by_parent, UserMay, own, as_self, through_group,
}
use safe_harbor_server.Auth.Spec.{
  entries_grant, action_granted, party_granted, groups_granted, user_granted, user_authorized-Reads,
}
use safe_harbor_server.Auth.Decision.{user_authorized_sound}

-- Every listed id is that of an ACL entry whose mask has the action's field.
abbrev pub AreReadable : View → ℕ → List Text → Type 0
AreReadable v action [] = Unit
AreReadable v action (id ∷ ids) =
    ((e : AclEntry) × (b : Bool) × (v id ≡ ok (acl_entry e))
      × (get_elem? e.permission_mask action ≡ some b))
    × AreReadable v action ids

abbrev pub GroupsAreReadable : View → ℕ → List Text → Type 0
GroupsAreReadable v action [] = Unit
GroupsAreReadable v action (id ∷ ids) =
    ((g : Party) × (fetch_as as_party user_error (v id) ≡ ok g)
      × AreReadable v action g.acl_entry_ids)
    × GroupsAreReadable v action ids

-- A resource has no parent, or its parent can be read.
abbrev pub ParentIsReadable : View → Resource → Type 0
ParentIsReadable v r =
    (r.parent_id ≡ 0)
    ⊎ ((parent : Resource) × (fetch_as as_resource user_error (v r.parent_id) ≡ ok parent))

-- Readable entries give an answer, never an error.
entries_grant_answers :
    (v : View) (action : ℕ) (rid : Text) (ids : List Text)
    → AreReadable v action ids
    → (b : Bool) × (entries_grant v action rid ids ≡ ok b)
unfolding entries_grant
entries_grant_answers v action rid [] h = (false, refl)
entries_grant_answers v action rid (id ∷ ids) ((e, b, found, bit), more) =
    let (c, rest) = entries_grant_answers v action rid ids more in
    (if e.resource_id == rid then (if b then true else c) else c, ground arith)

entries_grant_complete :
    (v : View) (action : ℕ) (rid : Text) (ids : List Text)
    → AreReadable v action ids
    → Entitles v action rid ids
    → entries_grant v action rid ids ≡ ok true
unfolding entries_grant
entries_grant_complete v action rid [] h (by_entry i e mem found same bit) = cc
entries_grant_complete v action rid (id ∷ ids) ((e', b, found', bit'), more)
      (by_entry i e mem found same bit) =
    elim (Bool-cases (id == i)) [
      | inl here ↦ ground arith
      | inr there ↦
          let ih =
            entries_grant_complete v action rid ids more
              (by_entry i e (ground arith) found same bit) in
          ground arith
    ]

party_granted_answers :
    (v : View) (action : ℕ) (p : Party) (r : Resource)
    → AreReadable v action p.acl_entry_ids
    → ParentIsReadable v r
    → (b : Bool) × (party_granted v (some (some action)) p r ≡ ok b)
unfolding party_granted action_granted
party_granted_answers v action p r h (inl top) =
    let (b, first) = entries_grant_answers v action r.id p.acl_entry_ids h in (b, ground arith)
party_granted_answers v action p r h (inr (parent, found)) =
    let (b, first) = entries_grant_answers v action r.id p.acl_entry_ids h in
    let (c, second) = entries_grant_answers v action parent.id p.acl_entry_ids h in
    (if b then true else if r.parent_id == 0 then false else c, ground arith)

party_granted_complete :
    (v : View) (action : ℕ) (p : Party) (r : Resource)
    → AreReadable v action p.acl_entry_ids
    → PartyMay v action p r
    → party_granted v (some (some action)) p r ≡ ok true
unfolding party_granted action_granted
party_granted_complete v action p r h (direct d) =
    ground (arith, entries_grant_complete v action r.id p.acl_entry_ids h d)
party_granted_complete v action p r h (by_parent parent top found d) =
    let (b, first) = entries_grant_answers v action r.id p.acl_entry_ids h in
    ground (arith, entries_grant_complete v action parent.id p.acl_entry_ids h d)

groups_granted_complete :
    (v : View) (action : ℕ) (r : Resource) (ids : List Text) (gid : Text) (g : Party)
    → GroupsAreReadable v action ids
    → ParentIsReadable v r
    → contains gid ids ≡ true
    → fetch_as as_party user_error (v gid) ≡ ok g
    → PartyMay v action g r
    → groups_granted v (some (some action)) r ids ≡ ok true
unfolding groups_granted
groups_granted_complete v action r [] gid g h parent mem found may = cc
groups_granted_complete v action r (id ∷ ids) gid g ((q, is_group, readable), more) parent mem found
      may =
    elim (Bool-cases (id == gid)) [
      | inl here ↦
          let same : q ≡ g = ground arith in
          let granted = party_granted_complete v action q r readable (rw same may) in
          rw (is_group, granted)
      | inr there ↦
          let ih =
            groups_granted_complete v action r ids gid g more parent (rw there at mem) found may in
          let (b, answered) = party_granted_answers v action q r readable parent in ground arith
    ]

at_most_one_after :
    (i : ℕ) (mask : List Bool) (a : ℕ) (x : Option ℕ)
    → find_action i (some a) mask ≡ some x
    → at_most_one 1 mask ≡ true
unfolding find_action at_most_one
at_most_one_after i [] a x h = refl
at_most_one_after i (false ∷ mask) a x h = at_most_one_after (i + 1) mask a x h
at_most_one_after i (true ∷ mask) a x h = cc

-- The two loops over the mask agree.
at_most_one_of_action :
    (i : ℕ) (mask : List Bool) (x : Option ℕ)
    → find_action i none mask ≡ some x
    → at_most_one 0 mask ≡ true
unfolding find_action at_most_one
at_most_one_of_action i [] x h = refl
at_most_one_of_action i (false ∷ mask) x h = at_most_one_of_action (i + 1) mask x h
at_most_one_of_action i (true ∷ mask) x h = ground (arith, at_most_one_after (i + 1) mask i x h)

-- What a decision reads: the mask names an action, and the user's entries, those of the user's
-- groups, and the resource's parent are there.
pub record IsDecidable (v : View) (u : User) (mask : List Bool) (rid : Text) : Type 0 where
  pub action : ℕ
  pub resource : Resource
  pub names : find_action 0 none mask ≡ some (some action)
  pub found : fetch_as as_resource user_error (v rid) ≡ ok resource
  pub parent : ParentIsReadable v resource
  pub entries : AreReadable v action u.acl_entry_ids
  pub groups : GroupsAreReadable v action u.group_ids

module _ (v : View) (u : User) (mask : List Bool) (rid : Text) (d : IsDecidable v u mask rid) where
  -- What is left of the decision after the checks of the mask and of the resource.
  user_granted_rest :
      u.id ≢ rid
      → (b : Bool) → party_granted v (some (some d.action)) u.party d.resource ≡ ok b
      → user_granted v u mask rid
        ≡ (if b then ok true else groups_granted v (some (some d.action)) d.resource u.group_ids)
  unfolding user_granted
  user_granted_rest other b first =
      rw (d.names, d.found, at_most_one_of_action 0 mask (some d.action) d.names, first)
        (ground arith)

  user_granted_complete : UserMay v u mask rid → user_granted v u mask rid ≡ ok true
  user_granted_complete (own mine) = unfold user_granted in ground arith
  user_granted_complete (as_self a r names found may) = elim (Bool-cases (u.id == rid)) [
    | inl mine ↦ unfold user_granted in rw mine
    | inr other ↦
        let same_action : a ≡ d.action = ground (arith, d.names) in
        let same_resource : r ≡ d.resource = ground (arith, d.found) in
        user_granted_rest (ground arith) true (
          party_granted_complete v d.action u.party d.resource d.entries
            (rw (← same_action, ← same_resource) may))
  ]
  user_granted_complete (through_group a r gid g names found mem is_group may) =
      elim (Bool-cases (u.id == rid)) [
        | inl mine ↦ unfold user_granted in rw mine
        | inr other ↦
            let same_action : a ≡ d.action = ground (arith, d.names) in
            let same_resource : r ≡ d.resource = ground (arith, d.found) in
            let (b, first) =
              party_granted_answers v d.action u.party d.resource d.entries d.parent in
            user_granted_rest (ground arith) b first
            ∙ ground (
              arith,
              groups_granted_complete v d.action d.resource u.group_ids gid g d.groups d.parent mem
                  is_group (rw (← same_action, ← same_resource) may),
            )
      ]

PartyMay-documented :
    (v : View) (action : ℕ) (p : Party) (r : Resource)
    → PartyMay v action p r
    → DocumentedPartyMay v action p r
PartyMay-documented v action p r (direct d) = for_itself d
PartyMay-documented v action p r (by_parent parent top found d) =
    for_owner parent (child r parent top found) d

UserMay-documented :
    (v : View) (u : User) (mask : List Bool) (rid : Text)
    → UserMay v u mask rid
    → DocumentedMay v u mask rid
UserMay-documented v u mask rid (own mine) = own_object mine
UserMay-documented v u mask rid (as_self a r names found may) =
    for_user a r names found (PartyMay-documented v a u.party r may)
UserMay-documented v u mask rid (through_group a r gid g names found mem is_group may) =
    for_group a r gid g names found mem is_group (PartyMay-documented v a g r may)

-- Where the mask names an action and what the decision reads is there, the user is authorized
-- exactly if the resource is the own user object, or the user or one of the user's groups has an
-- entry with that action for the resource or for its parent. That is within the documented rules,
-- and narrower: an entry for what owns the parent, as a realm owns the repo of a dockerfile, counts
-- by these rules and does not count here.
pub user_authorized_iff :
    (u : User) (mask : List Bool) (rid : Text) (s : Store)
    → IsDecidable (fetch s) u mask rid
    → (((user_authorized u mask rid s).0 ≡ ok true) ↔ UserMay (fetch s) u mask rid)
      × (UserMay (fetch s) u mask rid → DocumentedMay (fetch s) u mask rid)
user_authorized_iff u mask rid s d = (
  (
    user_authorized_sound u mask rid s,
    λ may.
        (user_authorized-Reads u mask rid s).result
        ∙ user_granted_complete (fetch s) u mask rid d may,
  ),
  UserMay-documented (fetch s) u mask rid,
)
