-- ===== src/Parties/Membership.antt =====
-- What joining and leaving a group does to the two lists that say so.
use safe_harbor_server.Base.{
  [], ◌∷◌, ◌++◌, ◌==◌, false, ap, inl, inr, Bool-cases, ℕ, Bool, true, none, some, List, ◌≡◌, ◌≢◌,
  refl, ◌∙◌, arith, contains,
}
use safe_harbor_server.Store.{
  Text, Ptr, Store, Obj, user, Party, Resource, acl_entry, User, Group, group, ok, as_group,
  as_party, as_resource, user_error,
}
use safe_harbor_server.Store.View.{fetch, fetch_as}
use safe_harbor_server.Auth.Rules.{
  Entitles, by_entry, PartyMay, direct, by_parent, UserMay, own, as_self, through_group,
}
use safe_harbor_server.Parties.Groups.{remove_user, without_first}

-- The group that a request works on: it is stored, and its pointer is where the group is.
pub record IsGroupAt (s : Store) (g : Ptr) (x : Group) : Type 0 where
  pub is_set : g ≢ 0
  pub there : s.heap g ≡ some (group x)
  pub shown : fetch s g ≡ ok (group x)

-- A list that holds an id, around the first place where it does.
record FirstPlace (u : Text) (ids : List Text) : Type 0 where
  before : List Text
  after : List Text
  whole : ids ≡ before ++ u ∷ after
  first : contains u before ≡ false
  left : without_first u ids ≡ before ++ after

first_place : (u : Text) (ids : List Text) → contains u ids ≡ true → FirstPlace u ids
unfolding without_first
first_place u [] h = cc
first_place u (x ∷ xs) h = elim (Bool-cases (x == u)) [
  | inl same ↦ record {
    before = [];
    after = xs;
    whole = ground arith;
    first = refl;
    left = ground arith;
  }
  | inr other ↦
      let p = first_place u xs (ground arith) in
      record {
        before = x ∷ p.before;
        after = p.after;
        whole = ap (λ ys. x ∷ ys) p.whole;
        first = (let k = p.first in ground arith);
        left = rw other (ap (λ ys. x ∷ ys) p.left);
      }
]

remove_user_run :
    (s : Store) (g u : Ptr) (x : Group)
    → IsGroupAt s g x
    → contains u x.user_obj_ids ≡ true
    → let (r, s') = remove_user g u s in
      (r ≡ ok tt)
      × (fetch s' g ≡ ok (group (record x { user_obj_ids = without_first u x.user_obj_ids })))
unfolding remove_user fetch
remove_user_run s g u x at_g member = (ground arith, ground arith)

-- A member is taken from a group that is stored and found under its pointer: removeUser succeeds,
-- and the group is then found with the list that it had before and after the first place of the
-- member, that place left out, and with everything else as it was.
pub remove_user_lem :
    (s : Store) (g u : Ptr) (x : Group)
    → IsGroupAt s g x
    → contains u x.user_obj_ids ≡ true
    → let (r, s') = remove_user g u s in
      (r ≡ ok tt)
      × ((before : List Text) × (after : List Text) × (x.user_obj_ids ≡ before ++ u ∷ after)
          × (contains u before ≡ false)
          × (fetch s' g ≡ ok (group (record x { user_obj_ids = before ++ after }))))
remove_user_lem s g u x at_g member =
    let (done, shown) = remove_user_run s g u x at_g member in
    let p = first_place u x.user_obj_ids member in
    (done, (p.before, p.after, p.whole, p.first, rw p.left at shown))

pub remove_user_others :
    (s : Store) (g u id : Ptr) (x : Group) (o : Obj)
    → IsGroupAt s g x
    → contains u x.user_obj_ids ≡ true
    → as_group o ≡ none
    → fetch s id ≡ ok o
    → fetch (remove_user g u s).1 id ≡ ok o
unfolding remove_user fetch
remove_user_others s g u id x o at_g member other shown = ground arith

-- A party's name, realm and ACL entries do not depend on the group's list of users.
remove_user_party :
    (s : Store) (g u id : Ptr) (x : Group)
    → IsGroupAt s g x
    → contains u x.user_obj_ids ≡ true
    → fetch_as as_party user_error (fetch (remove_user g u s).1 id)
      ≡ fetch_as as_party user_error (fetch s id)
unfolding remove_user fetch
remove_user_party s g u id x at_g member = ground arith

remove_user_resource :
    (s : Store) (g u id : Ptr) (x : Group)
    → IsGroupAt s g x
    → contains u x.user_obj_ids ≡ true
    → fetch_as as_resource user_error (fetch (remove_user g u s).1 id)
      ≡ fetch_as as_resource user_error (fetch s id)
unfolding remove_user fetch
remove_user_resource s g u id x at_g member = ground arith

module _ (s : Store) (g u : Ptr) (x : Group) (at_g : IsGroupAt s g x)
    (member : contains u x.user_obj_ids ≡ true) where
  Entitles-remove_user :
      (action : ℕ) (rid : Text) (ids : List Text)
      → Entitles (fetch s) action rid ids
      → Entitles (fetch (remove_user g u s).1) action rid ids
  Entitles-remove_user action rid ids (by_entry id e mem found same bit) =
      by_entry id e mem (remove_user_others s g u id x (acl_entry e) at_g member refl found) same
        bit

  PartyMay-remove_user :
      (action : ℕ) (p : Party) (r : Resource)
      → PartyMay (fetch s) action p r
      → PartyMay (fetch (remove_user g u s).1) action p r
  PartyMay-remove_user action p r (direct d) =
      direct (Entitles-remove_user action r.id p.acl_entry_ids d)
  PartyMay-remove_user action p r (by_parent parent top found d) =
      by_parent parent top (remove_user_resource s g u r.parent_id x at_g member ∙ found)
        (Entitles-remove_user action parent.id p.acl_entry_ids d)

  UserMay-remove_user :
      (v : User) (mask : List Bool) (rid : Text)
      → UserMay (fetch s) v mask rid
      → UserMay (fetch (remove_user g u s).1) v mask rid
  UserMay-remove_user v mask rid (own mine) = own mine
  UserMay-remove_user v mask rid (as_self a r names found may) =
      as_self a r names (remove_user_resource s g u rid x at_g member ∙ found)
        (PartyMay-remove_user a v.party r may)
  UserMay-remove_user v mask rid (through_group a r gid p names found mem is_group may) =
      through_group a r gid p names (remove_user_resource s g u rid x at_g member ∙ found) mem
        (remove_user_party s g u gid x at_g member ∙ is_group) (PartyMay-remove_user a p r may)

  -- After removeUser has taken a member from a group, the store shows the member's user object as it
  -- did before, with the groups that it lists, and by that object the member may perform every action
  -- that was allowed before by the access rules.
  pub remove_user_keeps_rights :
      (v : User) (mask : List Bool) (rid : Text)
      → fetch s u ≡ ok (user v)
      → UserMay (fetch s) v mask rid
      → (fetch (remove_user g u s).1 u ≡ ok (user v))
        × UserMay (fetch (remove_user g u s).1) v mask rid
  remove_user_keeps_rights v mask rid shown may = (
    remove_user_others s g u u x (user v) at_g member refl shown,
    UserMay-remove_user v mask rid may,
  )
