-- ===== src/Auth/Spec.antt =====
-- The decisions of src/safeharbor/server/auth.go as functions of what the store shows, and the proof
-- that the actions compute them and leave the store's view as it was.
use mathlib.Core.Path.{fun_ext}
use safe_harbor_server.Base.{
  ℕ, Bool, true, false, Option, none, some, List, [], ◌∷◌, ◌==◌, if◌then◌else◌, get_elem?,
}
use safe_harbor_server.Store.{
  Text, Party, User, Resource, Store, Result, ok, err, Action, as_party, as_resource, as_acl_entry,
  user_error, server_error, guard, or_crash, get_acl_entry, get_resource, get_party,
}
use safe_harbor_server.Store.View.{
  fetch, fetch_as, and_then, SameView-trans, or_panic, SameView, Reads, Reads-pure, Reads-bind,
  get_as-Reads, or_crash-Reads,
}
use safe_harbor_server.Auth.Masks.{find_action, at_most_one}
use safe_harbor_server.Auth.Access.{
  any_entry_allows, has_action, party_has_access, party_allows, any_group_allows, user_authorized,
}
use safe_harbor_server.Auth.Rules.{View}

unfoldable pub entries_grant : View → ℕ → Text → List Text → Result Bool
entries_grant v action rid [] = ok false
entries_grant v action rid (id ∷ ids) =
    let rest = entries_grant v action rid ids in
    and_then (fetch_as as_acl_entry server_error (v id)) λ e.
      if e.resource_id == rid
      then (and_then (or_panic (get_elem? e.permission_mask action))
          λ b. if b then ok true else rest)
      else rest

unfoldable pub action_granted : View → Option (Option ℕ) → List Text → Text → Result Bool
unfolding entries_grant
action_granted v none ids rid = err user_error
action_granted v (some none) ids rid = ok false
action_granted v (some (some action)) ids rid = entries_grant v action rid ids

unfoldable pub party_granted : View → Option (Option ℕ) → Party → Resource → Result Bool
unfolding action_granted
party_granted v action p r = and_then (action_granted v action p.acl_entry_ids r.id) λ direct.
    if direct
    then ok true
    else if r.parent_id == 0
    then ok false
    else and_then (fetch_as as_resource user_error (v r.parent_id))
        λ parent. action_granted v action p.acl_entry_ids parent.id

unfoldable pub groups_granted : View → Option (Option ℕ) → Resource → List Text → Result Bool
unfolding party_granted
groups_granted v action r [] = ok false
groups_granted v action r (id ∷ ids) =
    let rest = groups_granted v action r ids in
    and_then (fetch_as as_party user_error (v id))
      λ p. and_then (party_granted v action p r) λ allowed. if allowed then ok true else rest

unfoldable pub user_granted : View → User → List Bool → Text → Result Bool
unfolding party_granted groups_granted at_most_one find_action
user_granted v u mask rid =
    if u.id == rid
    then ok true
    else and_then (if at_most_one 0 mask then ok tt else err user_error) λ _.
      and_then (fetch_as as_resource user_error (v rid)) λ r.
        and_then (party_granted v (find_action 0 none mask) u.party r) λ allowed.
          if allowed then ok true else groups_granted v (find_action 0 none mask) r u.group_ids

Reads-if :
    {A : Type 0} (b : Bool) (m n : Action A) (q r : Result A) (s : Store)
    → Reads m q s
    → Reads n r s
    → Reads (if b then m else n) (if b then q else r) s
Reads-if true m n q r s hm hn = hm
Reads-if false m n q r s hm hn = hn

-- What holds for the view after some reads holds for the view before them.
at_view :
    {A : Type 0} {m : Action A} (g : View → Result A) (s t : Store)
    → SameView s t
    → Reads m (g (fetch t)) t
    → Reads m (g (fetch s)) t
at_view g s t same h = rw (fun_ext same) at h

any_entry_allows-Reads :
    (action : ℕ) (rid : Text) (ids : List Text) (s : Store)
    → Reads (any_entry_allows action rid ids) (entries_grant (fetch s) action rid ids) s
unfolding any_entry_allows entries_grant get_acl_entry
any_entry_allows-Reads action rid [] s = Reads-pure (ok false) s
any_entry_allows-Reads action rid (id ∷ ids) s =
    let rest = λ (t : Store) (same : SameView s t).
      at_view (λ v. entries_grant v action rid ids) s t same
        (any_entry_allows-Reads action rid ids t) in
    Reads-bind (get_acl_entry id) _ (fetch_as as_acl_entry server_error (fetch s id)) _ s
      (get_as-Reads as_acl_entry server_error id s)
      λ e t same found.
        Reads-if (e.resource_id == rid) _ _ _ _ t
          (Reads-bind (or_crash (get_elem? e.permission_mask action)) _
            (or_panic (get_elem? e.permission_mask action)) _ t (or_crash-Reads _ t)
            λ b t' same' _.
              Reads-if b _ _ _ _ t' (Reads-pure (ok true) t')
                (rest t' (SameView-trans s t t' same same')))
          (rest t same)

has_action-Reads :
    (action : Option (Option ℕ)) (ids : List Text) (rid : Text) (s : Store)
    → Reads (has_action action ids rid) (action_granted (fetch s) action ids rid) s
unfolding has_action action_granted
has_action-Reads none ids rid s = Reads-pure (err user_error) s
has_action-Reads (some none) ids rid s = Reads-pure (ok false) s
has_action-Reads (some (some action)) ids rid s = any_entry_allows-Reads action rid ids s

party_allows-Reads :
    (p : Party) (mask : List Bool) (r : Resource) (s : Store)
    → Reads (party_allows p mask r) (party_granted (fetch s) (find_action 0 none mask) p r) s
unfolding party_allows party_has_access party_granted get_resource
party_allows-Reads p mask r s =
    let action = find_action 0 none mask in
    let ids = p.acl_entry_ids in
    Reads-bind (has_action action ids r.id) _ (action_granted (fetch s) action ids r.id) _ s
      (has_action-Reads action ids r.id s)
      λ direct t same _. Reads-if direct _ _ _ _ t (Reads-pure (ok true) t) (
        Reads-if (r.parent_id == 0) _ _ _ _ t (Reads-pure (ok false) t) (
          Reads-bind (get_resource r.parent_id) _
            (fetch_as as_resource user_error (fetch s r.parent_id)) _ t
            (at_view (λ v. fetch_as as_resource user_error (v r.parent_id)) s t same
              (get_as-Reads as_resource user_error r.parent_id t))
            λ parent t' same' _.
              at_view (λ v. action_granted v action ids parent.id) s t'
                (SameView-trans s t t' same same') (has_action-Reads action ids parent.id t')))

any_group_allows-Reads :
    (mask : List Bool) (r : Resource) (ids : List Text) (s : Store)
    → Reads
        (any_group_allows mask r ids)
        (groups_granted (fetch s) (find_action 0 none mask) r ids)
        s
unfolding any_group_allows groups_granted get_party
any_group_allows-Reads mask r [] s = Reads-pure (ok false) s
any_group_allows-Reads mask r (id ∷ ids) s =
    let action = find_action 0 none mask in
    Reads-bind (get_party id) _ (fetch_as as_party user_error (fetch s id)) _ s
      (get_as-Reads as_party user_error id s)
      λ p t same _.
        Reads-bind (party_allows p mask r) _ (party_granted (fetch s) action p r) _ t
          (at_view (λ v. party_granted v action p r) s t same (party_allows-Reads p mask r t))
          λ allowed t' same' _. Reads-if allowed _ _ _ _ t' (Reads-pure (ok true) t') (
            at_view (λ v. groups_granted v action r ids) s t' (SameView-trans s t t' same same')
              (any_group_allows-Reads mask r ids t'))

-- The decision for a known user is the function `user_granted` of what the store shows.
pub user_authorized-Reads :
    (u : User) (mask : List Bool) (rid : Text) (s : Store)
    → Reads (user_authorized u mask rid) (user_granted (fetch s) u mask rid) s
unfolding user_authorized user_granted get_resource
user_authorized-Reads u mask rid s =
    let action = find_action 0 none mask in
    Reads-if (u.id == rid) _ _ _ _ s (Reads-pure (ok true) s) (
      Reads-bind (guard (at_most_one 0 mask) user_error) _
        (if at_most_one 0 mask then ok tt else err user_error) _ s (Reads-pure _ s)
        λ _ t same _.
          Reads-bind (get_resource rid) _ (fetch_as as_resource user_error (fetch s rid)) _ t
            (at_view (λ v. fetch_as as_resource user_error (v rid)) s t same
              (get_as-Reads as_resource user_error rid t))
            λ r t' same' _.
              let same2 = SameView-trans s t t' same same' in
              Reads-bind (party_allows u.party mask r) _ (party_granted (fetch s) action u.party r)
                _ t'
                (at_view (λ v. party_granted v action u.party r) s t' same2
                  (party_allows-Reads u.party mask r t'))
                λ allowed t'' same'' _. Reads-if allowed _ _ _ _ t'' (Reads-pure (ok true) t'') (
                  at_view (λ v. groups_granted v action r u.group_ids) s t''
                    (SameView-trans s t' t'' same2 same'')
                    (any_group_allows-Reads mask r u.group_ids t'')))
