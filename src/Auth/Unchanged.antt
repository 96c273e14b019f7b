-- ===== src/Auth/Unchanged.antt =====
-- What AuthService.authorized (src/safeharbor/server/auth.go) reads leaves the objects as they are.
use safe_harbor_server.Base.{
  ℕ, Bool, true, false, Option, none, some, List, [], ◌∷◌, ◌==◌, get_elem?,
}
use safe_harbor_server.Store.{
  Text, Party, User, Resource, as_party, as_resource, as_acl_entry, user_error, server_error,
  get_resource, get_party, get_acl_entry,
}
use safe_harbor_server.Auth.Masks.{find_action, at_most_one}
use safe_harbor_server.Auth.Sessions.{SessionToken}
use safe_harbor_server.Auth.Access.{
  any_entry_allows, has_action, party_has_access, party_allows, any_group_allows, user_authorized,
  authorized,
}
use safe_harbor_server.Store.Reads.{
  Reads, Reads-bind, Reads-if, Reads-pure, Reads-raise, Reads-guard, Reads-get_as, Reads-or_crash,
  Reads-db_get_user_by_user_id,
}

Reads-any_entry_allows :
    (action : ℕ) (rid : Text) (ids : List Text) → Reads (any_entry_allows action rid ids)
unfolding any_entry_allows get_acl_entry
Reads-any_entry_allows action rid [] = Reads-pure false
Reads-any_entry_allows action rid (id ∷ ids) =
    let rest = Reads-any_entry_allows action rid ids in
    Reads-bind (Reads-get_as as_acl_entry server_error id) λ e.
      Reads-if (e.resource_id == rid)
        (Reads-bind (Reads-or_crash (get_elem? e.permission_mask action))
          λ allowed. Reads-if allowed (Reads-pure true) rest)
        rest

Reads-has_action :
    (o : Option (Option ℕ)) (ids : List Text) (rid : Text) → Reads (has_action o ids rid)
unfolding has_action
Reads-has_action none ids rid = Reads-raise Bool user_error
Reads-has_action (some none) ids rid = Reads-pure false
Reads-has_action (some (some action)) ids rid = Reads-any_entry_allows action rid ids

Reads-party_has_access :
    (p : Party) (mask : List Bool) (r : Resource) → Reads (party_has_access p mask r)
unfolding party_has_access
Reads-party_has_access p mask r = Reads-has_action (find_action 0 none mask) p.acl_entry_ids r.id

Reads-party_allows : (p : Party) (mask : List Bool) (r : Resource) → Reads (party_allows p mask r)
unfolding party_allows get_resource
Reads-party_allows p mask r = Reads-bind (Reads-party_has_access p mask r) λ direct.
    Reads-if direct (Reads-pure true) (
      Reads-if (r.parent_id == 0) (Reads-pure false) (
        Reads-bind (Reads-get_as as_resource user_error r.parent_id)
          λ parent. Reads-party_has_access p mask parent))

Reads-any_group_allows :
    (mask : List Bool) (r : Resource) (ids : List Text) → Reads (any_group_allows mask r ids)
unfolding any_group_allows get_party
Reads-any_group_allows mask r [] = Reads-pure false
Reads-any_group_allows mask r (id ∷ ids) =
    let rest = Reads-any_group_allows mask r ids in
    Reads-bind (Reads-get_as as_party user_error id) λ p.
      Reads-bind (Reads-party_allows p mask r) λ allowed. Reads-if allowed (Reads-pure true) rest

Reads-user_authorized :
    (u : User) (mask : List Bool) (rid : Text) → Reads (user_authorized u mask rid)
unfolding user_authorized get_resource
Reads-user_authorized u mask rid = Reads-if (u.id == rid) (Reads-pure true) (
    Reads-bind (Reads-guard (at_most_one 0 mask) user_error) λ d.
      Reads-bind (Reads-get_as as_resource user_error rid) λ r.
        Reads-bind (Reads-party_allows u.party mask r)
          λ allowed. Reads-if allowed (Reads-pure true) (Reads-any_group_allows mask r u.group_ids))

-- AuthService.authorized, the look-up of the user included and whatever its answer, leaves all that
-- outlives the request as it was: only the request's caches may change.
pub Reads-authorized :
    (token : Option SessionToken) (mask : List Bool) (rid : Text)
    → Reads (authorized token mask rid)
unfolding authorized
Reads-authorized none mask rid = Reads-raise Bool server_error
Reads-authorized (some token) mask rid =
    Reads-bind record { same = (Reads-db_get_user_by_user_id token.authenticated_userid).same }
      λ u. Reads-user_authorized u mask rid
