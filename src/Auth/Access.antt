-- ===== src/Auth/Access.antt =====
-- AuthService.partyHasAccess and AuthService.authorized of src/safeharbor/server/auth.go, and what
-- src/safeharbor/server/HandlerUtils.go makes of their answer.
use safe_harbor_server.Base.{
  ℕ, Bool, true, false, Option, none, some, List, [], ◌∷◌, ◌==◌, if◌then◌else◌, get_elem?,
}
use safe_harbor_server.Store.{
  Text, Party, User, Resource, user_error, server_error, Result, ok, err, panic, Action, pure,
  raise, or_crash, ◌>>=◌, ◌>>◌, guard, get_resource, get_party, get_acl_entry,
  db_get_user_by_user_id,
}
use safe_harbor_server.Auth.Sessions.{SessionToken}
use safe_harbor_server.Auth.Masks.{find_action, at_most_one}

-- The loop of partyHasAccess over the party's ACL entries.
unfoldable pub any_entry_allows : ℕ → Text → List Text → Action Bool
unfolding get_acl_entry
any_entry_allows action resource_id [] = pure false
any_entry_allows action resource_id (id ∷ ids) = do
  let rest = any_entry_allows action resource_id ids
  e ← get_acl_entry id
  if e.resource_id == resource_id
      then (do
        allowed ← or_crash (get_elem? e.permission_mask action)
        if allowed then pure true else rest)
      else rest

unfoldable pub has_action : Option (Option ℕ) → List Text → Text → Action Bool
unfolding any_entry_allows
has_action none ids resource_id = raise user_error
has_action (some none) ids resource_id = pure false
has_action (some (some action)) ids resource_id = any_entry_allows action resource_id ids

-- AuthService.partyHasAccess
unfoldable pub party_has_access : Party → List Bool → Resource → Action Bool
unfolding find_action has_action
party_has_access party action_mask resource =
    has_action (find_action 0 none action_mask) party.acl_entry_ids resource.id

-- One round of the loop of `authorized`: the party's own entries, then those for the parent.
unfoldable pub party_allows : Party → List Bool → Resource → Action Bool
unfolding party_has_access get_resource
party_allows party action_mask resource = do
  direct ← party_has_access party action_mask resource
  if direct
      then pure true
      else if resource.parent_id == 0
      then pure false
      else do parent ← get_resource resource.parent_id; party_has_access party action_mask parent

-- The rest of the loop of `authorized`: one group after the other.
unfoldable pub any_group_allows : List Bool → Resource → List Text → Action Bool
unfolding party_allows get_party
any_group_allows action_mask resource [] = pure false
any_group_allows action_mask resource (id ∷ ids) = do
  let rest = any_group_allows action_mask resource ids
  party ← get_party id
  allowed ← party_allows party action_mask resource
  if allowed then pure true else rest

-- `authorized` from the point where the user is known.
unfoldable pub user_authorized : User → List Bool → Text → Action Bool
unfolding at_most_one get_resource party_allows any_group_allows
user_authorized user action_mask resource_id = if user.id == resource_id then pure true else do
  guard (at_most_one 0 action_mask) user_error
  resource ← get_resource resource_id
  allowed ← party_allows user.party action_mask resource
  if allowed then pure true else any_group_allows action_mask resource user.group_ids

unfoldable pub known_user : Result (Option User) → Result User
known_user (ok (some u)) = ok u
known_user (ok none) = err server_error
known_user (err e) = err server_error
known_user panic = panic

-- AuthService.authorized. The user is nil after an error too, and the error is then replaced.
unfoldable pub authorized : Option SessionToken → List Bool → Text → Action Bool
unfolding db_get_user_by_user_id known_user user_authorized
authorized none action_mask resource_id = raise server_error
authorized (some token) action_mask resource_id = do
  u ← (λ s. let (r, s') = db_get_user_by_user_id token.authenticated_userid s in (known_user r, s'))
  user_authorized u action_mask resource_id
