-- ===== src/Handlers/Permissions.antt =====
-- The handlers setPermission, addPermission, remPermission and getPermission of
-- src/safeharbor/server/Handlers.go.
use safe_harbor_server.Base.{Bool, false, Option, none, some, List, [], ◌∷◌}
use safe_harbor_server.Store.{
  Text, Ptr, AclEntry, as_acl_entry, Action, pure, or_crash, ◌>>=◌, ◌>>◌, deref, get_resource,
  get_party,
}
use safe_harbor_server.Acl.Access.{
  set_access, add_access, delete_access, get_acl_entry_for_resource_id,
}
use safe_harbor_server.Auth.Masks.{read_mask, write_mask}
use safe_harbor_server.Auth.Sessions.{SessionToken}
use safe_harbor_server.Handlers.Request.{
  Server, Request, party_id, resource_id, can_create_in, can_read, can_write, can_execute,
  can_delete, get_required, to_bool_ar, Response, result, permission_desc,
}
use safe_harbor_server.Handlers.Identity.{authenticate_session, authorize_handler_action}

-- The five parameters of a mask, and ToBoolAr of them.
unfoldable pub requested_mask : Server → Request → Action (List Bool)
unfolding get_required to_bool_ar
requested_mask server request = do
  c ← get_required server request can_create_in
  r ← get_required server request can_read
  w ← get_required server request can_write
  x ← get_required server request can_execute
  d ← get_required server request can_delete
  pure (to_bool_ar (c ∷ r ∷ w ∷ x ∷ d ∷ []))

-- InMemACLEntry.asPermissionDesc
as_permission_desc : Ptr → Action Response
unfolding deref
as_permission_desc p = do
  o ← deref p
  e ← or_crash (as_acl_entry o)
  pure (permission_desc e.id e.resource_id e.party_id e.permission_mask)

-- setPermission and addPermission, which differ in what they do with the mask.
unfoldable pub change_permission :
    (Ptr → Ptr → List Bool → Action Ptr) → Server → Option SessionToken → Request → Action Response
unfolding authenticate_session get_required requested_mask authorize_handler_action get_resource
    get_party as_permission_desc
change_permission change server session request = do
  token ← authenticate_session server session request
  party_id' ← get_required server request party_id
  resource_id' ← get_required server request resource_id
  mask ← requested_mask server request
  authorize_handler_action server (some token) write_mask resource_id'
  r ← get_resource resource_id'
  p ← get_party party_id'
  e ← change r.id p.id mask
  as_permission_desc e

-- setPermission
unfoldable pub set_permission : Server → Option SessionToken → Request → Action Response
unfolding change_permission set_access
set_permission = change_permission set_access

-- addPermission
unfoldable pub add_permission : Server → Option SessionToken → Request → Action Response
unfolding change_permission add_access
add_permission = change_permission add_access

-- remPermission
unfoldable pub rem_permission : Server → Option SessionToken → Request → Action Response
unfolding authenticate_session get_required authorize_handler_action get_resource get_party
    delete_access
rem_permission server session request = do
  token ← authenticate_session server session request
  party_id' ← get_required server request party_id
  resource_id' ← get_required server request resource_id
  authorize_handler_action server (some token) write_mask resource_id'
  r ← get_resource resource_id'
  p ← get_party party_id'
  delete_access server.utilities r.id p.id
  pure (result 200)

desc_of_entry : Text → Text → Option AclEntry → Response
desc_of_entry rid pid none = permission_desc 0 rid pid (false ∷ false ∷ false ∷ false ∷ false ∷ [])
desc_of_entry rid pid (some e) = permission_desc e.id rid pid e.permission_mask

-- getPermission
unfoldable pub get_permission : Server → Option SessionToken → Request → Action Response
unfolding authenticate_session get_required authorize_handler_action get_party
    get_acl_entry_for_resource_id desc_of_entry
get_permission server session request = do
  token ← authenticate_session server session request
  party_id' ← get_required server request party_id
  resource_id' ← get_required server request resource_id
  authorize_handler_action server (some token) read_mask resource_id'
  p ← get_party party_id'
  e ← get_acl_entry_for_resource_id p.id resource_id'
  pure (desc_of_entry resource_id' party_id' e)
