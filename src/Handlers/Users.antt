-- ===== src/Handlers/Users.antt =====
-- The handlers disableUser, reenableUser, changePassword, deactivateRealm and moveUserToRealm of
-- src/safeharbor/server/Handlers.go.
use safe_harbor_server.Base.{true, false, Option, some, ◌==◌, if◌then◌else◌}
use safe_harbor_server.Store.{
  Action, pure, or_raise, ◌>>=◌, ◌>>◌, guard, attempt, get_user, get_realm, db_get_user_by_user_id,
}
use safe_harbor_server.Parties.Users.{set_active, set_password, validate_password}
use safe_harbor_server.Realms.Members.{add_user_id, remove_user_id}
use safe_harbor_server.Realms.Remove.{db_deactivate_realm}
use safe_harbor_server.Auth.Masks.{write_mask, delete_mask}
use safe_harbor_server.Auth.Sessions.{SessionToken}
use safe_harbor_server.Handlers.Request.{
  Server, Request, user_id, user_obj_id, realm_id, old_password, new_password, get_required,
  bad_request, forbidden, internal_server_error, Response, result,
}
use safe_harbor_server.Handlers.Identity.{authenticate_session, authorize_handler_action}

-- disableUser, which drops the error of setActive.
unfoldable pub disable_user : Server → Option SessionToken → Request → Action Response
unfolding authenticate_session get_required get_user authorize_handler_action set_active
disable_user server session request = do
  token ← authenticate_session server session request
  id ← get_required server request user_obj_id
  u ← get_user id
  authorize_handler_action server (some token) write_mask u.realm_id
  attempt (set_active u.id false)
  pure (result 200)

-- reenableUser
unfoldable pub reenable_user : Server → Option SessionToken → Request → Action Response
unfolding authenticate_session get_required get_user authorize_handler_action set_active
reenable_user server session request = do
  token ← authenticate_session server session request
  id ← get_required server request user_obj_id
  u ← get_user id
  authorize_handler_action server (some token) write_mask u.realm_id
  guard (if u.is_active then false else true) bad_request
  attempt (set_active u.id true)
  pure (result 200)

-- changePassword
unfoldable pub change_password : Server → Option SessionToken → Request → Action Response
unfolding authenticate_session get_required db_get_user_by_user_id validate_password
    authorize_handler_action set_password
change_password server session request = do
  token ← authenticate_session server session request
  id ← get_required server request user_id
  guard (token.authenticated_userid == id) forbidden
  found ← db_get_user_by_user_id id
  u ← or_raise found internal_server_error
  old_pswd ← get_required server request old_password
  guard (validate_password server.compute_password_hash u old_pswd) bad_request
  new_pswd ← get_required server request new_password
  authorize_handler_action server (some token) write_mask u.id
  set_password server.compute_password_hash u.id new_pswd
  pure (result 200)

-- deactivateRealm
unfoldable pub deactivate_realm : Server → Option SessionToken → Request → Action Response
unfolding authenticate_session get_required authorize_handler_action db_deactivate_realm
deactivate_realm server session request = do
  token ← authenticate_session server session request
  id ← get_required server request realm_id
  authorize_handler_action server (some token) delete_mask id
  db_deactivate_realm server.utilities id
  pure (result 200)

-- moveUserToRealm
unfoldable pub move_user_to_realm : Server → Option SessionToken → Request → Action Response
unfolding authenticate_session get_required authorize_handler_action get_realm get_user
    remove_user_id add_user_id
move_user_to_realm server session request = do
  token ← authenticate_session server session request
  id ← get_required server request realm_id
  obj_id ← get_required server request user_obj_id
  authorize_handler_action server (some token) write_mask id
  dest ← get_realm id
  u ← get_user obj_id
  orig ← get_realm u.realm_id
  guard (if orig.id == dest.id then false else true) bad_request
  remove_user_id server.utilities orig.id obj_id
  add_user_id dest.id obj_id
  pure (result 200)
