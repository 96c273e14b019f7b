-- ===== src/Handlers/Groups.antt =====
-- The handlers createGroup, deleteGroup, addGroupUser and remGroupUser of
-- src/safeharbor/server/Handlers.go.
use safe_harbor_server.Base.{Option, some, ◌==◌, if◌then◌else◌}
use safe_harbor_server.Store.{
  Ptr, Action, pure, or_crash, ◌>>=◌, ◌>>◌, attempt, get_user, get_group, get_realm,
  db_get_user_by_user_id,
}
use safe_harbor_server.Parties.Users.{add_group_id_deferred_update}
use safe_harbor_server.Parties.Groups.{add_user_id, remove_user}
use safe_harbor_server.Realms.Members.{db_create_group}
use safe_harbor_server.Realms.Remove
use safe_harbor_server.Auth.Masks.{create_in_mask, write_mask}
use safe_harbor_server.Auth.Sessions.{SessionToken}
use safe_harbor_server.Handlers.Request.{
  Server, Request, group_id, user_obj_id, realm_id, name, description, add_me, get_required,
  get_http_parameter_value, true_text, Response, result, group_desc,
}
use safe_harbor_server.Handlers.Identity.{authenticate_session, authorize_handler_action}

-- The user who creates a group joins it; a nil user is dereferenced.
join_group : SessionToken → Ptr → Action (Unit {0})
unfolding db_get_user_by_user_id add_user_id
join_group token g = do
  found ← db_get_user_by_user_id token.authenticated_userid
  u ← or_crash found
  add_user_id g u.id

-- createGroup
unfoldable pub create_group : Server → Option SessionToken → Request → Action Response
unfolding authenticate_session get_required get_http_parameter_value authorize_handler_action
    db_create_group join_group
create_group server session request = do
  token ← authenticate_session server session request
  realm ← get_required server request realm_id
  group_name ← get_required server request name
  desc ← get_required server request description
  add_me_str ← get_http_parameter_value server request add_me
  authorize_handler_action server (some token) create_in_mask realm
  g ← db_create_group realm group_name desc
  if add_me_str == true_text then join_group token g else pure tt
  pure (group_desc g)

-- deleteGroup
unfoldable pub delete_group : Server → Option SessionToken → Request → Action Response
unfolding authenticate_session get_required get_group authorize_handler_action get_realm
    Remove.delete_group
delete_group server session request = do
  token ← authenticate_session server session request
  id ← get_required server request group_id
  g ← get_group id
  authorize_handler_action server (some token) write_mask g.realm_id
  r ← get_realm g.realm_id
  Remove.delete_group server.utilities r.id g.id
  pure (result 200)

-- addGroupUser, whose second addGroupIdDeferredUpdate drops its error.
unfoldable pub add_group_user : Server → Option SessionToken → Request → Action Response
unfolding authenticate_session get_required get_group authorize_handler_action add_user_id get_user
    add_group_id_deferred_update
add_group_user server session request = do
  token ← authenticate_session server session request
  id ← get_required server request group_id
  user_id ← get_required server request user_obj_id
  g ← get_group id
  authorize_handler_action server (some token) write_mask g.realm_id
  add_user_id g.id user_id
  u ← get_user user_id
  attempt (add_group_id_deferred_update u.id id)
  pure (result 200)

-- remGroupUser
unfoldable pub rem_group_user : Server → Option SessionToken → Request → Action Response
unfolding authenticate_session get_required get_group authorize_handler_action get_user remove_user
rem_group_user server session request = do
  token ← authenticate_session server session request
  id ← get_required server request group_id
  user_id ← get_required server request user_obj_id
  g ← get_group id
  authorize_handler_action server (some token) write_mask g.realm_id
  u ← get_user user_id
  remove_user g.id u.id
  pure (result 200)
