-- ===== src/Handlers/Queries.antt =====
-- Handlers of src/safeharbor/server/Handlers.go that describe users, groups, realms, repos and flags.
-- Of a description the model keeps the id of what is described, and of a file its path.
use safe_harbor_server.Base.{true, false, ◌==◌, if◌then◌else◌, Option, some, List, [], ◌∷◌}
use safe_harbor_server.Store.{
  guard, or_crash, get_realm_obj_id_by_realm_name, Text, Action, pure, or_raise, attempt, ◌>>=◌,
  ◌>>◌, get_user, get_group, get_realm, get_repo, db_get_user_by_user_id,
}
use safe_harbor_server.Parties.Users.{get_realms_administered_by_user}
use safe_harbor_server.Auth.Masks.{read_mask}
use safe_harbor_server.Auth.Sessions.{SessionToken}
use safe_harbor_server.Contents.Find.{get_flag}
use safe_harbor_server.Handlers.Request.{
  Server, Request, realm_name, realm_id, user_id, group_id, repo_id, flag_id, get_required,
  bad_request, Response, user_desc, group_desc, realm_desc, repo_desc, flag_desc, file_response,
  user_descs, group_descs, repo_descs,
}
use safe_harbor_server.Handlers.Identity.{authenticate_session, authorize_handler_action}

-- InMemUser.asUserDesc, which goes on after an error.
unfoldable pub as_user_desc : Text → Action Response
unfolding get_realms_administered_by_user
as_user_desc u = do attempt (get_realms_administered_by_user u); pure (user_desc u)

-- The loops that describe what is in a list.
unfoldable pub describe_each : (Text → Action Text) → List Text → Action (List Text)
describe_each describe [] = pure []
describe_each describe (id ∷ ids) = do
  let rest = describe_each describe ids
  x ← describe id
  xs ← rest
  pure (x ∷ xs)

unfoldable pub describe_user : Text → Action Text
unfolding get_user as_user_desc
describe_user id = do u ← get_user id; as_user_desc u.id; pure u.id

unfoldable pub describe_group : Text → Action Text
unfolding get_group
describe_group id = do g ← get_group id; pure g.id

unfoldable pub describe_repo : Text → Action Text
unfolding get_repo
describe_repo id = do r ← get_repo id; pure r.id

module _ (server : Server) (session : Option SessionToken) (request : Request) where
  -- getRealmDesc
  unfoldable pub get_realm_desc : Action Response
  unfolding authenticate_session get_required authorize_handler_action get_realm
  get_realm_desc = do
    token ← authenticate_session server session request
    id ← get_required server request realm_id
    authorize_handler_action server (some token) read_mask id
    r ← get_realm id
    pure (realm_desc r.id)

  -- getRealmUsers
  unfoldable pub get_realm_users : Action Response
  unfolding authenticate_session get_required authorize_handler_action get_realm describe_each
      describe_user
  get_realm_users = do
    token ← authenticate_session server session request
    id ← get_required server request realm_id
    authorize_handler_action server (some token) read_mask id
    r ← get_realm id
    ids ← describe_each describe_user r.user_obj_ids
    pure (user_descs ids)

  -- getRealmGroups
  unfoldable pub get_realm_groups : Action Response
  unfolding authenticate_session get_required authorize_handler_action get_realm describe_each
      describe_group
  get_realm_groups = do
    token ← authenticate_session server session request
    id ← get_required server request realm_id
    authorize_handler_action server (some token) read_mask id
    r ← get_realm id
    ids ← describe_each describe_group r.group_ids
    pure (group_descs ids)

  -- getRealmRepos
  unfoldable pub get_realm_repos : Action Response
  unfolding authenticate_session get_required authorize_handler_action get_realm describe_each
      describe_repo
  get_realm_repos = do
    token ← authenticate_session server session request
    id ← get_required server request realm_id
    authorize_handler_action server (some token) read_mask id
    r ← get_realm id
    ids ← describe_each describe_repo r.repo_ids
    pure (repo_descs ids)

  -- getUserDesc
  unfoldable pub get_user_desc : Action Response
  unfolding authenticate_session get_required db_get_user_by_user_id get_realm
      authorize_handler_action as_user_desc
  get_user_desc = do
    token ← authenticate_session server session request
    id ← get_required server request user_id
    found ← db_get_user_by_user_id id
    u ← or_raise found bad_request
    r ← get_realm u.realm_id
    authorize_handler_action server (some token) read_mask r.id
    as_user_desc u.id

  -- getMyDesc
  unfoldable pub get_my_desc : Action Response
  unfolding authenticate_session db_get_user_by_user_id as_user_desc
  get_my_desc = do
    token ← authenticate_session server session request
    found ← db_get_user_by_user_id token.authenticated_userid
    u ← or_raise found bad_request
    as_user_desc u.id

  -- getGroupUsers
  unfoldable pub get_group_users : Action Response
  unfolding authenticate_session get_required get_group authorize_handler_action describe_each
      describe_user
  get_group_users = do
    token ← authenticate_session server session request
    id ← get_required server request group_id
    g ← get_group id
    authorize_handler_action server (some token) read_mask g.realm_id
    ids ← describe_each describe_user g.user_obj_ids
    pure (user_descs ids)

  -- getGroupDesc, which does not ask whether the user may read the group.
  unfoldable pub get_group_desc : Action Response
  unfolding authenticate_session get_required get_group
  get_group_desc = do
    authenticate_session server session request
    id ← get_required server request group_id
    g ← get_group id
    pure (group_desc g.id)

  -- getRepoDesc, which does not ask whether the user may read the repo.
  unfoldable pub get_repo_desc : Action Response
  unfolding authenticate_session get_required get_repo
  get_repo_desc = do
    authenticate_session server session request
    id ← get_required server request repo_id
    r ← get_repo id
    pure (repo_desc r.id)

  -- getFlagDesc
  unfoldable pub get_flag_desc : Action Response
  unfolding authenticate_session get_required get_flag authorize_handler_action
  get_flag_desc = do
    token ← authenticate_session server session request
    id ← get_required server request flag_id
    f ← get_flag id
    authorize_handler_action server (some token) read_mask id
    pure (flag_desc f.id)

  -- getFlagImage
  unfoldable pub get_flag_image : Action Response
  unfolding authenticate_session get_required get_flag authorize_handler_action
  get_flag_image = do
    token ← authenticate_session server session request
    id ← get_required server request flag_id
    f ← get_flag id
    authorize_handler_action server (some token) read_mask id
    pure (file_response f.success_image_path)

  -- getRealmByName
  unfoldable pub get_realm_by_name : Action Response
  unfolding authenticate_session get_required get_realm_obj_id_by_realm_name
      authorize_handler_action get_realm
  get_realm_by_name = do
    token ← authenticate_session server session request
    name ← get_required server request realm_name
    id ← get_realm_obj_id_by_realm_name name
    guard (if id == 0 then false else true) bad_request
    authorize_handler_action server (some token) read_mask id
    r ← get_realm id
    pure (realm_desc r.id)

  -- getMyGroups, which does not look whether the user is nil.
  unfoldable pub get_my_groups : Action Response
  unfolding authenticate_session db_get_user_by_user_id describe_each describe_group
  get_my_groups = do
    token ← authenticate_session server session request
    found ← db_get_user_by_user_id token.authenticated_userid
    u ← or_crash found
    ids ← describe_each describe_group u.group_ids
    pure (group_descs ids)
