-- ===== src/Handlers/Contents.antt =====
-- The handlers of src/safeharbor/server/Handlers.go that delete a repo or what a repo owns, and those
-- that link a scan config to an image.
use safe_harbor_server.Base.{Option, some}
use safe_harbor_server.Store.{
  Text, Action, pure, or_raise, ◌>>=◌, ◌>>◌, attempt, for_each, as_dockerfile,
  as_dockerfile_exec_event, server_error, get_repo, get_realm,
}
use safe_harbor_server.Acl.Access.{delete_all_access_to_resource}
use safe_harbor_server.Auth.Masks.{write_mask, delete_mask, execute_mask}
use safe_harbor_server.Auth.Sessions.{SessionToken}
use safe_harbor_server.Contents.Find.{
  deref_as, get_dockerfile, get_docker_image, get_docker_image_version, get_scan_config, get_flag,
  get_event, get_scan_event,
}
use safe_harbor_server.Contents.Link.{
  nullify_docker_image_version, nullify_dockerfile, nullify_image_version, config_add_docker_image,
  config_rem_docker_image,
}
use safe_harbor_server.Contents.Remove.{
  Removal, delete_scan_config, delete_dockerfile, delete_flag, delete_image_version,
  delete_docker_image, delete_repo,
}
use safe_harbor_server.Handlers.Request.{
  Server, Request, repo_id, scan_config_id, flag_id, image_id, dockerfile_id, image_version_id,
  docker_image_id, get_required, Response, result,
}
use safe_harbor_server.Handlers.Identity.{authenticate_session, authorize_handler_action}

-- One round of the loop of remDockerfile over the events, which goes on after an error.
unfoldable pub nullify_dockerfile_of : Text → Action (Unit {0})
unfolding get_event nullify_dockerfile
nullify_dockerfile_of id = do
  attempt (do
    o ← get_event id
    e ← or_raise (as_dockerfile_exec_event o) server_error
    nullify_dockerfile e.id)
  pure tt

-- One round of the loop of remImageVersion over the scan events, which goes on after an error.
unfoldable pub nullify_version_of : Text → Action (Unit {0})
unfolding get_scan_event nullify_docker_image_version
nullify_version_of id = do
  attempt (do e ← get_scan_event id; nullify_docker_image_version e.id)
  pure tt

-- remDockerfile
unfoldable pub rem_dockerfile : Server → Option SessionToken → Request → Action Response
unfolding authenticate_session get_required authorize_handler_action get_dockerfile
    delete_all_access_to_resource deref_as nullify_dockerfile_of get_repo delete_dockerfile
rem_dockerfile server session request = do
  token ← authenticate_session server session request
  id ← get_required server request dockerfile_id
  authorize_handler_action server (some token) delete_mask id
  d ← get_dockerfile id
  delete_all_access_to_resource server.utilities d.id
  x ← deref_as as_dockerfile d.id
  for_each x.dockerfile_exec_event_ids nullify_dockerfile_of
  get_repo x.parent_id
  delete_dockerfile server.utilities d.id
  pure (result 200)

-- remScanConfig
unfoldable pub rem_scan_config : Server → Option SessionToken → Request → Action Response
unfolding authenticate_session get_required authorize_handler_action get_scan_config get_repo
    delete_scan_config
rem_scan_config server session request = do
  token ← authenticate_session server session request
  id ← get_required server request scan_config_id
  authorize_handler_action server (some token) delete_mask id
  c ← get_scan_config id
  r ← get_repo c.parent_id
  delete_scan_config server.utilities r.id c.id
  pure (result 200)

-- useScanConfigForImage
unfoldable pub use_scan_config_for_image : Server → Option SessionToken → Request → Action Response
unfolding authenticate_session get_required authorize_handler_action get_scan_config
    config_add_docker_image
use_scan_config_for_image server session request = do
  token ← authenticate_session server session request
  image ← get_required server request docker_image_id
  config ← get_required server request scan_config_id
  authorize_handler_action server (some token) write_mask image
  authorize_handler_action server (some token) execute_mask config
  c ← get_scan_config config
  config_add_docker_image server.utilities c.id image
  pure (result 200)

-- stopUsingScanConfigForImage
unfoldable pub stop_using_scan_config_for_image :
    Server → Option SessionToken → Request → Action Response
unfolding authenticate_session get_required authorize_handler_action get_scan_config
    config_rem_docker_image
stop_using_scan_config_for_image server session request = do
  token ← authenticate_session server session request
  image ← get_required server request docker_image_id
  config ← get_required server request scan_config_id
  authorize_handler_action server (some token) write_mask image
  c ← get_scan_config config
  config_rem_docker_image server.utilities c.id image
  pure (result 200)

module _ (outside : Removal) where
  -- deleteRepo
  unfoldable pub delete_requested_repo : Server → Option SessionToken → Request → Action Response
  unfolding authenticate_session get_required authorize_handler_action get_repo get_realm
      delete_repo
  delete_requested_repo server session request = do
    token ← authenticate_session server session request
    id ← get_required server request repo_id
    authorize_handler_action server (some token) delete_mask id
    r ← get_repo id
    realm ← get_realm r.parent_id
    delete_repo server.utilities outside realm.id r.id
    pure (result 200)

  -- remFlag
  unfoldable pub rem_flag : Server → Option SessionToken → Request → Action Response
  unfolding authenticate_session get_required authorize_handler_action get_flag get_repo delete_flag
  rem_flag server session request = do
    token ← authenticate_session server session request
    id ← get_required server request flag_id
    authorize_handler_action server (some token) delete_mask id
    f ← get_flag id
    r ← get_repo f.parent_id
    delete_flag server.utilities outside r.id f.id
    pure (result 200)

  -- remDockerImage
  unfoldable pub rem_docker_image : Server → Option SessionToken → Request → Action Response
  unfolding authenticate_session get_required authorize_handler_action get_docker_image get_repo
      delete_docker_image
  rem_docker_image server session request = do
    token ← authenticate_session server session request
    id ← get_required server request image_id
    authorize_handler_action server (some token) delete_mask id
    image ← get_docker_image id
    r ← get_repo image.parent_id
    delete_docker_image server.utilities outside r.id image.id
    pure (result 200)

  -- remImageVersion
  unfoldable pub rem_image_version : Server → Option SessionToken → Request → Action Response
  unfolding authenticate_session get_required get_docker_image_version authorize_handler_action
      get_event nullify_image_version nullify_version_of get_docker_image delete_image_version
  rem_image_version server session request = do
    token ← authenticate_session server session request
    id ← get_required server request image_version_id
    v ← get_docker_image_version id
    authorize_handler_action server (some token) delete_mask v.image_obj_id
    o ← get_event v.image_creation_event_id
    e ← or_raise (as_dockerfile_exec_event o) server_error
    nullify_image_version e.id
    for_each v.scan_event_ids nullify_version_of
    image ← get_docker_image v.image_obj_id
    delete_image_version server.utilities outside image.id v
    pure (result 200)
