-- ===== src/Contents/Link.antt =====
-- The references between what a repo owns: a scan config and its flag, a scan config and the images
-- that use it, and events.
use safe_harbor_server.Base.{[], ◌∷◌, ◌++◌, ◌==◌, if◌then◌else◌}
use safe_harbor_server.Store.{
  Text, Ptr, as_scan_config, map_dockerfile, map_docker_image, map_docker_image_version,
  map_scan_config, map_flag, map_scan_event, map_dockerfile_exec_event, Action, pure, ◌>>=◌, ◌>>◌,
  mutate, attempt, update_object,
}
use safe_harbor_server.Utilities.{Utilities}
use safe_harbor_server.Contents.Find.{deref_as, get_docker_image, get_flag}

-- InMemDockerfile.addEventId
unfoldable pub add_exec_event_id : Ptr → Text → Action (Unit {0})
unfolding update_object
add_exec_event_id d event = do
  mutate d (
      map_dockerfile
        (λ x. record x { dockerfile_exec_event_ids = x.dockerfile_exec_event_ids ++ event ∷ [] }))
  update_object d

-- InMemDockerImage.addVersionId
unfoldable pub add_version_id : Ptr → Text → Action (Unit {0})
unfolding update_object
add_version_id image version = do
  mutate image (map_docker_image (λ x. record x { version_ids = x.version_ids ++ version ∷ [] }))
  update_object image

-- InMemScanConfig.addScanEventId; the error of the write is dropped.
unfoldable pub config_add_scan_event_id : Ptr → Text → Action (Unit {0})
unfolding update_object
config_add_scan_event_id config event = do
  mutate config
      (map_scan_config (λ x. record x { scan_event_ids = x.scan_event_ids ++ event ∷ [] }))
  attempt (update_object config)
  pure tt

-- InMemDockerImageVersion.addScanEventId
unfoldable pub version_add_scan_event_id : Ptr → Text → Action (Unit {0})
unfolding update_object
version_add_scan_event_id version event = do
  mutate version
      (map_docker_image_version (λ x. record x { scan_event_ids = x.scan_event_ids ++ event ∷ [] }))
  update_object version

-- InMemScanEvent.nullifyScanConfig
unfoldable pub nullify_scan_config : Ptr → Action (Unit {0})
unfolding update_object
nullify_scan_config event = do
  mutate event (map_scan_event (λ x. record x { scan_config_id = 0 }))
  update_object event

-- InMemScanEvent.nullifyDockerImageVersion
unfoldable pub nullify_docker_image_version : Ptr → Action (Unit {0})
unfolding update_object
nullify_docker_image_version event = do
  mutate event (map_scan_event (λ x. record x { docker_image_version_id = 0 }))
  update_object event

-- InMemDockerfileExecEvent.nullifyDockerfile
unfoldable pub nullify_dockerfile : Ptr → Action (Unit {0})
unfolding update_object
nullify_dockerfile event = do
  mutate event (map_dockerfile_exec_event (λ x. record x { dockerfile_id = 0 }))
  update_object event

-- InMemImageCreationEvent.nullifyImageVersion
unfoldable pub nullify_image_version : Ptr → Action (Unit {0})
nullify_image_version event =
    mutate event (map_dockerfile_exec_event (λ x. record x { image_version_id = 0 }))

module _ (utilities : Utilities) where
  -- InMemFlag.addScanConfigRef
  unfoldable pub add_scan_config_ref : Ptr → Text → Action (Unit {0})
  unfolding update_object
  add_scan_config_ref f config = do
    mutate f (
        map_flag (λ x. record x {
          used_by_scan_config_ids = utilities.add_uniquely config x.used_by_scan_config_ids;
        }))
    update_object f

  -- InMemFlag.removeScanConfigRef
  unfoldable pub remove_scan_config_ref : Ptr → Text → Action (Unit {0})
  unfolding update_object
  remove_scan_config_ref f config = do
    mutate f (
        map_flag (λ x. record x {
          used_by_scan_config_ids = utilities.remove_from config x.used_by_scan_config_ids;
        }))
    update_object f

  -- The old flag of setFlagId, which loses its reference; errors of that write are dropped.
  leave_flag : Text → Ptr → Action (Unit {0})
  unfolding get_flag remove_scan_config_ref
  leave_flag old config =
      if old == 0
      then pure tt
      else do f ← get_flag old; attempt (remove_scan_config_ref f.id config); pure tt

  -- InMemScanConfig.setFlagId
  unfoldable pub set_flag_id : Ptr → Text → Action (Unit {0})
  unfolding deref_as get_flag leave_flag add_scan_config_ref update_object
  set_flag_id config new_flag_id = do
    x ← deref_as as_scan_config config
    if x.flag_id == new_flag_id then pure tt else do
      f ← get_flag new_flag_id
      leave_flag x.flag_id config
      mutate config (map_scan_config (λ x. record x { flag_id = new_flag_id }))
      add_scan_config_ref f.id config
      update_object config

  -- InMemScanConfig.addDockerImage, with addScanConfigIdToList.
  unfoldable pub config_add_docker_image : Ptr → Text → Action (Unit {0})
  unfolding get_docker_image update_object
  config_add_docker_image config image_id = do
    mutate config (
        map_scan_config (λ x. record x {
          docker_image_ids_that_use = utilities.add_uniquely image_id x.docker_image_ids_that_use;
        }))
    image ← get_docker_image image_id
    mutate image.id (
        map_docker_image (λ x. record x {
          scan_configs_to_use = utilities.add_uniquely config x.scan_configs_to_use;
        }))
    update_object image.id
    update_object config

  -- InMemScanConfig.remDockerImage, with remScanConfigIdFromList.
  unfoldable pub config_rem_docker_image : Ptr → Text → Action (Unit {0})
  unfolding get_docker_image update_object
  config_rem_docker_image config image_id = do
    mutate config (
        map_scan_config (λ x. record x {
          docker_image_ids_that_use = utilities.remove_from image_id x.docker_image_ids_that_use;
        }))
    image ← get_docker_image image_id
    mutate image.id (
        map_docker_image (λ x. record x {
          scan_configs_to_use = utilities.remove_from config x.scan_configs_to_use;
        }))
    update_object image.id
    update_object config
