-- ===== src/Contents/Remove.antt =====
-- InMemRepo and InMemRealm: what a repo owns is deleted, and a repo with all of it.
use safe_harbor_server.Base.{Bool, List, [], ◌∷◌, ◌==◌, if◌then◌else◌}
use safe_harbor_server.Store.{
  Text, Ptr, DockerImageVersion, ScanConfig, as_dockerfile, as_docker_image,
  as_dockerfile_exec_event, as_scan_config, as_flag, map_repo, map_realm, map_docker_image,
  user_error, server_error, Action, pure, raise, ◌>>=◌, ◌>>◌, guard, for_each, mutate, attempt,
  or_raise, update_object, delete_object, get_user, get_repo, get_realm,
}
use safe_harbor_server.Utilities.{Utilities}
use safe_harbor_server.Acl.Access.{delete_all_access_to_resource}
use safe_harbor_server.Parties.Users.{unset_default_repo}
use safe_harbor_server.Realms.Lookup.{deref_repo}
use safe_harbor_server.Contents.Find.{
  deref_as, get_dockerfile, get_docker_image, get_docker_image_version, get_scan_config,
  get_parameter_value, get_flag, get_event, get_scan_event,
}
use safe_harbor_server.Contents.Link.{
  nullify_scan_config, nullify_docker_image_version, nullify_dockerfile, nullify_image_version,
  remove_scan_config_ref, config_rem_docker_image,
}
use safe_harbor_server.Contents.Parameters.{
  delete_parameter_value, config_delete_all_parameter_values,
}

-- What is outside the server: whether os.Remove of a file succeeds, and whether
-- DockerServices.RemoveDockerImage does, for the names of realm, repo, image and version.
pub record Removal : Type 0 where
  pub remove_file : Text → Bool
  pub remove_docker_image : Text → Text → Text → Text → Bool

-- One round of the loop of deleteScanConfig over the config's events.
forget_config : Text → Action (Unit {0})
unfolding get_scan_event nullify_scan_config
forget_config id = do e ← get_scan_event id; nullify_scan_config e.id

-- One round of the loop of deleteDockerfile over the events; the error of nullifyDockerfile is dropped.
unfoldable pub forget_dockerfile : Text → Action (Unit {0})
unfolding get_event nullify_dockerfile
forget_dockerfile id = do
  o ← get_event id
  e ← or_raise (as_dockerfile_exec_event o) server_error
  attempt (nullify_dockerfile e.id)
  pure tt

-- One round of the loop of deleteImageVersion over the scan events.
forget_version : Text → Action (Unit {0})
unfolding get_scan_event nullify_docker_image_version
forget_version id = do e ← get_scan_event id; nullify_docker_image_version e.id

module _ (utilities : Utilities) where
  -- InMemScanConfig.deleteAllChildResources
  unfoldable pub config_delete_all_child_resources : Ptr → Action (Unit {0})
  unfolding deref_as get_parameter_value delete_parameter_value update_object
  config_delete_all_child_resources config = do
    x ← deref_as as_scan_config config
    for_each x.parameter_value_ids
        (λ id. do pv ← get_parameter_value id; delete_parameter_value utilities config pv.name)
    update_object config

  -- The flag of a scan config that is deleted.
  leave_flag_of : ScanConfig → Action (Unit {0})
  unfolding get_flag remove_scan_config_ref
  leave_flag_of x =
      if x.flag_id == 0
      then pure tt
      else do f ← get_flag x.flag_id; remove_scan_config_ref utilities f.id x.id

  -- InMemRepo.deleteScanConfig
  unfoldable pub delete_scan_config : Ptr → Ptr → Action (Unit {0})
  unfolding deref_as forget_config config_delete_all_parameter_values leave_flag_of
      config_rem_docker_image delete_all_access_to_resource delete_object update_object
  delete_scan_config r config = do
    x ← deref_as as_scan_config config
    for_each x.scan_event_ids forget_config
    attempt (config_delete_all_parameter_values config)
    leave_flag_of x
    for_each x.docker_image_ids_that_use (config_rem_docker_image utilities config)
    mutate r (
        map_repo
          (λ y. record y { scan_config_ids = utilities.remove_from config y.scan_config_ids }))
    delete_all_access_to_resource utilities config
    delete_object config
    update_object r

  -- InMemRepo.deleteDockerfile: the repo's list and the object itself stay.
  unfoldable pub delete_dockerfile : Ptr → Action (Unit {0})
  unfolding deref_as forget_dockerfile update_object delete_all_access_to_resource
  delete_dockerfile d = do
    x ← deref_as as_dockerfile d
    for_each x.dockerfile_exec_event_ids forget_dockerfile
    update_object d
    delete_all_access_to_resource utilities d

  -- InMemRepo.remAllDefaultUsers; the error of unsetDefaultRepo is dropped.
  unfoldable pub rem_all_default_users : Ptr → Action (Unit {0})
  unfolding deref_repo get_user unset_default_repo
  rem_all_default_users r = do
    x ← deref_repo r
    for_each x.default_user_ids
        (λ id. do u ← get_user id; attempt (unset_default_repo utilities u.id); pure tt)

  module _ (outside : Removal) where
    -- The refusal of deleteFlag, which names the first scan config that uses the flag.
    unfoldable pub refuse_if_used : List Text → Action (Unit {0})
    unfolding get_scan_config
    refuse_if_used [] = pure tt
    refuse_if_used (id ∷ ids) = do c ← get_scan_config id; raise user_error

    -- InMemRepo.deleteFlag
    unfoldable pub delete_flag : Ptr → Ptr → Action (Unit {0})
    unfolding deref_as refuse_if_used delete_all_access_to_resource delete_object update_object
    delete_flag r f = do
      x ← deref_as as_flag f
      refuse_if_used x.used_by_scan_config_ids
      guard (outside.remove_file x.success_image_path) server_error
      mutate r (map_repo (λ y. record y { flag_ids = utilities.remove_from f y.flag_ids }))
      delete_all_access_to_resource utilities f
      delete_object f
      update_object r

    -- InMemImageVersion.getFullNameParts, and DockerServices.RemoveDockerImage on these.
    remove_from_docker : DockerImageVersion → Action (Unit {0})
    unfolding get_docker_image get_repo get_realm
    remove_from_docker v = do
      image ← get_docker_image v.image_obj_id
      r ← get_repo image.parent_id
      realm ← get_realm r.parent_id
      guard (outside.remove_docker_image realm.name r.name image.name v.version) server_error

    -- InMemDockerImage.deleteImageVersion; the errors of the last two writes are dropped.
    unfoldable pub delete_image_version : Ptr → DockerImageVersion → Action (Unit {0})
    unfolding get_event nullify_image_version update_object forget_version remove_from_docker
        delete_object
    delete_image_version image v = do
      o ← get_event v.image_creation_event_id
      e ← or_raise (as_dockerfile_exec_event o) server_error
      nullify_image_version e.id
      update_object e.id
      for_each v.scan_event_ids forget_version
      remove_from_docker v
      mutate image (
          map_docker_image
            (λ x. record x { version_ids = utilities.remove_from v.id x.version_ids }))
      attempt (delete_object v.id)
      attempt (update_object image)
      pure tt

    -- InMemRepo.deleteDockerImage
    unfoldable pub delete_docker_image : Ptr → Ptr → Action (Unit {0})
    unfolding deref_as get_docker_image_version delete_image_version delete_all_access_to_resource
        get_scan_config config_rem_docker_image delete_object update_object
    delete_docker_image r image = do
      x ← deref_as as_docker_image image
      for_each x.version_ids
          (λ id. do v ← get_docker_image_version id; delete_image_version image v)
      delete_all_access_to_resource utilities image
      y ← deref_as as_docker_image image
      for_each y.scan_configs_to_use
          (λ id. do c ← get_scan_config id; config_rem_docker_image utilities c.id image)
      mutate r (
          map_repo
            (λ z. record z { docker_image_ids = utilities.remove_from image z.docker_image_ids }))
      delete_object image
      update_object r

    -- InMemRepo.deleteAllChildResources
    unfoldable pub delete_all_child_resources : Ptr → Action (Unit {0})
    unfolding deref_repo get_dockerfile delete_dockerfile get_scan_config delete_scan_config
        get_flag delete_flag get_docker_image delete_docker_image update_object
    delete_all_child_resources r = do
      x ← deref_repo r
      for_each x.dockerfile_ids (λ id. do d ← get_dockerfile id; delete_dockerfile d.id)
      y ← deref_repo r
      for_each y.scan_config_ids (λ id. do c ← get_scan_config id; delete_scan_config r c.id)
      z ← deref_repo r
      for_each z.flag_ids (λ id. do f ← get_flag id; delete_flag r f.id)
      w ← deref_repo r
      for_each w.docker_image_ids (λ id. do i ← get_docker_image id; delete_docker_image r i.id)
      update_object r

    -- InMemRealm.deleteRepo
    unfoldable pub delete_repo : Ptr → Ptr → Action (Unit {0})
    unfolding update_object delete_all_child_resources rem_all_default_users
        delete_all_access_to_resource
    delete_repo realm r = do
      mutate realm (map_realm (λ x. record x { repo_ids = utilities.remove_from r x.repo_ids }))
      update_object realm
      delete_all_child_resources r
      rem_all_default_users r
      delete_all_access_to_resource utilities r
