-- ===== src/Contents/Create.antt =====
-- InMemClient and InMemRepo: dockerfiles, images, image versions, scan configs and flags are created
-- and listed in their repo.
use safe_harbor_server.Base.{ℕ, zero, suc, ◌+◌, List, [], ◌∷◌, ◌++◌, ◌==◌, if◌then◌else◌}
use safe_harbor_server.Store.{
  Text, Ptr, as_dockerfile, as_docker_image, as_scan_config, as_flag, dockerfile, docker_image,
  docker_image_version, scan_config, flag, map_repo, user_error, Action, pure, raise, gets, ◌>>=◌,
  ◌>>◌, guard, mutate, attempt, new_object, update_object, get_repo,
}
use safe_harbor_server.Utilities.{Utilities}
use safe_harbor_server.Realms.Create.{Outside, new_resource, is_none, name_conforms}
use safe_harbor_server.Contents.Find.{
  deref_as, get_docker_image, get_flag, get_dockerfile_by_name, get_docker_image_by_name,
  get_scan_config_by_name, get_flag_by_name,
}
use safe_harbor_server.Contents.Link.{add_version_id, add_scan_config_ref}

-- InMemRepo.addDockerfile
unfoldable pub add_dockerfile : Ptr → Ptr → Action (Unit {0})
unfolding deref_as get_dockerfile_by_name update_object
add_dockerfile r p = do
  x ← deref_as as_dockerfile p
  namesake ← get_dockerfile_by_name r x.name
  guard (is_none namesake) user_error
  mutate r (map_repo (λ y. record y { dockerfile_ids = y.dockerfile_ids ++ p ∷ [] }))
  update_object r

-- InMemRepo.addDockerImage
unfoldable pub add_docker_image : Ptr → Ptr → Action (Unit {0})
unfolding deref_as get_docker_image_by_name update_object
add_docker_image r p = do
  x ← deref_as as_docker_image p
  namesake ← get_docker_image_by_name r x.name
  guard (is_none namesake) user_error
  mutate r (map_repo (λ y. record y { docker_image_ids = y.docker_image_ids ++ p ∷ [] }))
  update_object r

-- InMemRepo.addScanConfig
unfoldable pub add_scan_config : Ptr → Ptr → Action (Unit {0})
unfolding deref_as get_scan_config_by_name update_object
add_scan_config r p = do
  x ← deref_as as_scan_config p
  namesake ← get_scan_config_by_name r x.name
  guard (is_none namesake) user_error
  mutate r (map_repo (λ y. record y { scan_config_ids = y.scan_config_ids ++ p ∷ [] }))
  update_object r

-- InMemRepo.addFlag
unfoldable pub add_flag : Ptr → Ptr → Action (Unit {0})
unfolding deref_as get_flag_by_name update_object
add_flag r p = do
  x ← deref_as as_flag p
  namesake ← get_flag_by_name r x.name
  guard (is_none namesake) user_error
  mutate r (map_repo (λ y. record y { flag_ids = y.flag_ids ++ p ∷ [] }))
  update_object r

-- InMemClient.NewInMemDockerfile
unfoldable pub new_dockerfile : Text → Text → Text → Text → Action Ptr
unfolding new_object new_resource update_object
new_dockerfile repo_id name desc filepath = do
  now ← gets (λ s. s.now)
  p ← new_object (λ id. dockerfile (record {
    resource = new_resource name desc repo_id now id;
    file_path = filepath;
    dockerfile_exec_event_ids = [];
  }))
  update_object p
  pure p

-- InMemClient.dbCreateDockerfile
unfoldable pub db_create_dockerfile : Text → Text → Text → Text → Action Ptr
unfolding new_dockerfile get_repo add_dockerfile
db_create_dockerfile repo_id name desc filepath = do
  p ← new_dockerfile repo_id name desc filepath
  r ← get_repo repo_id
  add_dockerfile r.id p
  pure p

-- InMemClient.NewInMemDockerImage, with NewInMemImage.
unfoldable pub new_docker_image : Text → Text → Text → Action Ptr
unfolding new_object new_resource update_object
new_docker_image name desc repo_id = do
  now ← gets (λ s. s.now)
  p ← new_object (λ id. docker_image (record {
    resource = new_resource name desc repo_id now id;
    version_ids = [];
    scan_configs_to_use = [];
  }))
  update_object p
  pure p

-- InMemClient.dbCreateDockerImage
unfoldable pub db_create_docker_image : Text → Text → Text → Action Ptr
unfolding get_repo new_docker_image add_docker_image
db_create_docker_image repo_id image_name desc = do
  r ← get_repo repo_id
  p ← new_docker_image image_name desc repo_id
  add_docker_image r.id p
  pure p

-- InMemClient.NewInMemDockerImageVersion, with NewInMemImageVersion.
unfoldable pub new_docker_image_version : Text → Text → ℕ → Text → List ℕ → List ℕ → Action Ptr
unfolding new_object update_object
new_docker_image_version version image_obj_id creation_date build_output digest signature = do
  p ← new_object (λ id. docker_image_version (record {
    id = id;
    version = version;
    image_obj_id = image_obj_id;
    image_creation_event_id = 0;
    creation_date = creation_date;
    scan_event_ids = [];
    digest = digest;
    signature = signature;
    docker_build_output = build_output;
  }))
  update_object p
  pure p

-- InMemClient.dbCreateDockerImageVersion
unfoldable pub db_create_docker_image_version :
    Text → Text → ℕ → Text → List ℕ → List ℕ → Action Ptr
unfolding get_docker_image new_docker_image_version add_version_id
db_create_docker_image_version version image_obj_id creation_date build_output digest signature = do
  image ← get_docker_image image_obj_id
  p ← new_docker_image_version version image_obj_id creation_date build_output digest signature
  add_version_id image.id p
  pure p

-- InMemClient.NewInMemScanConfig
unfoldable pub new_scan_config : Text → Text → Text → Text → List Text → Text → Text → Action Ptr
unfolding new_object new_resource update_object
new_scan_config name desc repo_id provider_name param_value_ids success_expr flag_id = do
  now ← gets (λ s. s.now)
  p ← new_object (λ id. scan_config (record {
    resource = new_resource name desc repo_id now id;
    success_expression = success_expr;
    provider_name = provider_name;
    parameter_value_ids = param_value_ids;
    flag_id = flag_id;
    scan_event_ids = [];
    docker_image_ids_that_use = [];
  }))
  update_object p
  pure p

-- InMemClient.NewInMemFlag
unfoldable pub new_flag : Text → Text → Text → Text → Action Ptr
unfolding new_object new_resource update_object
new_flag name desc repo_id success_image_path = do
  now ← gets (λ s. s.now)
  p ← new_object (λ id. flag (record {
    resource = new_resource name desc repo_id now id;
    success_image_path = success_image_path;
    used_by_scan_config_ids = [];
  }))
  update_object p
  pure p

-- InMemClient.dbCreateFlag
unfoldable pub db_create_flag : Text → Text → Text → Text → Action Ptr
unfolding new_flag get_repo add_flag update_object
db_create_flag name desc repo_id success_image_path = do
  p ← new_flag name desc repo_id success_image_path
  r ← get_repo repo_id
  add_flag r.id p
  update_object p
  pure p

module _ (utilities : Utilities) where
  -- The flag of a new scan config, where one is named.
  refer_to_flag : Text → Ptr → Action (Unit {0})
  unfolding get_flag add_scan_config_ref
  refer_to_flag flag_id p =
      if flag_id == 0
      then pure tt
      else do f ← get_flag flag_id; add_scan_config_ref utilities f.id p

  -- InMemClient.dbCreateScanConfig; the error of addScanConfig is dropped.
  unfoldable pub db_create_scan_config :
      Text → Text → Text → Text → List Text → Text → Text → Action Ptr
  unfolding get_repo get_scan_config_by_name new_scan_config refer_to_flag update_object
      add_scan_config
  db_create_scan_config name desc repo_id provider_name param_value_ids success_expr flag_id = do
    r ← get_repo repo_id
    namesake ← get_scan_config_by_name r.id name
    guard (is_none namesake) user_error
    p ← new_scan_config name desc repo_id provider_name param_value_ids success_expr flag_id
    refer_to_flag flag_id p
    update_object p
    attempt (add_scan_config r.id p)
    pure p

module _ (outside : Outside) where
  -- The loop of createUniqueDockerImageName, with the number of tries that are left.
  unused_image_name : ℕ → Ptr → Text → ℕ → Action Text
  unfolding get_docker_image_by_name
  unused_image_name zero r prefix i = raise user_error
  unused_image_name (suc tries) r prefix i = do
    let rest = unused_image_name tries r prefix (i + 1)
    found ← get_docker_image_by_name r (outside.numbered prefix i)
    if is_none found then pure (outside.numbered prefix i) else rest

  -- InMemRepo.createUniqueDockerImageName: the numbers 1 to 1000.
  unfoldable pub create_unique_docker_image_name : Ptr → Text → Action Text
  unfolding name_conforms unused_image_name
  create_unique_docker_image_name r prefix = do
    guard (name_conforms outside prefix) user_error
    unused_image_name 1000 r prefix 1
