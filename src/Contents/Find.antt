-- ===== src/Contents/Find.antt =====
-- The getters of what a repo owns and of the events, and the searches by name in a repo.
use safe_harbor_server.Base.{Option, none, some, List, [], ◌∷◌, ◌==◌, if◌then◌else◌}
use safe_harbor_server.Store.{
  Text, Ptr, Obj, Dockerfile, DockerImage, DockerImageVersion, ScanConfig, ScanParameterValue, Flag,
  ScanEvent, as_dockerfile, as_docker_image, as_docker_image_version, as_scan_config,
  as_scan_parameter_value, as_flag, as_scan_event, as_event, user_error, server_error, Action, pure,
  or_crash, ◌>>=◌, deref, get_as, get_object,
}
use safe_harbor_server.Realms.Lookup.{deref_repo}

unfoldable pub get_dockerfile : Text → Action Dockerfile
unfolding get_object
get_dockerfile = get_as as_dockerfile user_error

-- getDockerImage, and getImage: a DockerImage is the only kind of Image.
unfoldable pub get_docker_image : Text → Action DockerImage
unfolding get_object
get_docker_image = get_as as_docker_image user_error

-- getDockerImageVersion, and getImageVersion.
unfoldable pub get_docker_image_version : Text → Action DockerImageVersion
unfolding get_object
get_docker_image_version = get_as as_docker_image_version user_error

unfoldable pub get_scan_config : Text → Action ScanConfig
unfolding get_object
get_scan_config = get_as as_scan_config server_error

-- getParameterValue, and getScanParameterValue: the values of a scan config are the only ones that are
-- modelled.
unfoldable pub get_parameter_value : Text → Action ScanParameterValue
unfolding get_object
get_parameter_value = get_as as_scan_parameter_value server_error

unfoldable pub get_flag : Text → Action Flag
unfolding get_object
get_flag = get_as as_flag server_error

unfoldable pub get_event : Text → Action Obj
unfolding get_object
get_event = get_as as_event server_error

unfoldable pub get_scan_event : Text → Action ScanEvent
unfolding get_object
get_scan_event = get_as as_scan_event server_error

-- The struct behind a pointer as it is now.
unfoldable pub deref_as : {A : Type 0} → (Obj → Option A) → Ptr → Action A
unfolding deref
deref_as cast p = do o ← deref p; or_crash (cast o)

-- The loop of the four searches: the first object of that name, and none where there is none.
unfoldable pub first_named :
    {A : Type 0} → (Text → Action A) → (A → Text) → Text → List Text → Action (Option A)
first_named get name_of name [] = pure none
first_named get name_of name (id ∷ ids) = do
  let rest = first_named get name_of name ids
  a ← get id
  if name_of a == name then pure (some a) else rest

-- InMemRepo.getDockerfileByName
unfoldable pub get_dockerfile_by_name : Ptr → Text → Action (Option Dockerfile)
unfolding deref_repo first_named get_dockerfile
get_dockerfile_by_name r name = do
  x ← deref_repo r
  first_named get_dockerfile (λ d. d.name) name x.dockerfile_ids

-- InMemRepo.getDockerImageByName
unfoldable pub get_docker_image_by_name : Ptr → Text → Action (Option DockerImage)
unfolding deref_repo first_named get_docker_image
get_docker_image_by_name r name = do
  x ← deref_repo r
  first_named get_docker_image (λ i. i.name) name x.docker_image_ids

-- InMemRepo.getScanConfigByName
unfoldable pub get_scan_config_by_name : Ptr → Text → Action (Option ScanConfig)
unfolding deref_repo first_named get_scan_config
get_scan_config_by_name r name = do
  x ← deref_repo r
  first_named get_scan_config (λ c. c.name) name x.scan_config_ids

-- InMemRepo.getFlagByName
unfoldable pub get_flag_by_name : Ptr → Text → Action (Option Flag)
unfolding deref_repo first_named get_flag
get_flag_by_name r name = do x ← deref_repo r; first_named get_flag (λ f. f.name) name x.flag_ids
