-- ===== src/Store/Objects.antt =====
-- The persistent object types of src/safeharbor/server/InMemory.go. A Go struct that embeds another
-- is a record that opens the embedded one.
use Prim.Native.Nat.{ℕ}
use safe_harbor_server.Base.{Bool, List, Option, none, some}

-- A string that the program only compares. Strings are numbered injectively: the empty string is 0,
-- the decimal text of n > 0 is 2 * n, and every other string has an odd number.
abbrev pub Text : Type 0
Text = ℕ

-- A pointer to a persistent object is the object's own Id, which no two structs share in the
-- in-memory mode; 0 is nil.
abbrev pub Ptr : Type 0
Ptr = ℕ

-- InMemParty
pub record Party : Type 0 where
  pub id : Text
  pub is_active : Bool
  pub name : Text
  pub creation_time : ℕ
  pub realm_id : Text
  pub acl_entry_ids : List Text

-- InMemGroup
pub record Group : Type 0 where
  pub party : Party
  pub open party use *
  pub description : Text
  pub user_obj_ids : List Text

-- InMemUser
pub record User : Type 0 where
  pub party : Party
  pub open party use *
  pub user_id : Text
  pub default_repo_id : Text
  pub email_address : Text
  pub email_is_verified : Bool
  pub password_hash : List ℕ
  pub group_ids : List Text
  pub most_recent_login_attempts : List ℕ
  pub event_ids : List Text

-- InMemACLEntry
pub record AclEntry : Type 0 where
  pub id : Text
  pub resource_id : Text
  pub party_id : Text
  pub permission_mask : List Bool

-- InMemResource
pub record Resource : Type 0 where
  pub id : Text
  pub acl_entry_ids : List Text
  pub name : Text
  pub description : Text
  pub parent_id : Text
  pub creation_time : ℕ

-- InMemRealm
pub record Realm : Type 0 where
  pub resource : Resource
  pub open resource use *
  pub admin_user_id : Text
  pub org_full_name : Text
  pub user_obj_ids : List Text
  pub group_ids : List Text
  pub repo_ids : List Text
  pub file_directory : Text

-- InMemRepo
pub record Repo : Type 0 where
  pub resource : Resource
  pub open resource use *
  pub default_user_ids : List Text
  pub dockerfile_ids : List Text
  pub docker_image_ids : List Text
  pub scan_config_ids : List Text
  pub flag_ids : List Text
  pub file_directory : Text

-- InMemDockerfile
pub record Dockerfile : Type 0 where
  pub resource : Resource
  pub open resource use *
  pub file_path : Text
  pub dockerfile_exec_event_ids : List Text

-- InMemDockerImage, with InMemImage.
pub record DockerImage : Type 0 where
  pub resource : Resource
  pub open resource use *
  pub version_ids : List Text
  pub scan_configs_to_use : List Text

-- InMemDockerImageVersion, with InMemImageVersion.
pub record DockerImageVersion : Type 0 where
  pub id : Text
  pub version : Text
  pub image_obj_id : Text
  pub image_creation_event_id : Text
  pub creation_date : ℕ
  pub scan_event_ids : List Text
  pub digest : List ℕ
  pub signature : List ℕ
  pub docker_build_output : Text

-- InMemScanConfig
pub record ScanConfig : Type 0 where
  pub resource : Resource
  pub open resource use *
  pub success_expression : Text
  pub provider_name : Text
  pub parameter_value_ids : List Text
  pub flag_id : Text
  pub scan_event_ids : List Text
  pub docker_image_ids_that_use : List Text

-- InMemScanParameterValue, with InMemParameterValue.
pub record ScanParameterValue : Type 0 where
  pub id : Text
  pub name : Text
  pub string_value : Text
  pub config_id : Text

-- InMemFlag
pub record Flag : Type 0 where
  pub resource : Resource
  pub open resource use *
  pub success_image_path : Text
  pub used_by_scan_config_ids : List Text

-- InMemScanEvent, with InMemEvent; a vulnerability of the result is its strings.
pub record ScanEvent : Type 0 where
  pub id : Text
  pub when : ℕ
  pub user_obj_id : Text
  pub scan_config_id : Text
  pub docker_image_version_id : Text
  pub provider_name : Text
  pub actual_parameter_value_ids : List Text
  pub score : Text
  pub vulnerabilities : List (List Text)

-- InMemDockerfileExecEvent, with InMemImageCreationEvent and InMemEvent.
pub record DockerfileExecEvent : Type 0 where
  pub id : Text
  pub when : ℕ
  pub user_obj_id : Text
  pub image_version_id : Text
  pub dockerfile_id : Text
  pub actual_parameter_value_ids : List Text
  pub dockerfile_content : Text

-- IdentityValidationInfo
pub record IdentityValidationInfo : Type 0 where
  pub id : Text
  pub user_id : Text
  pub creation_time : ℕ

pub data Obj : Type 0 where
  user : User → Obj
  group : Group → Obj
  realm : Realm → Obj
  repo : Repo → Obj
  dockerfile : Dockerfile → Obj
  docker_image : DockerImage → Obj
  docker_image_version : DockerImageVersion → Obj
  scan_config : ScanConfig → Obj
  scan_parameter_value : ScanParameterValue → Obj
  flag : Flag → Obj
  scan_event : ScanEvent → Obj
  dockerfile_exec_event : DockerfileExecEvent → Obj
  acl_entry : AclEntry → Obj
  identity_info : IdentityValidationInfo → Obj

abbrev pub as_user : Obj → Option User
as_user (user u) = some u
as_user _ = none

abbrev pub as_group : Obj → Option Group
as_group (group g) = some g
as_group _ = none

abbrev pub as_realm : Obj → Option Realm
as_realm (realm r) = some r
as_realm _ = none

abbrev pub as_repo : Obj → Option Repo
as_repo (repo r) = some r
as_repo _ = none

abbrev pub as_acl_entry : Obj → Option AclEntry
as_acl_entry (acl_entry e) = some e
as_acl_entry _ = none

-- The interface IdentityValidationInfo, which InMemUser satisfies too.
abbrev pub as_identity_info : Obj → Option IdentityValidationInfo
as_identity_info (identity_info i) = some i
as_identity_info (user u) =
    some (record { id = u.id; user_id = u.user_id; creation_time = u.creation_time })
as_identity_info _ = none

abbrev pub as_dockerfile : Obj → Option Dockerfile
as_dockerfile (dockerfile d) = some d
as_dockerfile _ = none

abbrev pub as_docker_image : Obj → Option DockerImage
as_docker_image (docker_image i) = some i
as_docker_image _ = none

abbrev pub as_scan_config : Obj → Option ScanConfig
as_scan_config (scan_config c) = some c
as_scan_config _ = none

abbrev pub as_flag : Obj → Option Flag
as_flag (flag f) = some f
as_flag _ = none

abbrev pub as_docker_image_version : Obj → Option DockerImageVersion
as_docker_image_version (docker_image_version v) = some v
as_docker_image_version _ = none

abbrev pub as_scan_parameter_value : Obj → Option ScanParameterValue
as_scan_parameter_value (scan_parameter_value v) = some v
as_scan_parameter_value _ = none

abbrev pub as_scan_event : Obj → Option ScanEvent
as_scan_event (scan_event e) = some e
as_scan_event _ = none

abbrev pub as_dockerfile_exec_event : Obj → Option DockerfileExecEvent
as_dockerfile_exec_event (dockerfile_exec_event e) = some e
as_dockerfile_exec_event _ = none

-- The interface `Event`.
abbrev pub as_event : Obj → Option Obj
as_event (scan_event e) = some (scan_event e)
as_event (dockerfile_exec_event e) = some (dockerfile_exec_event e)
as_event _ = none

-- The interface `Party`: users and groups.
abbrev pub as_party : Obj → Option Party
as_party (user u) = some u.party
as_party (group g) = some g.party
as_party _ = none

-- The interface `Resource`: realms, repos and what repos own.
abbrev pub as_resource : Obj → Option Resource
as_resource (realm r) = some r.resource
as_resource (repo r) = some r.resource
as_resource (dockerfile d) = some d.resource
as_resource (docker_image i) = some i.resource
as_resource (scan_config c) = some c.resource
as_resource (flag f) = some f.resource
as_resource _ = none

-- The embedded part of an object, replaced.
abbrev pub map_party : (Party → Party) → Obj → Obj
map_party f (user u) = user (record u { party = f u.party })
map_party f (group g) = group (record g { party = f g.party })
map_party f o = o

abbrev pub map_resource : (Resource → Resource) → Obj → Obj
map_resource f (realm r) = realm (record r { resource = f r.resource })
map_resource f (repo r) = repo (record r { resource = f r.resource })
map_resource f (dockerfile d) = dockerfile (record d { resource = f d.resource })
map_resource f (docker_image i) = docker_image (record i { resource = f i.resource })
map_resource f (scan_config c) = scan_config (record c { resource = f c.resource })
map_resource f (flag x) = flag (record x { resource = f x.resource })
map_resource f o = o

abbrev pub map_user : (User → User) → Obj → Obj
map_user f (user u) = user (f u)
map_user f o = o

abbrev pub map_group : (Group → Group) → Obj → Obj
map_group f (group g) = group (f g)
map_group f o = o

abbrev pub map_realm : (Realm → Realm) → Obj → Obj
map_realm f (realm r) = realm (f r)
map_realm f o = o

abbrev pub map_repo : (Repo → Repo) → Obj → Obj
map_repo f (repo r) = repo (f r)
map_repo f o = o

abbrev pub map_acl_entry : (AclEntry → AclEntry) → Obj → Obj
map_acl_entry f (acl_entry e) = acl_entry (f e)
map_acl_entry f o = o

abbrev pub map_dockerfile : (Dockerfile → Dockerfile) → Obj → Obj
map_dockerfile f (dockerfile x) = dockerfile (f x)
map_dockerfile f o = o

abbrev pub map_docker_image : (DockerImage → DockerImage) → Obj → Obj
map_docker_image f (docker_image x) = docker_image (f x)
map_docker_image f o = o

abbrev pub map_scan_config : (ScanConfig → ScanConfig) → Obj → Obj
map_scan_config f (scan_config x) = scan_config (f x)
map_scan_config f o = o

abbrev pub map_flag : (Flag → Flag) → Obj → Obj
map_flag f (flag x) = flag (f x)
map_flag f o = o

abbrev pub map_docker_image_version : (DockerImageVersion → DockerImageVersion) → Obj → Obj
map_docker_image_version f (docker_image_version x) = docker_image_version (f x)
map_docker_image_version f o = o

abbrev pub map_scan_parameter_value : (ScanParameterValue → ScanParameterValue) → Obj → Obj
map_scan_parameter_value f (scan_parameter_value x) = scan_parameter_value (f x)
map_scan_parameter_value f o = o

abbrev pub map_scan_event : (ScanEvent → ScanEvent) → Obj → Obj
map_scan_event f (scan_event x) = scan_event (f x)
map_scan_event f o = o

abbrev pub map_dockerfile_exec_event : (DockerfileExecEvent → DockerfileExecEvent) → Obj → Obj
map_dockerfile_exec_event f (dockerfile_exec_event x) = dockerfile_exec_event (f x)
map_dockerfile_exec_event f o = o
