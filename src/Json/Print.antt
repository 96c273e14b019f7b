-- ===== src/Json/Print.antt =====
-- The asJSON methods of src/safeharbor/server/InMemory.go, with the FieldsAsJSON methods they call. The
-- fields of an object are a list here, and `joined` puts the separators that the source writes out.
use Prim.Native.String.{String}
use mathlib.Core.List.{map}
use safe_harbor_server.Base.{ℕ, Bool, Option, none, some, List, [], ◌∷◌, ◌++◌, if◌then◌else◌}
use safe_harbor_server.Auth.Sessions.{Bytes, decimal_text}
use safe_harbor_server.Store.{
  Text, Party, Group, User, AclEntry, Resource, Realm, Repo, IdentityValidationInfo, Dockerfile,
  DockerImage, ScanConfig, Flag, dockerfile, docker_image, scan_config, flag, Obj, identity_info,
  group, user, acl_entry, realm, repo,
}
use safe_harbor_server.Json.Tokens.{codes, quote}
use safe_harbor_server.Json.Simple.{Codec}

-- The bytes of the strings that `Text` numbers, and the number of a string.
pub record Spelling : Type 0 where
  pub spell : Text → Bytes
  pub number : Bytes → Text

-- The value of a field, by the way it is written.
pub data Shown : Type 0 where
  string : Bytes → Shown
  boolean : Bool → Shown
  moment : ℕ → Shown
  strings : List Bytes → Shown
  booleans : List Bool → Shown
  octets : List ℕ → Shown

-- Items with ", " before each but the first.
abbrev pub separated : List Bytes → Bytes
separated [] = []
separated (x ∷ xs) = codes ", " ++ x ++ separated xs

abbrev pub joined : List Bytes → Bytes
joined [] = []
joined (x ∷ xs) = x ++ separated xs

abbrev pub list_json : List Bytes → Bytes
list_json xs = b'[' ∷ joined xs ++ b']' ∷ []

abbrev pub string_json : Bytes → Bytes
string_json s = quote ∷ s ++ quote ∷ []

-- BoolToString of src/safeharbor/apitypes/APITypes.go.
unfoldable pub bool_to_string : Bool → Bytes
bool_to_string b = if b then codes "true" else codes "false"

module _ (codec : Codec) where
  -- FormatTimeAsJavascriptDate of the same file, after the word `time`: nothing where MarshalJSON
  -- fails.
  unfoldable pub time_json : ℕ → Bytes
  time_json t = codes "time " ++ (elim (codec.marshal_time t) [ none ↦ [] | some text ↦ text ])

  unfoldable pub shown_json : Shown → Bytes
  unfolding bool_to_string time_json
  shown_json (string s) = string_json s
  shown_json (boolean b) = bool_to_string b
  shown_json (moment t) = time_json t
  shown_json (strings ss) = list_json (map string_json ss)
  shown_json (booleans bs) = list_json (map bool_to_string bs)
  shown_json (octets ns) = list_json (map decimal_text ns)

  unfoldable pub field_json : Bytes × Shown → Bytes
  unfolding shown_json
  field_json (name, v) = quote ∷ name ++ quote ∷ codes ": " ++ shown_json v

  -- The type's name and the fields in braces.
  unfoldable pub object_json : String → List (Bytes × Shown) → Bytes
  unfolding field_json
  object_json type fields =
      quote ∷ codes type ++ quote ∷ codes ": {" ++ joined (map field_json fields) ++ b'}' ∷ []

module _ (spelling : Spelling) where
  abbrev pub named_string : String → Text → Bytes × Shown
  named_string name t = (codes name, string (spelling.spell t))

  abbrev pub named_ids : String → List Text → Bytes × Shown
  named_ids name ids = (codes name, strings (map spelling.spell ids))

  -- persistObjFieldsAsJSON
  unfoldable pub persist_obj_fields : Text → List (Bytes × Shown)
  persist_obj_fields id = named_string "Id" id ∷ []

  -- partyFieldsAsJSON
  unfoldable pub party_fields : Party → List (Bytes × Shown)
  unfolding persist_obj_fields
  party_fields p =
      persist_obj_fields p.id
      ++ (codes "IsActive", boolean p.is_active)
        ∷ named_string "Name" p.name
        ∷ (codes "CreationTime", moment p.creation_time)
        ∷ named_string "RealmId" p.realm_id
        ∷ named_ids "ACLEntryIds" p.acl_entry_ids
        ∷ []

  -- resourceFieldsAsJSON, with aclFieldsAsJSON.
  unfoldable pub resource_fields : Resource → List (Bytes × Shown)
  unfolding persist_obj_fields
  resource_fields r =
      persist_obj_fields r.id
      ++ named_ids "ACLEntryIds" r.acl_entry_ids
        ∷ named_string "Name" r.name
        ∷ named_string "Description" r.description
        ∷ named_string "ParentId" r.parent_id
        ∷ (codes "CreationTime", moment r.creation_time)
        ∷ []

  unfoldable pub identity_fields : IdentityValidationInfo → List (Bytes × Shown)
  unfolding persist_obj_fields
  identity_fields i =
      persist_obj_fields i.id
      ++ named_string "UserId" i.user_id ∷ (codes "CreationTime", moment i.creation_time) ∷ []

  unfoldable pub group_fields : Group → List (Bytes × Shown)
  unfolding party_fields
  group_fields g =
      party_fields g.party
      ++ named_string "Description" g.description ∷ named_ids "UserObjIds" g.user_obj_ids ∷ []

  -- A login attempt is a decimal text.
  unfoldable pub user_fields : User → List (Bytes × Shown)
  unfolding party_fields
  user_fields u =
      party_fields u.party
      ++ named_string "UserId" u.user_id
        ∷ named_string "DefaultRepoId" u.default_repo_id
        ∷ named_string "EmailAddress" u.email_address
        ∷ (codes "EmailIsVerified", boolean u.email_is_verified)
        ∷ (codes "PasswordHash", octets u.password_hash)
        ∷ named_ids "GroupIds" u.group_ids
        ∷ (codes "MostRecentLoginAttempts", strings (map decimal_text u.most_recent_login_attempts))
        ∷ named_ids "EventIds" u.event_ids
        ∷ []

  unfoldable pub acl_entry_fields : AclEntry → List (Bytes × Shown)
  unfolding persist_obj_fields
  acl_entry_fields e =
      persist_obj_fields e.id
      ++ named_string "ResourceId" e.resource_id
        ∷ named_string "PartyId" e.party_id
        ∷ (codes "PermissionMask", booleans e.permission_mask)
        ∷ []

  unfoldable pub realm_fields : Realm → List (Bytes × Shown)
  unfolding resource_fields
  realm_fields r =
      resource_fields r.resource
      ++ named_string "AdminUserId" r.admin_user_id
        ∷ named_string "OrgFullName" r.org_full_name
        ∷ named_ids "UserObjIds" r.user_obj_ids
        ∷ named_ids "GroupIds" r.group_ids
        ∷ named_ids "RepoIds" r.repo_ids
        ∷ named_string "FileDirectory" r.file_directory
        ∷ []

  unfoldable pub repo_fields : Repo → List (Bytes × Shown)
  unfolding resource_fields
  repo_fields r =
      resource_fields r.resource
      ++ named_ids "DefaultUserIds" r.default_user_ids
        ∷ named_ids "DockerFieldIds" r.dockerfile_ids
        ∷ named_ids "DockerImageIds" r.docker_image_ids
        ∷ named_ids "ScanConfigIds" r.scan_config_ids
        ∷ named_ids "FlagIds" r.flag_ids
        ∷ named_string "FileDirectory" r.file_directory
        ∷ []

  unfoldable pub dockerfile_fields : Dockerfile → List (Bytes × Shown)
  unfolding resource_fields
  dockerfile_fields d =
      resource_fields d.resource
      ++ named_string "FilePath" d.file_path
        ∷ named_ids "DockerfileExecEventIds" d.dockerfile_exec_event_ids
        ∷ []

  -- With imageFieldsAsJSON.
  unfoldable pub docker_image_fields : DockerImage → List (Bytes × Shown)
  unfolding resource_fields
  docker_image_fields i =
      resource_fields i.resource
      ++ named_ids "VersionIds" i.version_ids
        ∷ named_ids "ScanConfigsToUse" i.scan_configs_to_use
        ∷ []

  unfoldable pub scan_config_fields : ScanConfig → List (Bytes × Shown)
  unfolding resource_fields
  scan_config_fields c =
      resource_fields c.resource
      ++ named_string "SuccessExpression" c.success_expression
        ∷ named_string "ProviderName" c.provider_name
        ∷ named_ids "ParameterValueIds" c.parameter_value_ids
        ∷ named_string "FlagId" c.flag_id
        ∷ named_ids "ScanEventIds" c.scan_event_ids
        ∷ named_ids "DockerImageIdsThatUse" c.docker_image_ids_that_use
        ∷ []

  unfoldable pub flag_fields : Flag → List (Bytes × Shown)
  unfolding resource_fields
  flag_fields f =
      resource_fields f.resource
      ++ named_string "SuccessImagePath" f.success_image_path
        ∷ named_ids "UsedByScanConfigIds" f.used_by_scan_config_ids
        ∷ []

  -- The type's name and the fields that asJSON writes for an object; `none` is a type whose asJSON is
  -- not modelled.
  unfoldable pub described : Obj → Option (String × List (Bytes × Shown))
  unfolding identity_fields group_fields user_fields acl_entry_fields realm_fields repo_fields
      dockerfile_fields docker_image_fields scan_config_fields flag_fields
  described (identity_info i) = some ("IdentityValidationInfo", identity_fields i)
  described (group g) = some ("Group", group_fields g)
  described (user u) = some ("User", user_fields u)
  described (acl_entry e) = some ("ACLEntry", acl_entry_fields e)
  described (realm r) = some ("Realm", realm_fields r)
  described (repo r) = some ("Repo", repo_fields r)
  described (dockerfile d) = some ("Dockerfile", dockerfile_fields d)
  described (docker_image i) = some ("DockerImage", docker_image_fields i)
  described (scan_config c) = some ("ScanConfig", scan_config_fields c)
  described (flag f) = some ("Flag", flag_fields f)
  described _ = none
