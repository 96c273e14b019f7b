-- ===== src/Json/RoundTrip/Persistent.antt =====
-- Every persistent object whose asJSON is modelled comes back from its text.
use Prim.Native.String.{String}
use safe_harbor_server.Base.{
  ℕ, false, Option, none, some, List, [], ◌∷◌, ◌++◌, ◌≡◌, refl, arith, ap, ◌∙◌, contains,
}
use mathlib.Core.Path.{subst}
use safe_harbor_server.Auth.Sessions.{Bytes, bytes_eq}
use safe_harbor_server.Store.{
  Text, Obj, user, group, realm, repo, dockerfile, docker_image, docker_image_version, scan_config,
  scan_parameter_value, flag, scan_event, dockerfile_exec_event, acl_entry, identity_info,
}
use safe_harbor_server.Json.Tokens.{codes, quote}
use safe_harbor_server.Json.Simple.{Codec}
use safe_harbor_server.Json.Print.{
  Spelling, Shown, object_json, described, persist_obj_fields, party_fields, identity_fields,
  group_fields, acl_entry_fields,
}
use safe_harbor_server.Json.Reconstitute.{Method, object, applied, reconstitute_object}
use safe_harbor_server.Json.Methods.{method_by_name}
use safe_harbor_server.Json.RoundTrip.{backslash}
use safe_harbor_server.Json.RoundTrip.Arrays.{All}
use safe_harbor_server.Json.RoundTrip.Fields.{FieldFits}
use safe_harbor_server.Json.RoundTrip.Objects.{values}
use safe_harbor_server.Json.RoundTrip.Reconstituted.{reconstitute_object-object_json}
use safe_harbor_server.Json.RoundTrip.Types.{
  identity_back, acl_entry_back, group_back, realm_back, repo_back, user_back, dockerfile_back,
  docker_image_back, scan_config_back, flag_back,
}

abbrev of_some : {A : Type 0} → A → Option A → A
of_some a none = a
of_some a (some b) = b

module _ (spelling : Spelling) (number_spell : (t : Text) → spelling.number (spelling.spell t) ≡ t)
    (codec : Codec)
    (decode_plain : (s : Bytes) → contains backslash s ≡ false → codec.decode_string s ≡ s)
    (marshal_quoted : (t : ℕ) (shown : Bytes)
      → codec.marshal_time t ≡ some shown
      → (body : Bytes) × ((shown ≡ quote ∷ body ++ quote ∷ []) × (contains quote body ≡ false)))
    (unmarshal_marshal : (t : ℕ) (shown : Bytes)
      → codec.marshal_time t ≡ some shown
      → codec.unmarshal_time shown ≡ some t)
    (other : Bytes → Option (Method Obj)) where
  abbrev Restores : Obj → String × List (Bytes × Shown) → Type 0
  Restores o p =
      All (FieldFits codec) p.1
      → reconstitute_object codec (method_by_name spelling other) (object_json codec p.0 p.1)
        ≡ object (codes p.0) o

  described-Restores :
      (o : Obj) (p q : String × List (Bytes × Shown))
      → some p ≡ some q
      → Restores o p
      → Restores o q
  described-Restores o p q e = subst (Restores o) (ap (of_some p) e)

  json-Restores :
      (o : Obj) (type : String) (x : Bytes × Shown) (xs : List (Bytes × Shown)) (m : Method Obj)
      → contains quote (codes type) ≡ false
      → method_by_name spelling other (codes type) ≡ some m
      → applied codec (codes type) m (values (x ∷ xs)) ≡ object (codes type) o
      → Restores o (type, x ∷ xs)
  json-Restores o type x xs m plain found back h =
      reconstitute_object-object_json codec decode_plain marshal_quoted unmarshal_marshal
        (method_by_name spelling other) m type x xs plain found h
      ∙ back

  -- What asJSON writes for an IdentityValidationInfo, group, user, ACL entry, realm, repo,
  -- dockerfile, docker image, scan config or flag,
  -- ReconstituteObject reads back as that object, by the method for its type's name, where its
  -- strings have no quote and no backslash, its times have a JSON and its bytes are below 256. Assumed:
  -- strings are read as numbered, text without a backslash decodes to itself, and a time's JSON, where
  -- it has one, is in quotes, has none inside, and is read back.
  pub reconstitute_object-described :
      (o : Obj) (type : String) (fields : List (Bytes × Shown))
      → described spelling o ≡ some (type, fields)
      → All (FieldFits codec) fields
      → reconstitute_object codec (method_by_name spelling other) (object_json codec type fields)
        ≡ object (codes type) o
  unfolding described method_by_name identity_fields persist_obj_fields group_fields party_fields
      acl_entry_fields bytes_eq
  reconstitute_object-described (identity_info i) type fields e h =
      described-Restores (identity_info i) _ (type, fields) e
        (json-Restores (identity_info i) "IdentityValidationInfo" _ _ _ refl refl
          (identity_back spelling number_spell codec i))
        h
  reconstitute_object-described (group g) type fields e h =
      described-Restores (group g) _ (type, fields) e
        (json-Restores (group g) "Group" _ _ _ refl refl (group_back spelling number_spell codec g))
        h
  reconstitute_object-described (user u) type fields e h =
      described-Restores (user u) _ (type, fields) e
        (λ k.
          json-Restores (user u) "User" _ _ _ refl refl
            (user_back spelling number_spell codec u k.1.1.1.1.1.1.1.1.1.1.0.1) k)
        h
  reconstitute_object-described (acl_entry a) type fields e h =
      described-Restores (acl_entry a) _ (type, fields) e
        (json-Restores (acl_entry a) "ACLEntry" _ _ _ refl refl
          (acl_entry_back spelling number_spell codec a))
        h
  reconstitute_object-described (realm r) type fields e h =
      described-Restores (realm r) _ (type, fields) e
        (json-Restores (realm r) "Realm" _ _ _ refl refl (realm_back spelling number_spell codec r))
        h
  reconstitute_object-described (repo r) type fields e h =
      described-Restores (repo r) _ (type, fields) e
        (json-Restores (repo r) "Repo" _ _ _ refl refl (repo_back spelling number_spell codec r)) h
  reconstitute_object-described (dockerfile x) type fields e h =
      described-Restores (dockerfile x) _ (type, fields) e
        (json-Restores (dockerfile x) "Dockerfile" _ _ _ refl refl
          (dockerfile_back spelling number_spell codec x))
        h
  reconstitute_object-described (docker_image x) type fields e h =
      described-Restores (docker_image x) _ (type, fields) e
        (json-Restores (docker_image x) "DockerImage" _ _ _ refl refl
          (docker_image_back spelling number_spell codec x))
        h
  reconstitute_object-described (docker_image_version x) type fields e h = absurd (ground arith)
  reconstitute_object-described (scan_config x) type fields e h =
      described-Restores (scan_config x) _ (type, fields) e
        (json-Restores (scan_config x) "ScanConfig" _ _ _ refl refl
          (scan_config_back spelling number_spell codec x))
        h
  reconstitute_object-described (scan_parameter_value x) type fields e h = absurd (ground arith)
  reconstitute_object-described (flag x) type fields e h =
      described-Restores (flag x) _ (type, fields) e
        (json-Restores (flag x) "Flag" _ _ _ refl refl (flag_back spelling number_spell codec x)) h
  reconstitute_object-described (scan_event x) type fields e h = absurd (ground arith)
  reconstitute_object-described (dockerfile_exec_event x) type fields e h = absurd (ground arith)
