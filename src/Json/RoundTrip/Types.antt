-- ===== src/Json/RoundTrip/Types.antt =====
-- The Reconstitute method of each type on the values that asJSON writes.
use safe_harbor_server.Base.{ℕ, List, [], ◌∷◌, ◌≡◌, refl, arith, suc, ◌<◌}
use mathlib.Core.List.{map}
use safe_harbor_server.Auth.Sessions.{decimal_text}
use safe_harbor_server.Auth.Numerals.{read_decimal, read-decimal_text}
use safe_harbor_server.Store.{
  Dockerfile, DockerImage, ScanConfig, Flag, Text, Party, Group, User, AclEntry, Resource, Realm,
  Repo, IdentityValidationInfo, user, group, realm, repo, dockerfile, docker_image, scan_config,
  flag, acl_entry, identity_info,
}
use safe_harbor_server.Json.Tokens.{codes}
use safe_harbor_server.Json.Simple.{Codec}
use safe_harbor_server.Json.Print.{
  Spelling, persist_obj_fields, party_fields, resource_fields, identity_fields, group_fields,
  user_fields, acl_entry_fields, realm_fields, repo_fields, dockerfile_fields, docker_image_fields,
  scan_config_fields, flag_fields,
}
use safe_harbor_server.Json.Reconstitute.{object, applied, arguments}
use safe_harbor_server.Json.Methods.{
  reconstitute_party, reconstitute_resource, reconstitute_identity_validation_info,
  reconstitute_acl_entry, reconstitute_group, reconstitute_user, reconstitute_realm,
  reconstitute_repo, reconstitute_dockerfile, reconstitute_docker_image, reconstitute_scan_config,
  reconstitute_flag,
}
use safe_harbor_server.Json.RoundTrip.Arrays.{All}
use safe_harbor_server.Json.RoundTrip.Fields.{value_of}
use safe_harbor_server.Json.RoundTrip.Objects.{values}
use safe_harbor_server.Json.RoundTrip.Reconstituted.{
  argument-strings, argument-bools, argument-octets,
}

map_inverse :
    {A B : Type 0} (f : A → B) (g : B → A)
    → ((a : A) → g (f a) ≡ a)
    → (xs : List A) → map g (map f xs) ≡ xs
map_inverse f g h [] = refl
map_inverse f g h (x ∷ xs) = rw (h x) (rw (map_inverse f g h xs) refl)

module _ (spelling : Spelling) (number_spell : (t : Text) → spelling.number (spelling.spell t) ≡ t)
    (codec : Codec) where
  pub ids_back : (ids : List Text) → map spelling.number (map spelling.spell ids) ≡ ids
  ids_back = map_inverse spelling.spell spelling.number number_spell

  pub identity_back :
      (i : IdentityValidationInfo)
      → applied codec
          (codes "IdentityValidationInfo")
          (reconstitute_identity_validation_info spelling)
          (values (identity_fields spelling i))
        ≡ object (codes "IdentityValidationInfo") (identity_info i)
  unfolding reconstitute_identity_validation_info identity_fields persist_obj_fields value_of
      arguments
  identity_back i = rw (number_spell i.id) (rw (number_spell i.user_id) refl)

  pub acl_entry_back :
      (e : AclEntry)
      → applied codec
          (codes "ACLEntry")
          (reconstitute_acl_entry spelling)
          (values (acl_entry_fields spelling e))
        ≡ object (codes "ACLEntry") (acl_entry e)
  unfolding reconstitute_acl_entry acl_entry_fields persist_obj_fields value_of arguments
  acl_entry_back e =
      rw (argument-bools codec e.permission_mask) (
        rw (number_spell e.id)
          (rw (number_spell e.resource_id) (rw (number_spell e.party_id) refl)))

  abbrev party_back : Party → Party
  party_back p =
      reconstitute_party spelling (spelling.spell p.id) p.is_active (spelling.spell p.name)
        p.creation_time (spelling.spell p.realm_id) (map spelling.spell p.acl_entry_ids)

  reconstitute_party-spell : (p : Party) → party_back p ≡ p
  unfolding reconstitute_party
  reconstitute_party-spell p =
      rw (number_spell p.id) (
        rw (number_spell p.name)
          (rw (number_spell p.realm_id) (rw (ids_back p.acl_entry_ids) refl)))

  abbrev resource_back : Resource → Resource
  resource_back r =
      reconstitute_resource spelling (spelling.spell r.id) (map spelling.spell r.acl_entry_ids)
        (spelling.spell r.name) (spelling.spell r.description) (spelling.spell r.parent_id)
        r.creation_time

  reconstitute_resource-spell : (r : Resource) → resource_back r ≡ r
  unfolding reconstitute_resource
  reconstitute_resource-spell r = rw (number_spell r.id) (
      rw (number_spell r.name) (
        rw (number_spell r.description)
          (rw (number_spell r.parent_id) (rw (ids_back r.acl_entry_ids) refl))))

  pub group_back :
      (g : Group)
      → applied codec
          (codes "Group")
          (reconstitute_group spelling)
          (values (group_fields spelling g))
        ≡ object (codes "Group") (group g)
  unfolding reconstitute_group group_fields party_fields persist_obj_fields value_of arguments
  group_back g = rw (argument-strings codec (map spelling.spell g.acl_entry_ids)) (
      rw (argument-strings codec (map spelling.spell g.user_obj_ids)) (
        rw (reconstitute_party-spell g.party)
          (rw (number_spell g.description) (rw (ids_back g.user_obj_ids) refl))))

  pub realm_back :
      (r : Realm)
      → applied codec
          (codes "Realm")
          (reconstitute_realm spelling)
          (values (realm_fields spelling r))
        ≡ object (codes "Realm") (realm r)
  unfolding reconstitute_realm realm_fields resource_fields persist_obj_fields value_of arguments
  realm_back r = rw (argument-strings codec (map spelling.spell r.acl_entry_ids)) (
      rw (argument-strings codec (map spelling.spell r.user_obj_ids)) (
        rw (argument-strings codec (map spelling.spell r.group_ids)) (
          rw (argument-strings codec (map spelling.spell r.repo_ids)) (
            rw (reconstitute_resource-spell r.resource) (
              rw (number_spell r.admin_user_id) (
                rw (number_spell r.org_full_name) (
                  rw (number_spell r.file_directory) (
                    rw (ids_back r.user_obj_ids)
                      (rw (ids_back r.group_ids) (rw (ids_back r.repo_ids) refl))))))))))

  pub repo_back :
      (r : Repo)
      → applied codec (codes "Repo") (reconstitute_repo spelling) (values (repo_fields spelling r))
        ≡ object (codes "Repo") (repo r)
  unfolding reconstitute_repo repo_fields resource_fields persist_obj_fields value_of arguments
  repo_back r = rw (argument-strings codec (map spelling.spell r.acl_entry_ids)) (
      rw (argument-strings codec (map spelling.spell r.default_user_ids)) (
        rw (argument-strings codec (map spelling.spell r.dockerfile_ids)) (
          rw (argument-strings codec (map spelling.spell r.docker_image_ids)) (
            rw (argument-strings codec (map spelling.spell r.scan_config_ids)) (
              rw (argument-strings codec (map spelling.spell r.flag_ids)) (
                rw (reconstitute_resource-spell r.resource) (
                  rw (number_spell r.file_directory) (
                    rw (ids_back r.default_user_ids) (
                      rw (ids_back r.dockerfile_ids) (
                        rw (ids_back r.docker_image_ids) (
                          rw (ids_back r.scan_config_ids) (rw (ids_back r.flag_ids) refl))))))))))))

  pub attempts_back : (ns : List ℕ) → map (read_decimal 0) (map decimal_text ns) ≡ ns
  unfolding read_decimal
  attempts_back =
      map_inverse decimal_text (read_decimal 0) (λ n. (read-decimal_text n (suc n) (omega arith)).0)

  pub user_back :
      (u : User)
      → All (λ n. n < 256) u.password_hash
      → applied codec (codes "User") (reconstitute_user spelling) (values (user_fields spelling u))
        ≡ object (codes "User") (user u)
  unfolding reconstitute_user user_fields party_fields persist_obj_fields value_of arguments
  user_back u h = rw (argument-strings codec (map spelling.spell u.acl_entry_ids)) (
      rw (argument-octets codec u.password_hash h) (
        rw (argument-strings codec (map spelling.spell u.group_ids)) (
          rw (argument-strings codec (map decimal_text u.most_recent_login_attempts)) (
            rw (argument-strings codec (map spelling.spell u.event_ids)) (
              rw (reconstitute_party-spell u.party) (
                rw (number_spell u.user_id) (
                  rw (number_spell u.default_repo_id) (
                    rw (number_spell u.email_address) (
                      rw (ids_back u.group_ids) (
                        rw (attempts_back u.most_recent_login_attempts)
                          (rw (ids_back u.event_ids) refl)))))))))))

  pub dockerfile_back :
      (d : Dockerfile)
      → applied codec
          (codes "Dockerfile")
          (reconstitute_dockerfile spelling)
          (values (dockerfile_fields spelling d))
        ≡ object (codes "Dockerfile") (dockerfile d)
  unfolding reconstitute_dockerfile dockerfile_fields resource_fields persist_obj_fields value_of
      arguments
  dockerfile_back d = rw (argument-strings codec (map spelling.spell d.acl_entry_ids)) (
      rw (argument-strings codec (map spelling.spell d.dockerfile_exec_event_ids)) (
        rw (reconstitute_resource-spell d.resource)
          (rw (number_spell d.file_path) (rw (ids_back d.dockerfile_exec_event_ids) refl))))

  pub docker_image_back :
      (i : DockerImage)
      → applied codec
          (codes "DockerImage")
          (reconstitute_docker_image spelling)
          (values (docker_image_fields spelling i))
        ≡ object (codes "DockerImage") (docker_image i)
  unfolding reconstitute_docker_image docker_image_fields resource_fields persist_obj_fields
      value_of arguments
  docker_image_back i = rw (argument-strings codec (map spelling.spell i.acl_entry_ids)) (
      rw (argument-strings codec (map spelling.spell i.version_ids)) (
        rw (argument-strings codec (map spelling.spell i.scan_configs_to_use)) (
          rw (reconstitute_resource-spell i.resource)
            (rw (ids_back i.version_ids) (rw (ids_back i.scan_configs_to_use) refl)))))

  pub scan_config_back :
      (c : ScanConfig)
      → applied codec
          (codes "ScanConfig")
          (reconstitute_scan_config spelling)
          (values (scan_config_fields spelling c))
        ≡ object (codes "ScanConfig") (scan_config c)
  unfolding reconstitute_scan_config scan_config_fields resource_fields persist_obj_fields value_of
      arguments
  scan_config_back c = rw (argument-strings codec (map spelling.spell c.acl_entry_ids)) (
      rw (argument-strings codec (map spelling.spell c.parameter_value_ids)) (
        rw (argument-strings codec (map spelling.spell c.scan_event_ids)) (
          rw (argument-strings codec (map spelling.spell c.docker_image_ids_that_use)) (
            rw (reconstitute_resource-spell c.resource) (
              rw (number_spell c.success_expression) (
                rw (number_spell c.provider_name) (
                  rw (number_spell c.flag_id) (
                    rw (ids_back c.parameter_value_ids) (
                      rw (ids_back c.scan_event_ids)
                        (rw (ids_back c.docker_image_ids_that_use) refl))))))))))

  pub flag_back :
      (f : Flag)
      → applied codec (codes "Flag") (reconstitute_flag spelling) (values (flag_fields spelling f))
        ≡ object (codes "Flag") (flag f)
  unfolding reconstitute_flag flag_fields resource_fields persist_obj_fields value_of arguments
  flag_back f = rw (argument-strings codec (map spelling.spell f.acl_entry_ids)) (
      rw (argument-strings codec (map spelling.spell f.used_by_scan_config_ids)) (
        rw (reconstitute_resource-spell f.resource)
          (rw (number_spell f.success_image_path) (rw (ids_back f.used_by_scan_config_ids) refl))))
