-- ===== src/Json/Methods.antt =====
-- The Reconstitute methods of src/safeharbor/server/InMemory.go. Each makes the struct of its
-- arguments, in the order of its formals, and returns no error.
use safe_harbor_server.Base.{ℕ, Bool, Option, some, List, [], ◌∷◌, if◌then◌else◌}
use mathlib.Core.List.{map}
use safe_harbor_server.Auth.Sessions.{Bytes, bytes_eq}
use safe_harbor_server.Auth.Numerals.{read_decimal}
use safe_harbor_server.Store.{
  dockerfile, docker_image, scan_config, flag, Text, Obj, Party, Resource, user, group, realm, repo,
  acl_entry, identity_info,
}
use safe_harbor_server.Json.Tokens.{codes}
use safe_harbor_server.Json.Print.{Spelling}
use safe_harbor_server.Json.Reconstitute.{a_string, a_bool, a_time, strings, bools, octets, Method}

module _ (spelling : Spelling) where
  -- The bytes of a string argument, as the number that the model has for it.
  abbrev number_of : Bytes → Text
  number_of = spelling.number

  abbrev numbers_of : List Bytes → List Text
  numbers_of = map spelling.number

  -- ReconstituteParty
  unfoldable pub reconstitute_party : Bytes → Bool → Bytes → ℕ → Bytes → List Bytes → Party
  reconstitute_party id is_active name creation_time realm_id acl_entry_ids = record {
    id = number_of id;
    is_active = is_active;
    name = number_of name;
    creation_time = creation_time;
    realm_id = number_of realm_id;
    acl_entry_ids = numbers_of acl_entry_ids;
  }

  -- ReconstituteResource, with ReconstituteACL.
  unfoldable pub reconstitute_resource : Bytes → List Bytes → Bytes → Bytes → Bytes → ℕ → Resource
  reconstitute_resource id acl_entry_ids name desc parent_id creation_time = record {
    id = number_of id;
    acl_entry_ids = numbers_of acl_entry_ids;
    name = number_of name;
    description = number_of desc;
    parent_id = number_of parent_id;
    creation_time = creation_time;
  }

  unfoldable pub reconstitute_identity_validation_info : Method Obj
  reconstitute_identity_validation_info = record {
    formals = a_string ∷ a_string ∷ a_time ∷ [];
    build = λ id user_id creation_time.
        identity_info (record {
          id = number_of id;
          user_id = number_of user_id;
          creation_time = creation_time;
        });
  }

  unfoldable pub reconstitute_acl_entry : Method Obj
  reconstitute_acl_entry = record {
    formals = a_string ∷ a_string ∷ a_string ∷ bools ∷ [];
    build = λ id resource_id party_id perm_mask. acl_entry (record {
      id = number_of id;
      resource_id = number_of resource_id;
      party_id = number_of party_id;
      permission_mask = perm_mask;
    });
  }

  unfoldable pub reconstitute_group : Method Obj
  unfolding reconstitute_party
  reconstitute_group = record {
    formals = a_string ∷ a_bool ∷ a_string ∷ a_time ∷ a_string ∷ strings ∷ a_string ∷ strings ∷ [];
    build = λ id is_active name creation_time realm_id acl_entry_ids desc user_obj_ids.
        group (record {
          party = reconstitute_party id is_active name creation_time realm_id acl_entry_ids;
          description = number_of desc;
          user_obj_ids = numbers_of user_obj_ids;
        });
  }

  -- A login attempt is read as a decimal text.
  unfoldable pub reconstitute_user : Method Obj
  unfolding reconstitute_party read_decimal
  reconstitute_user = record {
    formals =
        a_string ∷ a_bool ∷ a_string ∷ a_time ∷ a_string ∷ strings ∷ a_string ∷ a_string ∷ a_string
        ∷ a_bool ∷ octets ∷ strings ∷ strings ∷ strings ∷ [];
    build =
        λ id is_active name creation_time realm_id acl_entry_ids user_id default_repo_id email_addr
            email_is_verified pswd_hash group_ids login_attmpts event_ids.
          user (record {
            party = reconstitute_party id is_active name creation_time realm_id acl_entry_ids;
            user_id = number_of user_id;
            default_repo_id = number_of default_repo_id;
            email_address = number_of email_addr;
            email_is_verified = email_is_verified;
            password_hash = pswd_hash;
            group_ids = numbers_of group_ids;
            most_recent_login_attempts = map (read_decimal 0) login_attmpts;
            event_ids = numbers_of event_ids;
          });
  }

  unfoldable pub reconstitute_realm : Method Obj
  unfolding reconstitute_resource
  reconstitute_realm = record {
    formals =
        a_string ∷ strings ∷ a_string ∷ a_string ∷ a_string ∷ a_time ∷ a_string ∷ a_string ∷ strings
        ∷ strings ∷ strings ∷ a_string ∷ [];
    build =
        λ id acl_entry_ids name desc parent_id creation_time admin_user_id org_full_name
            user_obj_ids group_ids repo_ids file_dir.
          realm (record {
            resource = reconstitute_resource id acl_entry_ids name desc parent_id creation_time;
            admin_user_id = number_of admin_user_id;
            org_full_name = number_of org_full_name;
            user_obj_ids = numbers_of user_obj_ids;
            group_ids = numbers_of group_ids;
            repo_ids = numbers_of repo_ids;
            file_directory = number_of file_dir;
          });
  }

  unfoldable pub reconstitute_repo : Method Obj
  unfolding reconstitute_resource
  reconstitute_repo = record {
    formals =
        a_string ∷ strings ∷ a_string ∷ a_string ∷ a_string ∷ a_time ∷ strings ∷ strings ∷ strings
        ∷ strings ∷ strings ∷ a_string ∷ [];
    build =
        λ id acl_entry_ids name desc parent_id creation_time default_user_ids dockerfile_ids
            image_ids config_ids flag_ids file_dir.
          repo (record {
            resource = reconstitute_resource id acl_entry_ids name desc parent_id creation_time;
            default_user_ids = numbers_of default_user_ids;
            dockerfile_ids = numbers_of dockerfile_ids;
            docker_image_ids = numbers_of image_ids;
            scan_config_ids = numbers_of config_ids;
            flag_ids = numbers_of flag_ids;
            file_directory = number_of file_dir;
          });
  }

  unfoldable pub reconstitute_dockerfile : Method Obj
  unfolding reconstitute_resource
  reconstitute_dockerfile = record {
    formals =
        a_string ∷ strings ∷ a_string ∷ a_string ∷ a_string ∷ a_time ∷ a_string ∷ strings ∷ [];
    build = λ id acl_entry_ids name desc parent_id creation_time file_path event_ids.
        dockerfile (record {
          resource = reconstitute_resource id acl_entry_ids name desc parent_id creation_time;
          file_path = number_of file_path;
          dockerfile_exec_event_ids = numbers_of event_ids;
        });
  }

  unfoldable pub reconstitute_docker_image : Method Obj
  unfolding reconstitute_resource
  reconstitute_docker_image = record {
    formals = a_string ∷ strings ∷ a_string ∷ a_string ∷ a_string ∷ a_time ∷ strings ∷ strings ∷ [];
    build = λ id acl_entry_ids name desc parent_id creation_time version_ids scan_configs_to_use.
        docker_image (record {
          resource = reconstitute_resource id acl_entry_ids name desc parent_id creation_time;
          version_ids = numbers_of version_ids;
          scan_configs_to_use = numbers_of scan_configs_to_use;
        });
  }

  unfoldable pub reconstitute_scan_config : Method Obj
  unfolding reconstitute_resource
  reconstitute_scan_config = record {
    formals =
        a_string ∷ strings ∷ a_string ∷ a_string ∷ a_string ∷ a_time ∷ a_string ∷ a_string ∷ strings
        ∷ a_string ∷ strings ∷ strings ∷ [];
    build =
        λ id acl_entry_ids name desc parent_id creation_time success_expr provider_name
            param_value_ids flag_id scan_event_ids docker_image_ids.
          scan_config (record {
            resource = reconstitute_resource id acl_entry_ids name desc parent_id creation_time;
            success_expression = number_of success_expr;
            provider_name = number_of provider_name;
            parameter_value_ids = numbers_of param_value_ids;
            flag_id = number_of flag_id;
            scan_event_ids = numbers_of scan_event_ids;
            docker_image_ids_that_use = numbers_of docker_image_ids;
          });
  }

  unfoldable pub reconstitute_flag : Method Obj
  unfolding reconstitute_resource
  reconstitute_flag = record {
    formals =
        a_string ∷ strings ∷ a_string ∷ a_string ∷ a_string ∷ a_time ∷ a_string ∷ strings ∷ [];
    build = λ id acl_entry_ids name desc parent_id creation_time success_image_path used_by.
        flag (record {
          resource = reconstitute_resource id acl_entry_ids name desc parent_id creation_time;
          success_image_path = number_of success_image_path;
          used_by_scan_config_ids = numbers_of used_by;
        });
  }

  -- The method `Reconstitute<name>`; `other` has those of the types that are not modelled.
  unfoldable pub method_by_name : (Bytes → Option (Method Obj)) → Bytes → Option (Method Obj)
  unfolding bytes_eq
  method_by_name other name =
      if bytes_eq name (codes "IdentityValidationInfo")
      then some reconstitute_identity_validation_info
      else if bytes_eq name (codes "ACLEntry")
      then some reconstitute_acl_entry
      else if bytes_eq name (codes "Group")
      then some reconstitute_group
      else if bytes_eq name (codes "User")
      then some reconstitute_user
      else if bytes_eq name (codes "Realm")
      then some reconstitute_realm
      else if bytes_eq name (codes "Repo")
      then some reconstitute_repo
      else if bytes_eq name (codes "Dockerfile")
      then some reconstitute_dockerfile
      else if bytes_eq name (codes "DockerImage")
      then some reconstitute_docker_image
      else if bytes_eq name (codes "ScanConfig")
      then some reconstitute_scan_config
      else if bytes_eq name (codes "Flag")
      then some reconstitute_flag
      else other name
