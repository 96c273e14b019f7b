-- ===== src/Realms/Create.antt =====
-- InMemClient: realms, repos and users are created. The rules for names that the package `docker`
-- states, and the file system, are parameters.
use safe_harbor_server.Base.{
  ℕ, zero, suc, ◌+◌, Bool, true, false, not, ◌&&◌, Option, none, some, List, [], ◌==◌,
  if◌then◌else◌,
}
use safe_harbor_server.Store.{
  Text, Ptr, Resource, realm, repo, map_realm, map_repo, user_error, server_error, Action, pure,
  raise, gets, ◌>>=◌, ◌>>◌, guard, mutate, or_raise, new_object, update_object, get_realm,
  add_realm, db_get_user_by_user_id,
}
use safe_harbor_server.Parties.Users.{new_user}
use safe_harbor_server.Realms.Lookup.{deref_realm, get_realm_id_by_name, get_repo_by_name}
use safe_harbor_server.Realms.Members.{add_user, add_repo}

-- apitypes.RealmInfo
pub record RealmInfo : Type 0 where
  pub realm_name : Text
  pub org_full_name : Text
  pub description : Text

-- What is outside the server: docker's rule for a part of an image name, which strings hold a
-- period, the text "%s_%d", and the directories of realms and repos, none where none can be made.
pub record Outside : Type 0 where
  pub name_part_conforms_to_docker_rules : Text → Bool
  pub has_period : Text → Bool
  pub numbered : Text → ℕ → Text
  pub assign_realm_file_dir : Text → Option Text
  pub assign_repo_file_dir : Text → Text → Option Text

-- NewInMemResource, but for the id.
unfoldable pub new_resource : Text → Text → Text → ℕ → Text → Resource
new_resource name desc parent_id now id = record {
  id = id;
  acl_entry_ids = [];
  name = name;
  description = desc;
  parent_id = parent_id;
  creation_time = now;
}

abbrev pub is_none : {A : Type 0} → Option A → Bool
is_none none = true
is_none (some _) = false

-- InMemClient.NewInMemRealm
unfoldable pub new_realm : RealmInfo → Text → Action Ptr
unfolding new_object new_resource deref_realm add_realm
new_realm info admin_user_id = do
  now ← gets (λ s. s.now)
  p ← new_object (λ id. realm (record {
    resource = new_resource info.realm_name info.description 0 now id;
    admin_user_id = admin_user_id;
    org_full_name = info.org_full_name;
    user_obj_ids = [];
    group_ids = [];
    repo_ids = [];
    file_directory = 0;
  }))
  r ← deref_realm p
  add_realm r
  pure p

-- InMemClient.NewInMemRepo
unfoldable pub new_repo : Text → Text → Text → Action Ptr
unfolding new_object new_resource update_object
new_repo realm_id name desc = do
  now ← gets (λ s. s.now)
  p ← new_object (λ id. repo (record {
    resource = new_resource name desc realm_id now id;
    default_user_ids = [];
    dockerfile_ids = [];
    docker_image_ids = [];
    scan_config_ids = [];
    flag_ids = [];
    file_directory = 0;
  }))
  update_object p
  pure p

module _ (outside : Outside) where
  -- nameConformsToSafeHarborImageNameRules of HandlerUtils.go
  unfoldable pub name_conforms : Text → Bool
  name_conforms name =
      outside.name_part_conforms_to_docker_rules name && not (outside.has_period name)

  -- InMemClient.dbCreateRealm
  unfoldable pub db_create_realm : RealmInfo → Text → Action Ptr
  unfolding get_realm_id_by_name name_conforms new_realm update_object
  db_create_realm info admin_user_id = do
    realm_id ← get_realm_id_by_name info.realm_name
    guard (realm_id == 0) user_error
    guard (name_conforms info.realm_name) user_error
    r ← new_realm info admin_user_id
    dir ← or_raise (outside.assign_realm_file_dir r) server_error
    mutate r (map_realm (λ x. record x { file_directory = dir }))
    update_object r
    pure r

  -- The loop of createUniqueRepoName from the number `i`, for as many rounds as are left.
  unused_name : ℕ → Ptr → Text → ℕ → Action Text
  unfolding get_repo_by_name
  unused_name zero r prefix i = raise user_error
  unused_name (suc rounds) r prefix i = do
    let rest = unused_name rounds r prefix (i + 1)
    found ← get_repo_by_name r (outside.numbered prefix i)
    if is_none found then pure (outside.numbered prefix i) else rest

  -- InMemRealm.createUniqueRepoName: the numbers 1 to 1000.
  unfoldable pub create_unique_repo_name : Ptr → Text → Action Text
  unfolding name_conforms unused_name
  create_unique_repo_name r prefix = do
    guard (name_conforms prefix) user_error
    unused_name 1000 r prefix 1

  -- InMemClient.dbCreateRepo, for the user that the transaction belongs to.
  unfoldable pub db_create_repo : Text → Text → Text → Text → Action Ptr
  unfolding get_realm create_unique_repo_name name_conforms new_repo deref_realm add_repo
      update_object
  db_create_repo txn_user_id realm_id name desc = do
    r ← get_realm realm_id
    repo_name ← if name == 0 then create_unique_repo_name r.id txn_user_id else pure name
    guard (name_conforms repo_name) user_error
    p ← new_repo realm_id repo_name desc
    x ← deref_realm r.id
    dir ← or_raise (outside.assign_repo_file_dir x.file_directory p) server_error
    mutate p (map_repo (λ y. record y { file_directory = dir }))
    update_object p
    add_repo r.id p
    pure p

-- InMemClient.dbCreateUser
module _ (compute_hash : Text → List ℕ) where
  unfoldable pub db_create_user : Text → Text → Text → Text → Text → Action Ptr
  unfolding db_get_user_by_user_id get_realm new_user add_user update_object
  db_create_user user_id name email pswd realm_id = do
    existing ← db_get_user_by_user_id user_id
    guard (is_none existing) user_error
    r ← get_realm realm_id
    u ← new_user compute_hash user_id name email pswd realm_id
    add_user r.id u
    update_object r.id
    pure u
