-- ===== src/Store/Client.antt =====
-- InMemClient and Persistence with InMemoryOnly set: ids, the two levels of object maps, typed
-- getters, and the maps of users, realms and email tokens.
use Prim.Native.Nat.{ℕ}
use safe_harbor_server.Base.{
  ◌+◌, ◌*◌, Option, none, some, List, [], ◌∷◌, ◌++◌, ◌==◌, if◌then◌else◌, update,
}
use safe_harbor_server.Store.Objects.{
  Text, Ptr, Obj, Party, Group, User, AclEntry, Resource, Realm, Repo, IdentityValidationInfo,
  identity_info, as_user, as_group, as_realm, as_repo, as_acl_entry, as_party, as_resource,
  as_identity_info,
}
use safe_harbor_server.Store.Monad.{
  Store, Fault, user_error, server_error, ok, err, Action, pure, gets, or_raise, or_crash, ◌>>=◌,
  ◌>>◌, guard, modify,
}

-- fmt.Sprintf("%d", n) in the numbering of `Text`.
abbrev pub decimal : ℕ → Text
decimal n = 2 * n

-- Persistence.createUniqueDbObjectId, and incrementDatabaseKey at its only key. The counter is an
-- int64 in the source; here it is a natural number, which does not overflow.
unfoldable pub create_unique_db_object_id : Action Text
create_unique_db_object_id s =
    (ok (decimal (s.unique_id + 1)), record s { unique_id = s.unique_id + 1 })

-- NewInMemPersistObj, and the struct that its caller builds around it.
unfoldable pub new_object : (Text → Obj) → Action Ptr
unfolding create_unique_db_object_id
new_object build = do
  id ← create_unique_db_object_id
  modify (λ s. record s { heap = update s.heap id (some (build id)) })
  pure id

unfoldable pub deref : Ptr → Action Obj
deref p s = or_crash (s.heap p) s

-- InMemClient.getPersistentObject, with Persistence.getObject: first the request's cache, then the
-- map of all objects; what is found there is cached.
unfoldable pub get_persistent_object : Text → Action Ptr
get_persistent_object id s =
    if id == 0
    then (err server_error, s)
    else if s.objects_cache id == 0
    then (if s.all_objects id == 0 then (err user_error, s) else (
      ok (s.all_objects id),
      record s { objects_cache = update s.objects_cache id (s.all_objects id) },
    ))
    else (ok (s.objects_cache id), s)

-- InMemClient.updateObject and writeBack, with Persistence.updateObject.
unfoldable pub update_object : Ptr → Action (Unit {0})
update_object p s = if p == 0 then (err server_error, s) else (
  ok tt,
  record s { objects_cache = update s.objects_cache p p; all_objects = update s.all_objects p p },
)

-- InMemClient.deleteObject, with Persistence.deleteObject.
unfoldable pub delete_object : Ptr → Action (Unit {0})
delete_object p s = (
  ok tt,
  record s { objects_cache = update s.objects_cache p 0; all_objects = update s.all_objects p 0 },
)

-- Persistence.deleteObject alone: the request's cache keeps the object.
unfoldable pub persistence_delete_object : Ptr → Action (Unit {0})
persistence_delete_object p s = (ok tt, record s { all_objects = update s.all_objects p 0 })

unfoldable pub get_object : Text → Action Obj
unfolding get_persistent_object deref
get_object id = do p ← get_persistent_object id; deref p

-- The object behind an id, by a type assertion.
abbrev pub get_as : {A : Type 0} → (Obj → Option A) → Fault → Text → Action A
get_as cast fault id = do o ← get_object id; or_raise (cast o) fault

-- The getters return the struct as it is when they return; its `id` is the pointer.
unfoldable pub get_user : Text → Action User
unfolding get_object
get_user = get_as as_user user_error

unfoldable pub get_group : Text → Action Group
unfolding get_object
get_group = get_as as_group user_error

unfoldable pub get_party : Text → Action Party
unfolding get_object
get_party = get_as as_party user_error

unfoldable pub get_resource : Text → Action Resource
unfolding get_object
get_resource = get_as as_resource user_error

unfoldable pub get_realm : Text → Action Realm
unfolding get_object
get_realm = get_as as_realm user_error

unfoldable pub get_repo : Text → Action Repo
unfolding get_object
get_repo = get_as as_repo user_error

unfoldable pub get_acl_entry : Text → Action AclEntry
unfolding get_object
get_acl_entry = get_as as_acl_entry server_error

unfoldable pub get_identity_validation_info : Text → Action IdentityValidationInfo
unfolding get_object
get_identity_validation_info = get_as as_identity_info user_error

-- A value of `map[string]string`: the empty string where the key is missing.
unfoldable pub entry_of : Text → List (Text × Text) → Text
entry_of k [] = 0
entry_of k ((j, v) ∷ m) = if j == k then v else entry_of k m

unfoldable pub set_entry : Text → Text → List (Text × Text) → List (Text × Text)
set_entry k v [] = (k, v) ∷ []
set_entry k v ((j, w) ∷ m) = if j == k then (k, v) ∷ m else (j, w) ∷ set_entry k v m

-- Persistence.GetRealmObjIdByRealmName
unfoldable pub get_realm_obj_id_by_realm_name : Text → Action Text
unfolding entry_of
get_realm_obj_id_by_realm_name name = gets (λ s. entry_of name s.realm_map)

-- The part of InMemClient.dbGetUserByUserId after a miss of its cache. The object cache is written
-- at the login name too, as the code does.
unfoldable pub load_user : Text → Text → Action (Option User)
unfolding get_user
load_user user_id user_obj_id = do
  u ← get_user user_obj_id
  modify (λ s. record s {
    users_cache = update s.users_cache user_id u.id;
    objects_cache = update s.objects_cache user_id u.id;
  })
  pure (some u)

unfoldable pub cached_user : Ptr → Action (Option User)
unfolding deref
cached_user p = do o ← deref p; u ← or_crash (as_user o); pure (some u)

-- InMemClient.dbGetUserByUserId; `none` is the nil user without an error.
unfoldable pub db_get_user_by_user_id : Text → Action (Option User)
unfolding load_user cached_user
db_get_user_by_user_id user_id s =
    if s.users_cache user_id == 0
    then (if s.all_user_ids user_id == 0
        then (ok none, s)
        else load_user user_id (s.all_user_ids user_id) s)
    else cached_user (s.users_cache user_id) s

-- InMemClient.addUser, with Persistence.addUser.
unfoldable pub add_user : User → Action (Unit {0})
unfolding update_object
add_user u = do
  cached ← gets (λ s. s.users_cache u.id)
  guard (cached == 0) user_error
  modify (λ s. record s {
    users_cache = update s.users_cache u.id u.id;
    objects_cache = update s.objects_cache u.id u.id;
  })
  taken ← gets (λ s. s.all_user_ids u.user_id)
  guard (taken == 0) user_error
  modify (λ s. record s { all_user_ids = update s.all_user_ids u.user_id u.id })
  modify (λ s. record s { all_objects = update s.all_objects u.id u.id })

-- InMemClient.addRealm, with Persistence.addRealm.
unfoldable pub add_realm : Realm → Action (Unit {0})
unfolding update_object entry_of set_entry get_realm_obj_id_by_realm_name
add_realm r = do
  rid ← get_realm_obj_id_by_realm_name r.name
  guard (rid == 0) user_error
  cached ← gets (λ s. entry_of r.id s.realm_map_cache)
  guard (cached == 0) user_error
  modify (λ s. record s {
    realm_map_cache = set_entry r.id r.id s.realm_map_cache;
    objects_cache = update s.objects_cache r.id r.id;
  })
  taken ← get_realm_obj_id_by_realm_name r.name
  guard (taken == 0) user_error
  modify (λ s. record s {
    realm_map = set_entry r.name r.id s.realm_map;
    all_objects = update s.all_objects r.id r.id;
  })

uncached_ids : List (Text × Ptr) → List (Text × Text) → List Text
unfolding entry_of
uncached_ids cache [] = []
uncached_ids cache ((name, id) ∷ m) =
    let rest = uncached_ids cache m in if entry_of id cache == 0 then id ∷ rest else rest

cached_ids : List (Text × Ptr) → List Text
cached_ids [] = []
cached_ids ((id, p) ∷ m) = p ∷ cached_ids m

-- InMemClient.dbGetAllRealmIds, with Persistence.dbGetAllRealmIds. Go gives a map's entries in any
-- order: the lists stand for one such order.
unfoldable pub db_get_all_realm_ids : Action (List Text)
unfolding uncached_ids cached_ids
db_get_all_realm_ids =
    gets (λ s. uncached_ids s.realm_map_cache s.realm_map ++ cached_ids s.realm_map_cache)

-- InMemClient.resetTransactionCache
unfoldable pub reset_transaction_cache : Store → Store
reset_transaction_cache s = record s {
  objects_cache = λ _. 0;
  users_cache = λ _. 0;
  realm_map_cache = [];
}

-- Persistence.addIdentityValidationInfo
unfoldable pub add_identity_validation_info : Text → Text → Action (Unit {0})
add_identity_validation_info token info_obj_id =
    modify (λ s. record s { email_token_map = update s.email_token_map token info_obj_id })

-- Persistence.getIdentityValidationInfoByToken
unfoldable pub get_identity_validation_info_by_token : Text → Action Text
get_identity_validation_info_by_token token = gets (λ s. s.email_token_map token)

-- Persistence.remIdentityValidationInfo
unfoldable pub rem_identity_validation_info : Text → Action (Unit {0})
rem_identity_validation_info token =
    modify (λ s. record s { email_token_map = update s.email_token_map token 0 })

-- InMemClient.dbCreateIdentityValidationInfo, with NewInMemIdentityValidationInfo.
unfoldable pub db_create_identity_validation_info : Text → ℕ → Text → Action Ptr
unfolding new_object update_object add_identity_validation_info
db_create_identity_validation_info user_id creation_time token = do
  p ←
      new_object
        (λ id. identity_info (record { id = id; user_id = user_id; creation_time = creation_time }))
  update_object p
  add_identity_validation_info token p
  pure p
