-- ===== src/Realms/Lookup.antt =====
-- Searches by name among the users, groups and repos of a realm, and for a realm.
use safe_harbor_server.Base.{
  Bool, false, Option, none, some, List, [], ◌∷◌, ◌==◌, if◌then◌else◌, contains,
}
use safe_harbor_server.Store.{
  Text, Ptr, User, Group, Repo, Realm, Obj, as_user, as_group, as_repo, as_realm, server_error,
  Action, pure, or_crash, ◌>>=◌, attempt, deref, get_as, get_object, get_realm,
  db_get_all_realm_ids,
}

unfoldable pub deref_realm : Ptr → Action Realm
unfolding deref
deref_realm p = do o ← deref p; or_crash (as_realm o)

unfoldable pub deref_repo : Ptr → Action Repo
unfolding deref
deref_repo p = do o ← deref p; or_crash (as_repo o)

-- The loop of getUserByName, getUserByUserId, getGroupByName and getRepoByName: the first object
-- that passes; an id that is not there, or is of another type, ends the search with an error.
unfoldable pub find_by :
    {A : Type 0} → (Obj → Option A) → (A → Bool) → List Text → Action (Option A)
unfolding get_object
find_by cast test [] = pure none
find_by cast test (id ∷ ids) = do
  let rest = find_by cast test ids
  a ← get_as cast server_error id
  if test a then pure (some a) else rest

-- InMemRealm.getUserByName
unfoldable pub get_user_by_name : Ptr → Text → Action (Option User)
unfolding deref_realm find_by
get_user_by_name r name = do x ← deref_realm r; find_by as_user (λ u. u.name == name) x.user_obj_ids

-- InMemRealm.getUserByUserId
unfoldable pub get_user_by_user_id : Ptr → Text → Action (Option User)
unfolding deref_realm find_by
get_user_by_user_id r user_id = do
  x ← deref_realm r
  find_by as_user (λ u. u.user_id == user_id) x.user_obj_ids

-- InMemRealm.getGroupByName
unfoldable pub get_group_by_name : Ptr → Text → Action (Option Group)
unfolding deref_realm find_by
get_group_by_name r name = do x ← deref_realm r; find_by as_group (λ g. g.name == name) x.group_ids

-- InMemRealm.getRepoByName
unfoldable pub get_repo_by_name : Ptr → Text → Action (Option Repo)
unfolding deref_realm find_by
get_repo_by_name r name = do x ← deref_realm r; find_by as_repo (λ p. p.name == name) x.repo_ids

-- The body of hasUserWithId, hasGroupWithId and hasRepoWithId.
lists_object : {A : Type 0} → (Obj → Option A) → Text → List Text → Action Bool
unfolding get_object
lists_object cast id ids = do
  found ← attempt (get_as cast server_error id)
  elim found [ none ↦ pure false | some _ ↦ pure (contains id ids) ]

-- InMemRealm.hasUserWithId
unfoldable pub has_user_with_id : Ptr → Text → Action Bool
unfolding deref_realm lists_object
has_user_with_id r id = do x ← deref_realm r; lists_object as_user id x.user_obj_ids

-- InMemRealm.hasGroupWithId
unfoldable pub has_group_with_id : Ptr → Text → Action Bool
unfolding deref_realm lists_object
has_group_with_id r id = do x ← deref_realm r; lists_object as_group id x.group_ids

-- InMemRealm.hasRepoWithId
unfoldable pub has_repo_with_id : Ptr → Text → Action Bool
unfolding deref_realm lists_object
has_repo_with_id r id = do x ← deref_realm r; lists_object as_repo id x.repo_ids

realm_named : Text → List Text → Action Text
unfolding get_realm
realm_named name [] = pure 0
realm_named name (id ∷ ids) = do
  let rest = realm_named name ids
  r ← get_realm id
  if r.name == name then pure id else rest

-- InMemClient.getRealmIdByName
unfoldable pub get_realm_id_by_name : Text → Action Text
unfolding db_get_all_realm_ids realm_named
get_realm_id_by_name name = do ids ← db_get_all_realm_ids; realm_named name ids
