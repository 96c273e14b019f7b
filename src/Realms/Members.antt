-- ===== src/Realms/Members.antt =====
-- InMemRealm: users, groups and repos join and leave a realm.
use safe_harbor_server.Base.{Bool, true, false, Option, none, some, [], ◌∷◌, ◌++◌, ◌==◌}
use safe_harbor_server.Store.{
  Text, Ptr, map_party, map_realm, user_error, Action, pure, ◌>>=◌, ◌>>◌, guard, mutate,
  update_object, delete_object, get_user, get_realm,
}
use safe_harbor_server.Utilities.{Utilities}
use safe_harbor_server.Parties.Users.{deref_user}
use safe_harbor_server.Parties.Groups.{deref_group, new_group}
use safe_harbor_server.Realms.Lookup.{
  deref_repo, get_user_by_name, get_group_by_name, get_repo_by_name,
}

abbrev is_none : {A : Type 0} → Option A → Bool
is_none none = true
is_none (some _) = false

abbrev set_realm_id : Ptr → Text → Action (Unit {0})
set_realm_id u realm_id = mutate u (map_party (λ p. record p { realm_id = realm_id }))

-- InMemRealm.addUserId
unfoldable pub add_user_id : Ptr → Text → Action (Unit {0})
unfolding get_user get_user_by_name update_object
add_user_id r user_obj_id = do
  u ← get_user user_obj_id
  guard (u.realm_id == 0) user_error
  namesake ← get_user_by_name r u.name
  guard (is_none namesake) user_error
  mutate r (map_realm (λ x. record x { user_obj_ids = x.user_obj_ids ++ user_obj_id ∷ [] }))
  set_realm_id u.id r
  update_object r
  update_object u.id

-- InMemRealm.addUser: the user's new realm is not written back.
unfoldable pub add_user : Ptr → Ptr → Action (Unit {0})
unfolding deref_user get_user_by_name update_object
add_user r u = do
  x ← deref_user u
  namesake ← get_user_by_name r x.name
  guard (is_none namesake) user_error
  mutate r (map_realm (λ y. record y { user_obj_ids = y.user_obj_ids ++ u ∷ [] }))
  set_realm_id u r
  update_object r

-- InMemRealm.addGroup
unfoldable pub add_group : Ptr → Ptr → Action (Unit {0})
unfolding deref_group get_group_by_name update_object
add_group r g = do
  x ← deref_group g
  namesake ← get_group_by_name r x.name
  guard (is_none namesake) user_error
  mutate r (map_realm (λ y. record y { group_ids = y.group_ids ++ g ∷ [] }))
  update_object r

-- InMemRealm.addRepo
unfoldable pub add_repo : Ptr → Ptr → Action (Unit {0})
unfolding deref_repo get_repo_by_name update_object
add_repo r p = do
  x ← deref_repo p
  namesake ← get_repo_by_name r x.name
  guard (is_none namesake) user_error
  mutate r (map_realm (λ y. record y { repo_ids = y.repo_ids ++ p ∷ [] }))
  update_object r

-- InMemClient.dbCreateGroup
unfoldable pub db_create_group : Text → Text → Text → Action Ptr
unfolding get_realm get_group_by_name new_group add_group update_object
db_create_group realm_id name description = do
  r ← get_realm realm_id
  namesake ← get_group_by_name r.id name
  guard (is_none namesake) user_error
  g ← new_group realm_id name description
  add_group r.id g
  update_object r.id
  pure g

module _ (utilities : Utilities) where
  -- InMemRealm.removeUserId
  unfoldable pub remove_user_id : Ptr → Text → Action Ptr
  unfolding get_user update_object
  remove_user_id r user_obj_id = do
    u ← get_user user_obj_id
    guard (u.realm_id == r) user_error
    mutate r (
        map_realm
          (λ x. record x { user_obj_ids = utilities.remove_from user_obj_id x.user_obj_ids }))
    set_realm_id u.id 0
    update_object r
    update_object u.id
    pure u.id

  -- InMemRealm.deleteUserId
  unfoldable pub delete_user_id : Ptr → Text → Action (Unit {0})
  unfolding remove_user_id delete_object update_object
  delete_user_id r user_obj_id = do
    u ← remove_user_id r user_obj_id
    delete_object u
    update_object r
