-- ===== src/Parties/Groups.antt =====
-- InMemGroup of src/safeharbor/server/InMemory.go.
use safe_harbor_server.Base.{
  Bool, true, false, none, some, List, [], ◌∷◌, ◌++◌, ◌==◌, if◌then◌else◌, contains,
}
use safe_harbor_server.Store.{
  Text, Ptr, Group, group, as_group, map_group, user_error, Action, pure, raise, gets, or_crash,
  ◌>>=◌, ◌>>◌, guard, attempt, mutate, new_object, deref, update_object, get_user,
}
use safe_harbor_server.Parties.Users.{new_party, add_group_id_deferred_update}

unfoldable pub deref_group : Ptr → Action Group
unfolding deref
deref_group p = do o ← deref p; or_crash (as_group o)

-- InMemClient.NewInMemGroup
unfoldable pub new_group : Text → Text → Text → Action Ptr
unfolding new_party new_object update_object
new_group realm_id name desc = do
  now ← gets (λ s. s.now)
  p ← new_object (λ id.
      group
        (record { party = new_party name realm_id now id; description = desc; user_obj_ids = [] }))
  update_object p
  pure p

-- InMemGroup.hasUserWithId
unfoldable pub has_user_with_id : Ptr → Text → Action Bool
unfolding get_user deref_group
has_user_with_id g user_obj_id = do
  u ← attempt (get_user user_obj_id)
  x ← deref_group g
  elim u [ none ↦ pure false | some _ ↦ pure (contains user_obj_id x.user_obj_ids) ]

-- InMemGroup.addUserId
unfoldable pub add_user_id : Ptr → Text → Action (Unit {0})
unfolding has_user_with_id get_user add_group_id_deferred_update update_object
add_user_id g user_obj_id = do
  member ← has_user_with_id g user_obj_id
  guard (if member then false else true) user_error
  u ← get_user user_obj_id
  mutate g (map_group (λ x. record x { user_obj_ids = x.user_obj_ids ++ user_obj_id ∷ [] }))
  add_group_id_deferred_update u.id g
  update_object u.id
  update_object g

-- `append(ids[0:i], ids[i+1:]...)` at the first index that holds the id.
unfoldable pub without_first : Text → List Text → List Text
without_first k [] = []
without_first k (x ∷ xs) = if x == k then xs else x ∷ without_first k xs

-- InMemGroup.removeUser, which drops the error of the write.
unfoldable pub remove_user : Ptr → Ptr → Action (Unit {0})
unfolding deref_group without_first update_object
remove_user g u = do
  x ← deref_group g
  if contains u x.user_obj_ids
      then (do
        mutate g (map_group (λ y. record y { user_obj_ids = without_first u y.user_obj_ids }))
        attempt (update_object g)
        pure tt)
      else raise user_error

-- InMemGroup.addUser
unfoldable pub add_user : Ptr → Ptr → Action (Unit {0})
unfolding update_object
add_user g u = do
  mutate g (map_group (λ x. record x { user_obj_ids = x.user_obj_ids ++ u ∷ [] }))
  update_object g
