-- ===== src/Realms/Remove.antt =====
-- InMemClient.dbDeactivateRealm, and InMemRealm.deleteGroup.
use safe_harbor_server.Base.{
  ℕ, zero, suc, ◌+◌, ◌-◌, false, Option, none, some, List, [], ◌∷◌, ◌++◌, ◌==◌, if◌then◌else◌,
  length, get_elem?, take, drop,
}
use safe_harbor_server.Store.{
  Text, Ptr, Action, pure, or_crash, ◌>>=◌, ◌>>◌, for_each, mutate, map_realm, attempt,
  update_object, get_user, get_group, get_party, get_resource, get_realm, get_repo, get_acl_entry,
}
use safe_harbor_server.Utilities.{Utilities}
use safe_harbor_server.Acl.Access.{delete_access, delete_all_access_to_resource}
use safe_harbor_server.Parties.Users.{set_active}
use safe_harbor_server.Parties.Groups.{deref_group, remove_user}
use safe_harbor_server.Realms.Lookup.{deref_realm, deref_repo}

abbrev user_to_inactive : Text → Action (Unit {0})
user_to_inactive id = do u ← get_user id; attempt (set_active u.id false); pure tt

abbrev group_to_inactive : Text → Action (Unit {0})
group_to_inactive id = do g ← get_group id; attempt (set_active g.id false); pure tt

-- The index of an id among the first `n` items of an array.
unfoldable pub index_below : ℕ → Text → List Text → Option ℕ
index_below zero k array = none
index_below (suc n) k [] = none
index_below (suc n) k (x ∷ xs) =
    if x == k then some 0 else elim (index_below n k xs) [ none ↦ none | some i ↦ some (suc i) ]

-- What `append(ids[0:i], ids[i+1:]...)` leaves in the array behind a slice of length n: the items
-- after i move down in place, and those from n - 1 on stay.
unfoldable pub shifted : ℕ → ℕ → List Text → List Text
shifted zero i array = array
shifted (suc n) i array = take i array ++ drop (suc i) (take (suc n) array) ++ drop n array

module _ (utilities : Utilities) where
  -- InMemClient.deleteAllAccess
  unfoldable pub delete_all_access : List Text → Action (Unit {0})
  unfolding get_resource delete_all_access_to_resource
  delete_all_access ids =
      for_each ids (λ id. do r ← get_resource id; delete_all_access_to_resource utilities r.id)

  -- One round of the loop of dbDeactivateRealm over the repos.
  delete_access_of_repo : Text → Action (Unit {0})
  unfolding get_repo deref_repo delete_all_access_to_resource delete_all_access
  delete_access_of_repo id = do
    p ← get_repo id
    delete_all_access_to_resource utilities p.id
    x ← deref_repo p.id
    delete_all_access x.dockerfile_ids
    delete_all_access x.docker_image_ids
    delete_all_access x.scan_config_ids
    delete_all_access x.flag_ids

  -- InMemClient.dbDeactivateRealm
  unfoldable pub db_deactivate_realm : Text → Action (Unit {0})
  unfolding get_realm get_user get_group deref_realm delete_access_of_repo set_active
  db_deactivate_realm realm_id = do
    r ← get_realm realm_id
    delete_all_access_to_resource utilities r.id
    x ← deref_realm r.id
    for_each x.repo_ids delete_access_of_repo
    for_each x.user_obj_ids user_to_inactive
    for_each x.group_ids group_to_inactive

  -- The loop of deleteGroup over the group's users. The range reads the array behind the slice that
  -- it began with, and removeUser shifts that array: `i` is the index that is read, `rounds` the
  -- number of indices left, and `n` the length that the group's slice has by now.
  unfoldable pub remove_users : ℕ → ℕ → ℕ → List Text → Ptr → Action (Unit {0})
  unfolding get_user remove_user index_below shifted
  remove_users zero i n array g = pure tt
  remove_users (suc rounds) i n array g = do
    id ← or_crash (get_elem? array i)
    u ← get_user id
    remove_user g u.id
    elim (index_below n u.id array) [
      | none ↦ remove_users rounds (i + 1) n array g
      | some k ↦ remove_users rounds (i + 1) (n - 1) (shifted n k array) g
    ]

  -- One round of the loop of deleteGroup over the group's ACL entries.
  delete_access_of_entry : Text → Action (Unit {0})
  unfolding get_acl_entry get_resource get_party delete_access
  delete_access_of_entry id = do
    e ← get_acl_entry id
    r ← get_resource e.resource_id
    p ← get_party e.party_id
    delete_access utilities r.id p.id

  -- InMemRealm.deleteGroup
  unfoldable pub delete_group : Ptr → Ptr → Action (Unit {0})
  unfolding update_object deref_group remove_users delete_access_of_entry
  delete_group r g = do
    mutate r (map_realm (λ x. record x { group_ids = utilities.remove_from g x.group_ids }))
    update_object r
    x ← deref_group g
    remove_users (length x.user_obj_ids) 0 (length x.user_obj_ids) x.user_obj_ids g
    y ← deref_group g
    for_each y.acl_entry_ids delete_access_of_entry
