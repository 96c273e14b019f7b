-- ===== src/Acl/Access.antt =====
-- The access operations on a resource and a party of src/safeharbor/server/InMemory.go.
use safe_harbor_server.Base.{
  ℕ, ◌+◌, Bool, true, false, ◌||◌, Option, none, some, List, [], ◌∷◌, ◌==◌, if◌then◌else◌,
}
use safe_harbor_server.Store.{
  Text, Ptr, Party, AclEntry, Resource, as_party, as_resource, map_party, map_resource,
  map_acl_entry, Fault, server_error, ok, err, panic, Action, pure, crash, raise, or_crash, ◌>>=◌,
  ◌>>◌, guard, for_each, mutate, deref, update_object, delete_object, persistence_delete_object,
  get_party, get_acl_entry,
}
use safe_harbor_server.Utilities.{Utilities}
use safe_harbor_server.Acl.Entries.{db_create_acl_entry, set_permission_mask}

unfoldable pub deref_party : Ptr → Action Party
unfolding deref
deref_party p = do o ← deref p; or_crash (as_party o)

unfoldable pub deref_resource : Ptr → Action Resource
unfolding deref
deref_resource p = do o ← deref p; or_crash (as_resource o)

abbrev last_error : Option Fault → Action (Option AclEntry)
last_error none = pure none
last_error (some e) = raise e

-- The loop of InMemParty.getACLEntryForResourceId: an entry that cannot be read is passed over, and
-- if none is found the error of the last read is returned.
unfoldable pub find_entry : (AclEntry → Bool) → List Text → Option Fault → Action (Option AclEntry)
unfolding get_acl_entry
find_entry test [] last s = last_error last s
find_entry test (id ∷ ids) last s =
    let (r, s') = get_acl_entry id s in
    elim r [
      | ok e ↦ (if test e then (ok (some e), s') else find_entry test ids none s')
      | err fault ↦ find_entry test ids (some fault) s'
      | panic ↦ (panic, s')
    ]

-- InMemParty.getACLEntryForResourceId
unfoldable pub get_acl_entry_for_resource_id : Ptr → Text → Action (Option AclEntry)
unfolding deref_party find_entry
get_acl_entry_for_resource_id party resource_id = do
  p ← deref_party party
  find_entry (λ e. e.resource_id == resource_id) p.acl_entry_ids none

-- InMemResource.getACLEntryForPartyId
unfoldable pub get_acl_entry_for_party_id : Ptr → Text → Action (Option AclEntry)
unfolding deref_resource find_entry
get_acl_entry_for_party_id resource party_id = do
  r ← deref_resource resource
  find_entry (λ e. e.party_id == party_id) r.acl_entry_ids none

-- InMemClient.setAccess
unfoldable pub set_access : Ptr → Ptr → List Bool → Action Ptr
unfolding get_acl_entry_for_resource_id db_create_acl_entry set_permission_mask
set_access resource party mask = do
  found ← get_acl_entry_for_resource_id party resource
  elim found [
    | none ↦ db_create_acl_entry resource party mask
    | some e ↦ (do set_permission_mask e.id mask; pure e.id)
  ]

-- The loop of addAccess, which writes into the entry's own mask; the flag says that every index was
-- within the new mask.
unfoldable pub or_masks : List Bool → List Bool → List Bool × Bool
or_masks [] mask = ([], true)
or_masks (c ∷ cs) [] = (c ∷ cs, false)
or_masks (c ∷ cs) (m ∷ ms) = let rest = or_masks cs ms in ((c || m) ∷ rest.0, rest.1)

unfoldable pub add_to_mask : AclEntry → List Bool → Action Ptr
unfolding or_masks set_permission_mask
add_to_mask e mask = do
  mutate e.id
      (map_acl_entry (λ a. record a { permission_mask = (or_masks a.permission_mask mask).0 }))
  if (or_masks e.permission_mask mask).1
      then (do set_permission_mask e.id (or_masks e.permission_mask mask).0; pure e.id)
      else crash

-- InMemClient.addAccess
unfoldable pub add_access : Ptr → Ptr → List Bool → Action Ptr
unfolding get_acl_entry_for_resource_id db_create_acl_entry add_to_mask
add_access resource party mask = do
  found ← get_acl_entry_for_resource_id party resource
  elim found [ none ↦ db_create_acl_entry resource party mask | some e ↦ add_to_mask e mask ]

module _ (utilities : Utilities) where
  -- InMemClient.deleteACLEntryForParty, with InMemParty.deleteACLEntry.
  unfoldable pub delete_acl_entry_for_party : Ptr → AclEntry → Action (Unit {0})
  unfolding delete_object update_object
  delete_acl_entry_for_party party e = do
    mutate party
        (map_party (λ p. record p { acl_entry_ids = utilities.remove_from e.id p.acl_entry_ids }))
    delete_object e.id
    update_object party

  -- One round of the loop of deleteAccess.
  unfoldable pub delete_access_at : Ptr → Ptr → ℕ → Text → Action (Unit {0})
  unfolding get_acl_entry delete_acl_entry_for_party persistence_delete_object
  delete_access_at resource party index entry_id = do
    e ← get_acl_entry entry_id
    if e.party_id == party
        then (do
          guard (e.resource_id == resource) server_error
          delete_acl_entry_for_party party e
          mutate resource (
              map_resource
                (λ r. record r { acl_entry_ids = utilities.remove_at index r.acl_entry_ids }))
          persistence_delete_object e.id)
        else pure tt

  unfoldable pub delete_access_loop : Ptr → Ptr → ℕ → List Text → Action (Unit {0})
  unfolding delete_access_at
  delete_access_loop resource party index [] = pure tt
  delete_access_loop resource party index (id ∷ ids) = do
    delete_access_at resource party index id
    delete_access_loop resource party (index + 1) ids

  -- InMemClient.deleteAccess
  unfoldable pub delete_access : Ptr → Ptr → Action (Unit {0})
  unfolding deref_resource delete_access_loop update_object
  delete_access resource party = do
    r ← deref_resource resource
    delete_access_loop resource party 0 r.acl_entry_ids
    update_object resource

  -- One round of the loop of deleteAllAccessToResource.
  unfoldable pub delete_entry_of_party : Text → Action (Unit {0})
  unfolding get_acl_entry get_party delete_acl_entry_for_party update_object delete_object
  delete_entry_of_party entry_id = do
    e ← get_acl_entry entry_id
    p ← get_party e.party_id
    delete_acl_entry_for_party p.id e
    update_object p.id
    delete_object e.id

  -- InMemClient.deleteAllAccessToResource
  unfoldable pub delete_all_access_to_resource : Ptr → Action (Unit {0})
  unfolding deref_resource delete_entry_of_party update_object
  delete_all_access_to_resource resource = do
    r ← deref_resource resource
    for_each r.acl_entry_ids delete_entry_of_party
    mutate resource (map_resource (λ r. record r { acl_entry_ids = [] }))
    update_object resource
