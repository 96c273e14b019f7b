-- ===== src/Acl/Entries.antt =====
-- ACL entries of src/safeharbor/server/InMemory.go: creation, with the links from the resource and
-- the party, and the change of a mask.
use safe_harbor_server.Base.{Bool, true, false, List, [], ◌∷◌, ◌++◌, ◌==◌, if◌then◌else◌}
use safe_harbor_server.Store.{
  Text, Ptr, acl_entry, as_party, as_resource, map_party, map_resource, map_acl_entry, server_error,
  Action, pure, or_raise, ◌>>=◌, ◌>>◌, guard, mutate, new_object, deref, get_persistent_object,
  update_object,
}

-- InMemACL.addACLEntry and InMemClient.addACLEntry
unfoldable pub add_acl_entry : Ptr → Text → Action (Unit {0})
unfolding update_object
add_acl_entry resource entry_id = do
  mutate resource
      (map_resource (λ r. record r { acl_entry_ids = r.acl_entry_ids ++ entry_id ∷ [] }))
  update_object resource

-- InMemParty.addACLEntry and InMemClient.addACLEntryForParty
unfoldable pub add_acl_entry_for_party : Ptr → Text → Action (Unit {0})
unfolding update_object
add_acl_entry_for_party party entry_id = do
  mutate party (map_party (λ p. record p { acl_entry_ids = p.acl_entry_ids ++ entry_id ∷ [] }))
  update_object party

-- InMemClient.NewInMemACLEntry
unfoldable pub new_acl_entry : Text → Text → List Bool → Action Ptr
unfolding new_object update_object
new_acl_entry resource_id party_id permission_mask = do
  e ← new_object (λ id. acl_entry (record {
    id = id;
    resource_id = resource_id;
    party_id = party_id;
    permission_mask = permission_mask;
  }))
  update_object e
  pure e

-- InMemClient.dbCreateACLEntry
unfoldable pub db_create_acl_entry : Text → Text → List Bool → Action Ptr
unfolding get_persistent_object deref new_acl_entry add_acl_entry add_acl_entry_for_party
db_create_acl_entry resource_id party_id permission_mask = do
  guard (if resource_id == 0 then false else true) server_error
  guard (if party_id == 0 then false else true) server_error
  rp ← get_persistent_object resource_id
  ro ← deref rp
  or_raise (as_resource ro) server_error
  pp ← get_persistent_object party_id
  po ← deref pp
  or_raise (as_party po) server_error
  e ← new_acl_entry resource_id party_id permission_mask
  add_acl_entry rp e
  add_acl_entry_for_party pp e
  pure e

-- InMemACLEntry.setPermissionMask
unfoldable pub set_permission_mask : Ptr → List Bool → Action (Unit {0})
unfolding update_object
set_permission_mask e mask = do
  mutate e (map_acl_entry (λ a. record a { permission_mask = mask }))
  update_object e
