-- ===== src/Auth/Rules.antt =====
-- The rules of access, as relations over what the store shows behind each id: UserMay, where an
-- entry counts for a resource and for what has that resource as its parent, and DocumentedMay, as the
-- comment in `authorized` (src/safeharbor/server/auth.go) and getLeafResources of
-- src/safeharbor/server/HandlerUtils.go have it, where an entry counts for all that belongs to the
-- resource: one for a realm also for what the realm's repos own. The code follows the first.
use safe_harbor_server.Base.{ℕ, Bool, true, none, some, List, ◌≡◌, ◌≢◌, get_elem?, contains}
use safe_harbor_server.Store.{
  Text, Party, User, AclEntry, Resource, Obj, Result, ok, acl_entry, as_party, as_resource,
  user_error,
}
use safe_harbor_server.Store.View.{fetch_as}
use safe_harbor_server.Auth.Masks.{find_action}

-- What is stored behind each id.
abbrev pub View : Type 0
View = Text → Result Obj

-- One of the listed ACL entries is for the resource and has the action's bit.
pub data Entitles (v : View) (action : ℕ) (resource_id : Text) (ids : List Text) : Type 0 where
  by_entry :
      (id : Text) (e : AclEntry)
      → contains id ids ≡ true
      → v id ≡ ok (acl_entry e)
      → e.resource_id ≡ resource_id
      → get_elem? e.permission_mask action ≡ some true
      → Entitles v action resource_id ids

-- A party may perform an action on a resource by its entries for the resource or for its parent.
pub data PartyMay (v : View) (action : ℕ) (p : Party) (r : Resource) : Type 0 where
  direct : Entitles v action r.id p.acl_entry_ids → PartyMay v action p r
  by_parent :
      (parent : Resource)
      → r.parent_id ≢ 0
      → fetch_as as_resource user_error (v r.parent_id) ≡ ok parent
      → Entitles v action parent.id p.acl_entry_ids
      → PartyMay v action p r

-- A user may use every capability on the own user object; on a resource, the one action that the
-- mask names, as the user or through a group.
pub data UserMay (v : View) (u : User) (mask : List Bool) (resource_id : Text) : Type 0 where
  own : u.id ≡ resource_id → UserMay v u mask resource_id
  as_self :
      (action : ℕ) (r : Resource)
      → find_action 0 none mask ≡ some (some action)
      → fetch_as as_resource user_error (v resource_id) ≡ ok r
      → PartyMay v action u.party r
      → UserMay v u mask resource_id
  through_group :
      (action : ℕ) (r : Resource) (group_id : Text) (g : Party)
      → find_action 0 none mask ≡ some (some action)
      → fetch_as as_resource user_error (v resource_id) ≡ ok r
      → contains group_id u.group_ids ≡ true
      → fetch_as as_party user_error (v group_id) ≡ ok g
      → PartyMay v action g r
      → UserMay v u mask resource_id

-- The resource belongs to the owner: its parent is the owner or belongs to it.
pub data BelongsTo (v : View) : Resource → Resource → Type 0 where
  child :
      (r o : Resource)
      → r.parent_id ≢ 0
      → fetch_as as_resource user_error (v r.parent_id) ≡ ok o
      → BelongsTo v r o
  descendant :
      (r p o : Resource)
      → r.parent_id ≢ 0
      → fetch_as as_resource user_error (v r.parent_id) ≡ ok p
      → BelongsTo v p o
      → BelongsTo v r o

-- The documented rule for a party: an entry for the resource, or for one that it belongs to.
pub data DocumentedPartyMay (v : View) (action : ℕ) (p : Party) (r : Resource) : Type 0 where
  for_itself : Entitles v action r.id p.acl_entry_ids → DocumentedPartyMay v action p r
  for_owner :
      (o : Resource)
      → BelongsTo v r o
      → Entitles v action o.id p.acl_entry_ids
      → DocumentedPartyMay v action p r

-- The documented rule for a user: the user may as the party that the user is, or through a group.
pub data DocumentedMay (v : View) (u : User) (mask : List Bool) (resource_id : Text) : Type 0 where
  own_object : u.id ≡ resource_id → DocumentedMay v u mask resource_id
  for_user :
      (action : ℕ) (r : Resource)
      → find_action 0 none mask ≡ some (some action)
      → fetch_as as_resource user_error (v resource_id) ≡ ok r
      → DocumentedPartyMay v action u.party r
      → DocumentedMay v u mask resource_id
  for_group :
      (action : ℕ) (r : Resource) (group_id : Text) (g : Party)
      → find_action 0 none mask ≡ some (some action)
      → fetch_as as_resource user_error (v resource_id) ≡ ok r
      → contains group_id u.group_ids ≡ true
      → fetch_as as_party user_error (v group_id) ≡ ok g
      → DocumentedPartyMay v action g r
      → DocumentedMay v u mask resource_id
