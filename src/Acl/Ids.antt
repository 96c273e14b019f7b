-- ===== src/Acl/Ids.antt =====
-- The operations on ACL entries give out ids in order and once.
use safe_harbor_server.Base.{Bool, Option, none, some, List, [], ◌∷◌, ℕ, ◌+◌, Bool-cases, inl, inr}
use safe_harbor_server.Store.{Text, Ptr, AclEntry, Fault, pure, ◌>>◌, get_acl_entry, get_party}
use safe_harbor_server.Store.View.{Result-cases}
use safe_harbor_server.Store.Fresh.{
  Advances, Forward-refl, Forward-trans, advance_rules, Advances-bind,
}
use safe_harbor_server.Acl.Entries.{
  add_acl_entry, add_acl_entry_for_party, new_acl_entry, db_create_acl_entry, set_permission_mask,
}
use safe_harbor_server.Acl.Access.{
  find_entry, get_acl_entry_for_resource_id, add_to_mask, set_access, add_access, delete_access,
  delete_acl_entry_for_party, delete_access_at, delete_access_loop, delete_entry_of_party,
  delete_all_access_to_resource, deref_party, deref_resource,
}
use safe_harbor_server.Utilities.{Utilities}

Advances-set_permission_mask : (e : Ptr) (mask : List Bool) → Advances (set_permission_mask e mask)
unfolding set_permission_mask
Advances-set_permission_mask e mask = search advance_rules depth 24

Advances-db_create_acl_entry :
    (r p : Text) (mask : List Bool) → Advances (db_create_acl_entry r p mask)
unfolding db_create_acl_entry new_acl_entry add_acl_entry add_acl_entry_for_party
Advances-db_create_acl_entry r p mask = search advance_rules depth 24

Advances-get_acl_entry : (id : Text) → Advances (get_acl_entry id)
unfolding get_acl_entry
Advances-get_acl_entry id = search advance_rules

Advances-find_entry :
    (test : AclEntry → Bool) (ids : List Text) (last : Option Fault)
    → Advances (find_entry test ids last)
unfolding find_entry
Advances-find_entry test [] none = record { at = λ s. Forward-refl s }
Advances-find_entry test [] (some e) = record { at = λ s. Forward-refl s }
Advances-find_entry test (id ∷ ids) last = record {
  at = λ s.
      let t = (get_acl_entry id s).1 in
      let read = (Advances-get_acl_entry id).at s in
      elim (Result-cases (get_acl_entry id s).0) [
        | inl (e, found) ↦ elim (Bool-cases (test e)) [
          | inl yes_ ↦ rw (find_entry, found, yes_) read
          | inr no_ ↦
              rw (find_entry, found, no_)
                (Forward-trans s t _ read ((Advances-find_entry test ids none).at t))
        ]
        | inr (inl (e, failed)) ↦
            rw (find_entry, failed)
              (Forward-trans s t _ read ((Advances-find_entry test ids (some e)).at t))
        | inr (inr panicked) ↦ rw (find_entry, panicked) read
      ];
}

Advances-get_acl_entry_for_resource_id :
    (p : Ptr) (r : Text) → Advances (get_acl_entry_for_resource_id p r)
unfolding get_acl_entry_for_resource_id deref_party
Advances-get_acl_entry_for_resource_id p r = search (advance_rules, Advances-find_entry) depth 24

found_or_new :
    (o : Option AclEntry) (r p : Ptr) (mask : List Bool)
    → Advances (elim o [
      | none ↦ db_create_acl_entry r p mask
      | some e ↦ (do set_permission_mask e.id mask; pure e.id)
    ])
found_or_new none r p mask = Advances-db_create_acl_entry r p mask
found_or_new (some e) r p mask = search (advance_rules, Advances-set_permission_mask) depth 24

Advances-set_access : (r p : Ptr) (mask : List Bool) → Advances (set_access r p mask)
unfolding set_access
Advances-set_access r p mask =
    Advances-bind (get_acl_entry_for_resource_id p r) _ (Advances-get_acl_entry_for_resource_id p r)
      λ o. found_or_new o r p mask

added_or_new :
    (o : Option AclEntry) (r p : Ptr) (mask : List Bool)
    → Advances (elim o [ none ↦ db_create_acl_entry r p mask | some e ↦ add_to_mask e mask ])
unfolding add_to_mask
added_or_new none r p mask = Advances-db_create_acl_entry r p mask
added_or_new (some e) r p mask = search (advance_rules, Advances-set_permission_mask) depth 24

Advances-add_access : (r p : Ptr) (mask : List Bool) → Advances (add_access r p mask)
unfolding add_access
Advances-add_access r p mask =
    Advances-bind (get_acl_entry_for_resource_id p r) _ (Advances-get_acl_entry_for_resource_id p r)
      λ o. added_or_new o r p mask

module _ (utilities : Utilities) where
  Advances-delete_acl_entry_for_party :
      (p : Ptr) (e : AclEntry) → Advances (delete_acl_entry_for_party utilities p e)
  unfolding delete_acl_entry_for_party
  Advances-delete_acl_entry_for_party p e = search advance_rules depth 24

  Advances-delete_access_at :
      (r p : Ptr) (index : ℕ) (id : Text) → Advances (delete_access_at utilities r p index id)
  unfolding delete_access_at
  Advances-delete_access_at r p index id =
      search (advance_rules, Advances-delete_acl_entry_for_party) depth 24

  Advances-delete_access_loop :
      (r p : Ptr) (index : ℕ) (ids : List Text)
      → Advances (delete_access_loop utilities r p index ids)
  unfolding delete_access_loop
  Advances-delete_access_loop r p index [] = record { at = λ s. Forward-refl s }
  Advances-delete_access_loop r p index (id ∷ ids) =
      Advances-bind (delete_access_at utilities r p index id) _
        (Advances-delete_access_at r p index id)
        λ u. Advances-delete_access_loop r p (index + 1) ids

  Advances-delete_access : (r p : Ptr) → Advances (delete_access utilities r p)
  unfolding delete_access deref_resource
  Advances-delete_access r p = search (advance_rules, Advances-delete_access_loop) depth 24

  Advances-delete_entry_of_party : (id : Text) → Advances (delete_entry_of_party utilities id)
  unfolding delete_entry_of_party get_party
  Advances-delete_entry_of_party id =
      search (advance_rules, Advances-delete_acl_entry_for_party) depth 24

  Advances-delete_all_access : (r : Ptr) → Advances (delete_all_access_to_resource utilities r)
  unfolding delete_all_access_to_resource deref_resource
  Advances-delete_all_access r = search (advance_rules, Advances-delete_entry_of_party) depth 24

-- setAccess, addAccess, deleteAccess and deleteAllAccessToResource, whatever their outcome, leave
-- the counter of ids where it was or further on; every struct that they make where there was none
-- lies under an id beyond the counter as they found it and not beyond the counter as they leave it,
-- so that no two of these runs in turn make a struct under the same id; and if there was no struct
-- beyond the counter, then there is none afterwards. The counter is taken not to overflow.
pub Advances-access_operations :
    (utilities : Utilities) (r p : Ptr) (mask : List Bool)
    → Advances (set_access r p mask)
      × Advances (add_access r p mask)
      × Advances (delete_access utilities r p)
      × Advances (delete_all_access_to_resource utilities r)
Advances-access_operations utilities r p mask = (
  Advances-set_access r p mask,
  Advances-add_access r p mask,
  Advances-delete_access utilities r p,
  Advances-delete_all_access utilities r,
)
