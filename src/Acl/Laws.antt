-- ===== src/Acl/Laws.antt =====
-- What setAccess does on its two branches: a change of the party's entry, or a new linked one.
use safe_harbor_server.Base.{
  ◌+◌, Bool, none, some, List, [], ◌∷◌, ◌≡◌, ◌≢◌, sym, ◌==◌, arith, Bool-cases, inl, inr,
}
use safe_harbor_server.Store.{
  Text, Store, Obj, Party, Resource, AclEntry, acl_entry, as_party, as_resource, map_acl_entry,
  decimal,
}
use safe_harbor_server.Store.Places.{IsAt, Quiet, IsAt-Quiet}
use safe_harbor_server.Store.Runs.{Runs, Runs-bind, Runs-pure, Runs-write, Wrote}
use safe_harbor_server.Acl.Entries.{set_permission_mask}
use safe_harbor_server.Acl.Access.{set_access, get_acl_entry_for_resource_id}
use safe_harbor_server.Acl.Create.{Linked, db_create_acl_entry_lem}
use safe_harbor_server.Acl.Find.{ids_of, AllAt, first, get_acl_entry_for_resource_id_lem}

-- The first entry that passes lies where its id leads.
pub first-IsAt :
    (test : AclEntry → Bool) (es : List AclEntry) (s : Store) (e : AclEntry)
    → AllAt s es
    → first test es ≡ some e
    → IsAt s e.id (acl_entry e)
first-IsAt test [] s e h found = ground arith
first-IsAt test (x ∷ es) s e h found = elim (Bool-cases (test x)) [
  | inl yes_ ↦ (let same : x ≡ e = ground arith in rw (sym same) h.0)
  | inr no_ ↦ first-IsAt test es s e h.1 (ground arith)
]

-- What a change of an entry's mask leaves.
pub record Changed (e : AclEntry) (mask : List Bool) (s t : Store) : Type 0 where
  pub entry : IsAt t e.id (acl_entry (record e { permission_mask = mask }))
  pub others : (j : Text) (x : Obj) → j ≢ e.id → IsAt s j x → IsAt t j x

module _ (r p : Text) (po : Obj) (pty : Party) (es : List AclEntry) (mask : List Bool)
    (is_party : as_party po ≡ some pty) (lists : pty.acl_entry_ids ≡ ids_of es) where
  -- Where a party, whose entries lie where their ids lead, has an entry for the resource, setAccess
  -- returns the first such entry, its mask replaced, and every other object that lies where its id
  -- leads stays there as it was.
  pub set_access_changes :
      (s : Store) (e : AclEntry)
      → IsAt s p po
      → AllAt s es
      → first (λ x. x.resource_id == r) es ≡ some e
      → Runs (set_access r p mask) s e.id (Changed e mask s)
  unfolding set_access set_permission_mask
  set_access_changes s e at_p all_at found =
      Runs-bind (get_acl_entry_for_resource_id p r) _ s (some e) e.id (Quiet s) _
        (rw (sym found)
          (get_acl_entry_for_resource_id_lem r p po pty es s at_p is_party lists all_at))
        λ t q.
          let at_e = IsAt-Quiet s t e.id (acl_entry e) q (first-IsAt _ es s e all_at found) in
          Runs-bind (set_permission_mask e.id mask) _ t tt e.id
            (Wrote t e.id (acl_entry (record e { permission_mask = mask }))) _
            (Runs-write e.id (acl_entry e)
              (map_acl_entry (λ a. record a { permission_mask = mask })) t at_e)
            λ u wrote. Runs-pure e.id u _ (record {
              entry = wrote.here;
              others = λ j x other at_j. wrote.others j x other (IsAt-Quiet s t j x q at_j);
            })

  -- Where a party, whose entries lie where their ids lead, has no entry for the resource, and both
  -- lie where theirs lead, apart from each other and from the next id, setAccess makes an entry
  -- under the next id, which the resource and the party then list last.
  pub set_access_creates :
      (s : Store) (ro : Obj) (res : Resource)
      → let n = decimal (s.unique_id + 1) in
        as_resource ro ≡ some res
        → IsAt s r ro
        → IsAt s p po
        → r ≢ p
        → r ≢ n
        → p ≢ n
        → AllAt s es
        → first (λ x. x.resource_id == r) es ≡ none
        → Runs (set_access r p mask) s n (Linked r p n ro po mask)
  unfolding set_access
  set_access_creates s ro res is_resource at_r at_p apart rn pn all_at found =
      let n = decimal (s.unique_id + 1) in
      Runs-bind (get_acl_entry_for_resource_id p r) _ s none n (Quiet s) _
        (rw (sym found)
          (get_acl_entry_for_resource_id_lem r p po pty es s at_p is_party lists all_at))
        λ t q.
          let same : decimal (t.unique_id + 1) ≡ n = ground (arith, q.unique_id) in
          rw (sym same) (
            db_create_acl_entry_lem r p ro po res pty mask is_resource is_party apart t
              (IsAt-Quiet s t r ro q at_r) (IsAt-Quiet s t p po q at_p) (rw same rn) (rw same pn))
