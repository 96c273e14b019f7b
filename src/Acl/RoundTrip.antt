-- ===== src/Acl/RoundTrip.antt =====
-- What setAccess has set is what getACLEntryForResourceId finds.
use safe_harbor_server.Base.{
  Bool, some, List, [], ◌∷◌, ◌≡◌, ◌≢◌, refl, sym, ap, ◌∙◌, ◌==◌, if◌then◌else◌, arith, Bool-cases,
  ==_iff, inl, inr,
}
use safe_harbor_server.Store.{Text, Store, Obj, Party, AclEntry, acl_entry, as_party, ok, ◌>>◌}
use safe_harbor_server.Store.Places.{IsAt, IsAt-Quiet}
use safe_harbor_server.Store.Runs.{Runs, Runs-bind}
use safe_harbor_server.Acl.Access.{set_access, get_acl_entry_for_resource_id}
use safe_harbor_server.Acl.Find.{ids_of, AllAt, first, get_acl_entry_for_resource_id_lem}
use safe_harbor_server.Acl.Laws.{Changed, first-IsAt, set_access_changes}

abbrev with_mask : AclEntry → List Bool → AclEntry
with_mask e mask = record e { permission_mask = mask }

-- The entries, with the mask of one id replaced.
remasked : Text → List Bool → List AclEntry → List AclEntry
remasked k mask [] = []
remasked k mask (e ∷ es) = (if e.id == k then with_mask e mask else e) ∷ remasked k mask es

ids_of-remasked :
    (k : Text) (mask : List Bool) (es : List AclEntry) → ids_of (remasked k mask es) ≡ ids_of es
unfolding remasked
ids_of-remasked k mask [] = refl
ids_of-remasked k mask (e ∷ es) = ground (arith, ids_of-remasked k mask es)

-- One id leads to one entry.
same_entry :
    (s : Store) (x e : AclEntry)
    → IsAt s x.id (acl_entry x)
    → IsAt s e.id (acl_entry e)
    → x.id ≡ e.id
    → x ≡ e
same_entry s x e at_x at_e same = let there = at_x.there in let there' = at_e.there in ground arith

AllAt-remasked :
    (s t : Store) (e : AclEntry) (mask : List Bool) (es : List AclEntry)
    → IsAt s e.id (acl_entry e)
    → Changed e mask s t
    → AllAt s es
    → AllAt t (remasked e.id mask es)
unfolding remasked
AllAt-remasked s t e mask [] at_e changed h = tt
AllAt-remasked s t e mask (x ∷ es) at_e changed h =
    let rest = AllAt-remasked s t e mask es at_e changed h.1 in
    elim (Bool-cases (x.id == e.id)) [
      | inl here ↦
          let same = same_entry s x e h.0 at_e ((==_iff x.id e.id).0 here) in
          (rw here (rw same changed.entry), rest)
      | inr other ↦ (
        rw other (
            changed.others x.id (acl_entry x) (λ q. let b = (==_iff x.id e.id).1 q in cc (b, other))
              h.0),
        rest,
      )
    ]

first-remasked :
    (r : Text) (s : Store) (e : AclEntry) (mask : List Bool) (es : List AclEntry)
    → first (λ x. x.resource_id == r) es ≡ some e
    → first (λ x. x.resource_id == r) (remasked e.id mask es) ≡ some (with_mask e mask)
unfolding remasked
first-remasked r s e mask [] found = ground arith
first-remasked r s e mask (x ∷ es) found = ground (arith, first-remasked r s e mask es)

-- Where a party, whose entries lie where their ids lead, has an entry for the resource, the search
-- for it after setAccess finds that entry with the new mask, and the party object is as before.
pub set_then_get :
    (r p : Text) (po : Obj) (pty : Party) (es : List AclEntry) (mask : List Bool) (s : Store)
    (e : AclEntry)
    → as_party po ≡ some pty
    → pty.acl_entry_ids ≡ ids_of es
    → IsAt s p po
    → AllAt s es
    → first (λ x. x.resource_id == r) es ≡ some e
    → Runs
        (set_access r p mask >> get_acl_entry_for_resource_id p r)
        s
        (some (record e { permission_mask = mask }))
        (λ t. IsAt t p po)
set_then_get r p po pty es mask s e is_party lists at_p all_at found =
    let at_e = first-IsAt _ es s e all_at found in
    Runs-bind (set_access r p mask) _ s e.id (some (with_mask e mask)) (Changed e mask s) _
      (set_access_changes r p po pty es mask is_party lists s e at_p all_at found)
      λ t changed.
        let apart : p ≢ e.id = (λ q. let a = at_p.there in let b = at_e.there in ground arith) in
        let at_p' = changed.others p po apart at_p in
        let got =
          get_acl_entry_for_resource_id_lem r p po pty (remasked e.id mask es) t at_p' is_party
            (lists ∙ sym (ids_of-remasked e.id mask es))
            (AllAt-remasked s t e mask es at_e changed all_at) in
        record {
          result = got.result ∙ ap ok (first-remasked r s e mask es found);
          after = IsAt-Quiet t _ p po got.after at_p';
        }
