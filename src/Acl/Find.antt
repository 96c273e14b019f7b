-- ===== src/Acl/Find.antt =====
-- The search for a party's entry, over entries that are where their ids lead.
use safe_harbor_server.Base.{
  Bool, Option, none, some, List, [], ◌∷◌, ◌≡◌, refl, ◌==◌, if◌then◌else◌, Bool-cases, inl, inr,
}
use safe_harbor_server.Store.{
  Text, Store, Obj, Party, AclEntry, acl_entry, as_acl_entry, as_party, server_error, ok, or_crash,
  get_object, get_acl_entry, get_persistent_object, deref,
}
use safe_harbor_server.Store.Places.{IsAt, Quiet, Quiet-refl, Quiet-trans, IsAt-Quiet}
use safe_harbor_server.Store.Runs.{
  Runs, Runs-bind, Runs-pure, Runs-or_raise, Runs-or_crash, Runs-deref, Runs-get,
}
use safe_harbor_server.Acl.Access.{find_entry, get_acl_entry_for_resource_id, deref_party}

abbrev pub ids_of : List AclEntry → List Text
ids_of [] = []
ids_of (e ∷ es) = e.id ∷ ids_of es

-- Every entry lies under its own id.
abbrev pub AllAt : Store → List AclEntry → Type 0
AllAt s [] = Unit
AllAt s (e ∷ es) = IsAt s e.id (acl_entry e) × AllAt s es

-- The first entry that passes.
abbrev pub first : (AclEntry → Bool) → List AclEntry → Option AclEntry
first test [] = none
first test (e ∷ es) = if test e then some e else first test es

pub AllAt-Quiet : (s t : Store) (es : List AclEntry) → Quiet s t → AllAt s es → AllAt t es
AllAt-Quiet s t [] q h = tt
AllAt-Quiet s t (e ∷ es) q h = (IsAt-Quiet s t e.id (acl_entry e) q h.0, AllAt-Quiet s t es q h.1)

Runs-get_acl_entry :
    (e : AclEntry) (s : Store) → IsAt s e.id (acl_entry e) → Runs (get_acl_entry e.id) s e (Quiet s)
unfolding get_acl_entry get_object
Runs-get_acl_entry e s h =
    Runs-bind (get_object e.id) _ s (acl_entry e) e (Quiet s) _
      (Runs-bind (get_persistent_object e.id) deref s e.id (acl_entry e) (Quiet s) _
        (Runs-get e.id (acl_entry e) s h)
        λ t q. Runs-deref e.id (acl_entry e) t _ (IsAt-Quiet s t e.id (acl_entry e) q h) q)
      λ t q. Runs-or_raise (as_acl_entry (acl_entry e)) e server_error t _ refl q

find_entry-cons :
    (test : AclEntry → Bool) (id : Text) (ids : List Text) (s : Store) (e : AclEntry)
    → (get_acl_entry id s).0 ≡ ok e
    → find_entry test (id ∷ ids) none s ≡ (
        let t = (get_acl_entry id s).1 in
        if test e then (ok (some e), t) else find_entry test ids none t)
unfolding find_entry
find_entry-cons test id ids s e h = rw (find_entry, h)

Runs-find_entry :
    (test : AclEntry → Bool) (es : List AclEntry) (s : Store)
    → AllAt s es
    → Runs (find_entry test (ids_of es) none) s (first test es) (Quiet s)
Runs-find_entry test [] s h = unfold find_entry in Runs-pure none s _ (Quiet-refl s)
Runs-find_entry test (e ∷ es) s h =
    let got = Runs-get_acl_entry e s h.0 in
    let t = (get_acl_entry e.id s).1 in
    let rest = Runs-find_entry test es t (AllAt-Quiet s t es got.after h.1) in
    let step = find_entry-cons test e.id (ids_of es) s e got.result in
    elim (Bool-cases (test e)) [
      | inl yes_ ↦ rw yes_ (record { result = rw (step, yes_); after = rw (step, yes_) got.after })
      | inr no_ ↦ rw no_ (record {
        result = rw (step, no_) rest.result;
        after = rw (step, no_) (Quiet-trans s t _ got.after rest.after);
      })
    ]

pub Runs-deref_party :
    (p : Text) (po : Obj) (pty : Party) (s : Store)
    → IsAt s p po
    → as_party po ≡ some pty
    → Runs (deref_party p) s pty (λ t. t ≡ s)
unfolding deref_party
Runs-deref_party p po pty s at_p is_party =
    Runs-bind (deref p) (λ o. or_crash (as_party o)) s po pty (λ t. t ≡ s) _
      (Runs-deref p po s (λ t. t ≡ s) at_p refl)
      λ t e. Runs-or_crash (as_party po) pty t (λ u. u ≡ s) is_party e

-- Where a party and its entries lie where their ids lead, the search for its entry for a resource
-- returns the first one in its list, or none, and changes no more than the cached pointers.
pub get_acl_entry_for_resource_id_lem :
    (r p : Text) (po : Obj) (pty : Party) (es : List AclEntry) (s : Store)
    → IsAt s p po
    → as_party po ≡ some pty
    → pty.acl_entry_ids ≡ ids_of es
    → AllAt s es
    → Runs (get_acl_entry_for_resource_id p r) s (first (λ e. e.resource_id == r) es) (Quiet s)
unfolding get_acl_entry_for_resource_id
get_acl_entry_for_resource_id_lem r p po pty es s at_p is_party lists all_at =
    let test = λ (e : AclEntry). e.resource_id == r in
    Runs-bind (deref_party p) (λ x. find_entry test x.acl_entry_ids none) s pty (first test es)
      (λ t. t ≡ s) (Quiet s) (Runs-deref_party p po pty s at_p is_party)
      λ t e. rw (e, lists) (Runs-find_entry test es s all_at)
