-- ===== src/Contents/Names.antt =====
-- InMemRepo.addDockerfile and addFlag keep the names in a repo apart. The search by name against a
-- search in the list of the objects themselves.
use safe_harbor_server.Base.{
  Option, none, some, List, [], ◌∷◌, ◌++◌, ◌==◌, if◌then◌else◌, ◌≡◌, ◌≢◌, refl, sym, arith,
  Bool-cases, inl, inr,
}
use safe_harbor_server.Store.{
  Text, Ptr, Store, Fault, Obj, Repo, repo, as_repo, Action, or_crash, ◌>>=◌, deref, get_as,
}
use safe_harbor_server.Store.Places.{IsAt, Quiet, Quiet-refl, Quiet-trans, IsAt-Quiet}
use safe_harbor_server.Store.Runs.{Runs, Runs-bind, Runs-pure, Runs-or_crash, Runs-deref}
use safe_harbor_server.Store.Steps.{Runs-get_as}
use safe_harbor_server.Realms.Lookup.{deref_repo}
use safe_harbor_server.Contents.Find.{deref_as, first_named}

pub Runs-deref_as :
    {A : Type 0} (cast : Obj → Option A) (p : Text) (o : Obj) (a : A) (s : Store)
    → IsAt s p o
    → cast o ≡ some a
    → Runs (deref_as cast p) s a (Quiet s)
unfolding deref_as
Runs-deref_as cast p o a s h e =
    Runs-bind (deref p) (λ x. or_crash (cast x)) s o a (Quiet s) _
      (Runs-deref p o s _ h (Quiet-refl s)) λ t q. Runs-or_crash (cast o) a t _ e q

module _ {A : Type 0} (wrap : A → Obj) (name_of : A → Text) where
  -- The objects that lie under a list of ids.
  unfoldable pub Listed : Store → List Text → List A → Type 0
  Listed s [] [] = Unit
  Listed s (id ∷ ids) (a ∷ xs) = IsAt s id (wrap a) × Listed s ids xs
  Listed s _ _ = ⊥

  -- The first of these objects that has the name.
  abbrev pub named : Text → List A → Option A
  named name [] = none
  named name (a ∷ xs) = let rest = named name xs in if name_of a == name then some a else rest

  pub Listed-Quiet :
      (s t : Store) (ids : List Text) (xs : List A) → Quiet s t → Listed s ids xs → Listed t ids xs
  unfolding Listed
  Listed-Quiet s t [] [] q h = tt
  Listed-Quiet s t [] (a ∷ xs) q h = h
  Listed-Quiet s t (id ∷ ids) [] q h = h
  Listed-Quiet s t (id ∷ ids) (a ∷ xs) q h =
      (IsAt-Quiet s t id (wrap a) q h.0, Listed-Quiet s t ids xs q h.1)

  -- No two of the objects have the same name.
  abbrev pub Distinct : List A → Type 0
  Distinct [] = Unit
  Distinct (a ∷ xs) = (named (name_of a) xs ≡ none) × Distinct xs

  named-append :
      (name : Text) (xs : List A) (b : A)
      → named name xs ≡ none
      → name_of b ≢ name
      → named name (xs ++ b ∷ []) ≡ none
  named-append name [] b h ne = ground arith
  named-append name (a ∷ xs) b h ne = elim (Bool-cases (name_of a == name)) [
    | inl e ↦ absurd (ground arith)
    | inr e ↦ rw e (named-append name xs b (ground arith) ne)
  ]

  named-differs :
      (name : Text) (a : A) (xs : List A)
      → named name (a ∷ xs) ≡ none
      → (name_of a ≢ name) × (named name xs ≡ none)
  named-differs name a xs h = elim (Bool-cases (name_of a == name)) [
    | inl e ↦ absurd (ground arith)
    | inr e ↦ (ground arith, ground arith)
  ]

  pub Distinct-append :
      (xs : List A) (b : A) → Distinct xs → named (name_of b) xs ≡ none → Distinct (xs ++ b ∷ [])
  Distinct-append [] b h new = (refl, tt)
  Distinct-append (a ∷ xs) b h new =
      let both = named-differs (name_of b) a xs new in
      (named-append (name_of a) xs b h.0 (λ e. both.0 (sym e)), Distinct-append xs b h.1 both.1)

  module _ (cast : Obj → Option A) (inverse : (a : A) → cast (wrap a) ≡ some a)
      (fault : Fault) where
    pub Runs-first_named :
        (name : Text) (ids : List Text) (xs : List A) (s : Store)
        → Listed s ids xs
        → Runs (first_named (get_as cast fault) name_of name ids) s (named name xs) (Quiet s)
    unfolding Listed first_named
    Runs-first_named name [] [] s h = Runs-pure none s _ (Quiet-refl s)
    Runs-first_named name [] (a ∷ xs) s h = absurd h
    Runs-first_named name (id ∷ ids) [] s h = absurd h
    Runs-first_named name (id ∷ ids) (a ∷ xs) s h =
        Runs-bind (get_as cast fault id) _ s a (named name (a ∷ xs)) (Quiet s) _
          (Runs-get_as cast fault id (wrap a) a s h.0 (inverse a))
          λ t q. elim (Bool-cases (name_of a == name)) [
            | inl e ↦ rw e (Runs-pure (some a) t _ q)
            | inr e ↦
                (let more = Runs-first_named name ids xs t (Listed-Quiet s t ids xs q h.1) in
                  rw e (record { result = more.result; after = Quiet-trans s t _ q more.after }))
          ]

-- A repo as one of its lists is searched.
module _ {A : Type 0} (wrap : A → Obj) (name_of : A → Text) (cast : Obj → Option A)
    (inverse : (a : A) → cast (wrap a) ≡ some a) (fault : Fault) (list : Repo → List Text) where
  unfoldable pub search_of : Ptr → Text → Action (Option A)
  unfolding deref_repo
  search_of r name = do x ← deref_repo r; first_named (get_as cast fault) name_of name (list x)

  pub Runs-search :
      (r : Text) (x : Repo) (name : Text) (xs : List A) (s : Store)
      → IsAt s r (repo x)
      → Listed wrap name_of s (list x) xs
      → Runs (search_of r name) s (named wrap name_of name xs) (Quiet s)
  unfolding search_of deref_repo
  Runs-search r x name xs s at_r listed =
      Runs-bind (deref_repo r) _ s x _ (Quiet s) _
        (Runs-bind (deref r) (λ o. or_crash (as_repo o)) s (repo x) x (Quiet s) _
          (Runs-deref r (repo x) s _ at_r (Quiet-refl s))
          λ t q. Runs-or_crash (some x) x t _ refl q)
        λ t q.
          let found =
            Runs-first_named wrap name_of cast inverse fault name (list x) xs t
              (Listed-Quiet wrap name_of s t (list x) xs q listed) in
          record { result = found.result; after = Quiet-trans s t _ q found.after }
