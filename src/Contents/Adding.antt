-- ===== src/Contents/Adding.antt =====
-- InMemRepo.addDockerfile, addDockerImage, addScanConfig and addFlag: one shape, its rule, and the names
-- of what a repo lists.
use safe_harbor_server.Base.{
  true, Option, none, some, List, [], ◌∷◌, ◌++◌, ◌≡◌, ◌≢◌, refl, sym, ap, ◌∙◌, arith, Option-cases,
  inl, inr,
}
use mathlib.Core.Path.{subst}
use mathlib.Core.Option.{some-injective}
use safe_harbor_server.Store.{
  Text, Ptr, Store, Fault, user_error, server_error, ok, err, Result, continue, Obj, Repo,
  Dockerfile, Flag, repo, dockerfile, flag, as_dockerfile, as_flag, map_repo, Action, ◌>>=◌, ◌>>◌,
  guard, mutate, update_object,
}
use safe_harbor_server.Store.Places.{IsAt, Quiet, Quiet-trans, IsAt-Quiet}
use safe_harbor_server.Store.Runs.{Runs, Runs-bind, Runs-guard, Runs-write, Wrote}
use safe_harbor_server.Realms.Create.{is_none}
use safe_harbor_server.Contents.Find.{
  deref_as, get_dockerfile, get_dockerfile_by_name, get_flag, get_flag_by_name,
}
use safe_harbor_server.Contents.Create.{add_dockerfile, add_flag}
use safe_harbor_server.Contents.Names.{
  Listed, Listed-Quiet, named, Distinct, Distinct-append, search_of, Runs-search, Runs-deref_as,
}

Wrote-Quiet : (s t u : Store) (id : Text) (o : Obj) → Quiet s t → Wrote t id o u → Wrote s id o u
Wrote-Quiet s t u id o q w = record {
  here = w.here;
  unique_id = w.unique_id ∙ q.unique_id;
  others = λ j x other at_j. w.others j x other (IsAt-Quiet s t j x q at_j);
}

continue-fails :
    {A B : Type 0} (f : A → Action B) (s : Store) (a : A) (e : Fault) (r : Result A) (t : Store)
    → r ≡ ok a
    → ((f a t).0 ≡ err e) × Quiet s (f a t).1
    → ((continue f (r, t)).0 ≡ err e) × Quiet s (continue f (r, t)).1
continue-fails f s a e r t h k = rw h k

-- Two steps, the first of which goes well and the second of which fails.
pub Runs-fails :
    {A B : Type 0} (m : Action A) (f : A → Action B) (s : Store) (a : A) (e : Fault)
    → Runs m s a (Quiet s)
    → ((t : Store) → Quiet s t → ((f a t).0 ≡ err e) × Quiet s (f a t).1)
    → (((m >>= f) s).0 ≡ err e) × Quiet s ((m >>= f) s).1
Runs-fails m f s a e h k = continue-fails f s a e (m s).0 (m s).1 h.result (k (m s).1 h.after)

continue-stops :
    {A B : Type 0} (f : A → Action B) (s : Store) (e : Fault) (r : Result A) (t : Store)
    → r ≡ err e
    → Quiet s t
    → ((continue f (r, t)).0 ≡ err e) × Quiet s (continue f (r, t)).1
continue-stops f s e r t h q = rw h (refl, q)

-- Two steps, the first of which fails.
pub fails-first :
    {A B : Type 0} (m : Action A) (f : A → Action B) (s : Store) (e : Fault)
    → ((m s).0 ≡ err e) × Quiet s (m s).1
    → (((m >>= f) s).0 ≡ err e) × Quiet s ((m >>= f) s).1
fails-first m f s e h = continue-stops f s e (m s).0 (m s).1 h.0 h.1

-- The four operations, by the type of the object, the list of the repo and the way it grows.
module _ {A : Type 0} (wrap : A → Obj) (name_of : A → Text) (cast : Obj → Option A)
    (inverse : (a : A) → cast (wrap a) ≡ some a) (fault : Fault) (list : Repo → List Text)
    (grow : Repo → Ptr → Repo) where
  unfoldable add_to : Ptr → Ptr → Action (Unit {0})
  unfolding update_object
  add_to r p = do
    x ← deref_as cast p
    namesake ← search_of wrap name_of cast inverse fault list r (name_of x)
    guard (is_none namesake) user_error
    mutate r (map_repo (λ y. grow y p))
    update_object r

  Runs-add_to :
      (r p : Text) (x : Repo) (a : A) (xs : List A) (s : Store)
      → IsAt s r (repo x)
      → IsAt s p (wrap a)
      → Listed wrap name_of s (list x) xs
      → named wrap name_of (name_of a) xs ≡ none
      → Runs (add_to r p) s tt (Wrote s r (repo (grow x p)))
  unfolding add_to
  Runs-add_to r p x a xs s at_r at_p listed new =
      Runs-bind (deref_as cast p) _ s a tt (Quiet s) _
        (Runs-deref_as cast p (wrap a) a s at_p (inverse a))
        λ t q.
          Runs-bind (search_of wrap name_of cast inverse fault list r (name_of a)) _ t none tt
            (Quiet t) _
            (subst
              (λ o.
                Runs (search_of wrap name_of cast inverse fault list r (name_of a)) t o (Quiet t))
              new
              (Runs-search wrap name_of cast inverse fault list r x (name_of a) xs t
                (IsAt-Quiet s t r (repo x) q at_r)
                (Listed-Quiet wrap name_of s t (list x) xs q listed)))
            λ t1 q1.
              Runs-bind (guard true user_error)
                (λ _. mutate r (map_repo (λ y. grow y p)) >> update_object r) t1 tt tt (Quiet s) _
                (Runs-guard true user_error t1 _ refl (Quiet-trans s t t1 q q1))
                λ t2 q2.
                  let w =
                    Runs-write r (repo x) (map_repo (λ y. grow y p)) t2
                      (IsAt-Quiet s t2 r (repo x) q2 at_r) in
                  record { result = w.result; after = Wrote-Quiet s t2 _ r _ q2 w.after }

  add_to-taken :
      (r p : Text) (x : Repo) (a b : A) (xs : List A) (s : Store)
      → IsAt s r (repo x)
      → IsAt s p (wrap a)
      → Listed wrap name_of s (list x) xs
      → named wrap name_of (name_of a) xs ≡ some b
      → ((add_to r p s).0 ≡ err user_error) × Quiet s (add_to r p s).1
  unfolding add_to
  add_to-taken r p x a b xs s at_r at_p listed taken =
      Runs-fails (deref_as cast p) _ s a user_error
        (Runs-deref_as cast p (wrap a) a s at_p (inverse a))
        λ t q.
          let searched =
            Runs-search wrap name_of cast inverse fault list r x (name_of a) xs t
              (IsAt-Quiet s t r (repo x) q at_r)
              (Listed-Quiet wrap name_of s t (list x) xs q listed) in
          let both =
            Runs-fails (search_of wrap name_of cast inverse fault list r (name_of a)) _ t (some b)
              user_error
              (subst
                (λ o.
                  Runs (search_of wrap name_of cast inverse fault list r (name_of a)) t o (Quiet t))
                taken searched)
              λ t1 q1. (refl, q1) in
          (both.0, Quiet-trans s t _ q both.1)

  -- Where the type is not that of repos.
  module _ (other : (a : A) (x : Repo) → wrap a ≢ repo x) where
    differs :
        (s : Store) (r id : Text) (x : Repo) (a : A)
        → IsAt s r (repo x)
        → IsAt s id (wrap a)
        → id ≢ r
    differs s r id x a at_r at_id e =
        other a x (some-injective (wrap a) (repo x) (sym at_id.there ∙ ap s.heap e ∙ at_r.there))

    Listed-Wrote :
        (s u : Store) (r : Text) (x y : Repo) (ids : List Text) (xs : List A)
        → IsAt s r (repo x)
        → Wrote s r (repo y) u
        → Listed wrap name_of s ids xs
        → Listed wrap name_of u ids xs
    unfolding Listed
    Listed-Wrote s u r x y [] [] at_r w h = tt
    Listed-Wrote s u r x y [] (a ∷ xs) at_r w h = h
    Listed-Wrote s u r x y (id ∷ ids) [] at_r w h = h
    Listed-Wrote s u r x y (id ∷ ids) (a ∷ xs) at_r w h = (
      w.others id (wrap a) (differs s r id x a at_r h.0) h.0,
      Listed-Wrote s u r x y ids xs at_r w h.1,
    )

    Listed-append :
        (s : Store) (ids : List Text) (xs : List A) (p : Text) (a : A)
        → Listed wrap name_of s ids xs
        → IsAt s p (wrap a)
        → Listed wrap name_of s (ids ++ p ∷ []) (xs ++ a ∷ [])
    unfolding Listed
    Listed-append s [] [] p a h at_p = (at_p, tt)
    Listed-append s [] (b ∷ xs) p a h at_p = absurd h
    Listed-append s (id ∷ ids) [] p a h at_p = absurd h
    Listed-append s (id ∷ ids) (b ∷ xs) p a h at_p = (h.0, Listed-append s ids xs p a h.1 at_p)

    add_to-Distinct :
        (r p : Text) (x : Repo) (a : A) (xs : List A) (s : Store)
        → list (grow x p) ≡ list x ++ p ∷ []
        → IsAt s r (repo x)
        → IsAt s p (wrap a)
        → Listed wrap name_of s (list x) xs
        → Distinct wrap name_of xs
        → (add_to r p s).0 ≡ ok tt
        → let t = (add_to r p s).1 in
          IsAt t r (repo (grow x p))
          × (Listed wrap name_of t (list (grow x p)) (xs ++ a ∷ [])
              × Distinct wrap name_of (xs ++ a ∷ []))
    add_to-Distinct r p x a xs s grown at_r at_p listed distinct went =
        elim (Option-cases (named wrap name_of (name_of a) xs)) [
          | inl new ↦
              (let w = (Runs-add_to r p x a xs s at_r at_p listed new).after in
                (
                  w.here,
                  (
                    subst (λ ids. Listed wrap name_of (add_to r p s).1 ids (xs ++ a ∷ []))
                        (sym grown)
                        (Listed-append (add_to r p s).1 (list x) xs p a
                          (Listed-Wrote s _ r x (grow x p) (list x) xs at_r w listed)
                          (w.others p (wrap a) (differs s r p x a at_r at_p) at_p)),
                    Distinct-append wrap name_of xs a distinct new,
                  ),
                ))
          | inr taken ↦
              (let refused = (add_to-taken r p x a taken.0 xs s at_r at_p listed taken.1).0 in
                absurd (ground arith))
        ]

abbrev with_dockerfile : Repo → Ptr → Repo
with_dockerfile x p = record x { dockerfile_ids = x.dockerfile_ids ++ p ∷ [] }

-- The names of a repo's dockerfiles stay apart: where the repo lies at r and the dockerfile at p, and
-- the ones listed lie under their ids with different names, an addDockerfile that succeeds leaves the
-- repo with p at the end of its list, and the listed ones, the new one last, with different names.
pub add_dockerfile-Distinct :
    (r p : Text) (x : Repo) (d : Dockerfile) (ds : List Dockerfile) (s : Store)
    → IsAt s r (repo x)
    → IsAt s p (dockerfile d)
    → Listed dockerfile (λ d. d.name) s x.dockerfile_ids ds
    → Distinct dockerfile (λ d. d.name) ds
    → (add_dockerfile r p s).0 ≡ ok tt
    → let t = (add_dockerfile r p s).1 in
      IsAt t r (repo (record x { dockerfile_ids = x.dockerfile_ids ++ p ∷ [] }))
      × (Listed dockerfile (λ d. d.name) t (x.dockerfile_ids ++ p ∷ []) (ds ++ d ∷ [])
          × Distinct dockerfile (λ d. d.name) (ds ++ d ∷ []))
unfolding add_dockerfile get_dockerfile_by_name get_dockerfile add_to search_of
add_dockerfile-Distinct r p x d ds s at_r at_p listed distinct went =
    add_to-Distinct dockerfile (λ d. d.name) as_dockerfile (λ d. refl) user_error
      (λ x. x.dockerfile_ids) with_dockerfile (λ d x e. ground arith) r p x d ds s refl at_r at_p
      listed distinct went

abbrev with_flag : Repo → Ptr → Repo
with_flag x p = record x { flag_ids = x.flag_ids ++ p ∷ [] }

-- A flag whose name another one of the repo has is refused with a user error, and nothing but the
-- request's cache changes: where the repo lies at r, the flag at p, and the listed ones under their ids.
pub add_flag-taken :
    (r p : Text) (x : Repo) (f g : Flag) (fs : List Flag) (s : Store)
    → IsAt s r (repo x)
    → IsAt s p (flag f)
    → Listed flag (λ f. f.name) s x.flag_ids fs
    → named flag (λ f. f.name) f.name fs ≡ some g
    → ((add_flag r p s).0 ≡ err user_error) × Quiet s (add_flag r p s).1
unfolding add_flag get_flag_by_name get_flag add_to search_of
add_flag-taken r p x f g fs s at_r at_p listed taken =
    add_to-taken flag (λ f. f.name) as_flag (λ f. refl) server_error (λ x. x.flag_ids) with_flag r p
      x f g fs s at_r at_p listed taken
