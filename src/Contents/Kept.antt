-- ===== src/Contents/Kept.antt =====
-- InMemRepo.deleteDockerfile leaves every repo's list of dockerfiles as it is. One rule for each way to
-- build an action.
use safe_harbor_server.Base.{
  Option, none, some, List, [], ◌∷◌, ◌≡◌, refl, ap, ◌∙◌, arith, ◌==◌, Bool-cases, inl, inr,
}
use safe_harbor_server.Store.{
  Text, Ptr, Store, Fault, ok, err, panic, Result, continue, caught, Obj, Party, Resource, Repo,
  DockerfileExecEvent, repo, map_party, map_resource, map_dockerfile_exec_event, Action, or_raise,
  or_crash, ◌>>=◌, for_each, mutate, attempt, deref, get_persistent_object, get_object, get_as,
  update_object, delete_object, get_acl_entry, get_party,
}
use safe_harbor_server.Utilities.{Utilities}
use safe_harbor_server.Acl.Access.{
  delete_acl_entry_for_party, delete_entry_of_party, delete_all_access_to_resource,
}
use safe_harbor_server.Acl.Access.{deref_resource}
use safe_harbor_server.Contents.Find.{deref_as, get_event}
use safe_harbor_server.Contents.Link.{nullify_dockerfile}
use safe_harbor_server.Contents.Remove.{forget_dockerfile, delete_dockerfile}

-- Every repo of the first store is there in the second, with the same list of dockerfiles.
abbrev pub SameLists : Store → Store → Type 0
SameLists s t =
    (r : Ptr) (x : Repo)
    → s.heap r ≡ some (repo x)
    → (y : Repo) × ((t.heap r ≡ some (repo y)) × (y.dockerfile_ids ≡ x.dockerfile_ids))

record Keeps {A : Type 0} (m : Action A) : Type 0 where
  at : (s : Store) → SameLists s (m s).1

SameLists-refl : (s : Store) → SameLists s s
SameLists-refl s r x h = (x, (h, refl))

SameLists-trans : (s t u : Store) → SameLists s t → SameLists t u → SameLists s u
SameLists-trans s t u h k r x e =
    let a = h r x e in let b = k r a.0 a.1.0 in (b.0, (b.1.0, b.1.1 ∙ a.1.1))

SameLists-heap : (s t : Store) → t.heap ≡ s.heap → SameLists s t
SameLists-heap s t e r x h = (x, (ap (λ heap. heap r) e ∙ h, refl))

continue-SameLists :
    {A B : Type 0} (f : A → Action B) (s : Store) (r : Result A) (t : Store)
    → SameLists s t
    → ((a : A) → Keeps (f a))
    → SameLists s (continue f (r, t)).1
continue-SameLists f s (ok a) t h k = SameLists-trans s t (f a t).1 h ((k a).at t)
continue-SameLists f s (err e) t h k = h
continue-SameLists f s panic t h k = h

Keeps-bind :
    {A B : Type 0} (m : Action A) (f : A → Action B)
    → Keeps m
    → ((a : A) → Keeps (f a))
    → Keeps (m >>= f)
Keeps-bind m f h k = record { at = λ s. continue-SameLists f s (m s).0 (m s).1 (h.at s) k }

Keeps-still : {A : Type 0} (r : Result A) → Keeps (λ s. (r, s))
Keeps-still r = record { at = SameLists-refl }

Keeps-or_raise : {A : Type 0} (o : Option A) (e : Fault) → Keeps (or_raise o e)
Keeps-or_raise none e = record { at = SameLists-refl }
Keeps-or_raise (some a) e = record { at = SameLists-refl }

Keeps-or_crash : {A : Type 0} (o : Option A) → Keeps (or_crash o)
Keeps-or_crash none = record { at = SameLists-refl }
Keeps-or_crash (some a) = record { at = SameLists-refl }

caught-SameLists :
    {A : Type 0} (s : Store) (r : Result A) (t : Store)
    → SameLists s t
    → SameLists s (caught (r, t)).1
caught-SameLists s (ok a) t h = h
caught-SameLists s (err e) t h = h
caught-SameLists s panic t h = h

Keeps-attempt : {A : Type 0} (m : Action A) → Keeps m → Keeps (attempt m)
Keeps-attempt m h = record { at = λ s. caught-SameLists s (m s).0 (m s).1 (h.at s) }

Keeps-for_each :
    {A : Type 0} (xs : List A) (body : A → Action (Unit {0}))
    → ((x : A) → Keeps (body x))
    → Keeps (for_each xs body)
Keeps-for_each [] body h = record { at = SameLists-refl }
Keeps-for_each (x ∷ xs) body h = record {
  at = λ s.
      continue-SameLists (λ _. for_each xs body) s (body x s).0 (body x s).1 ((h x).at s)
        (λ _. Keeps-for_each xs body h);
}

-- A write through a pointer that leaves the list of a repo.
SameLists-mutate :
    (p : Ptr) (f : Obj → Obj)
    → ((x : Repo) → (y : Repo) × ((f (repo x) ≡ repo y) × (y.dockerfile_ids ≡ x.dockerfile_ids)))
    → (s : Store) → SameLists s (mutate p f s).1
SameLists-mutate p f h s r x e =
    let y = h x in
    elim (Bool-cases (p == r)) [
      | inl same ↦
          (let here : (mutate p f s).1.heap r ≡ some (f (repo x)) = ground arith in
            (y.0, (here ∙ ap some y.1.0, y.1.1)))
      | inr other ↦ (x, (ground arith, refl))
    ]

Keeps-mutate_party : (p : Ptr) (f : Party → Party) → Keeps (mutate p (map_party f))
Keeps-mutate_party p f = record { at = SameLists-mutate p (map_party f) (λ x. (x, (refl, refl))) }

Keeps-mutate_resource : (p : Ptr) (f : Resource → Resource) → Keeps (mutate p (map_resource f))
Keeps-mutate_resource p f = record {
  at =
      SameLists-mutate p (map_resource f)
        (λ x. (record x { resource = f x.resource }, (refl, refl)));
}

Keeps-mutate_event :
    (p : Ptr) (f : DockerfileExecEvent → DockerfileExecEvent)
    → Keeps (mutate p (map_dockerfile_exec_event f))
Keeps-mutate_event p f = record {
  at = SameLists-mutate p (map_dockerfile_exec_event f) (λ x. (x, (refl, refl)));
}

Keeps-deref : (p : Ptr) → Keeps (deref p)
unfolding deref
Keeps-deref p = record { at = λ s. (Keeps-or_crash (s.heap p)).at s }

Keeps-update_object : (p : Ptr) → Keeps (update_object p)
unfolding update_object
Keeps-update_object p = record { at = λ s. SameLists-heap s (update_object p s).1 (ground arith) }

Keeps-delete_object : (p : Ptr) → Keeps (delete_object p)
unfolding delete_object
Keeps-delete_object p = record { at = λ s. SameLists-heap s (delete_object p s).1 refl }

Keeps-get : (id : Text) → Keeps (get_persistent_object id)
unfolding get_persistent_object
Keeps-get id = record { at = λ s. SameLists-heap s (get_persistent_object id s).1 (ground arith) }

Keeps-get_as :
    {A : Type 0} (cast : Obj → Option A) (e : Fault) (id : Text) → Keeps (get_as cast e id)
unfolding get_object
Keeps-get_as cast e id =
    Keeps-bind (get_object id) (λ o. or_raise (cast o) e)
      (Keeps-bind (get_persistent_object id) deref (Keeps-get id) Keeps-deref)
      (λ o. Keeps-or_raise (cast o) e)

ruleset keep_rules = (
  Keeps-bind, Keeps-still, Keeps-or_raise, Keeps-or_crash, Keeps-attempt, Keeps-for_each,
  Keeps-mutate_party, Keeps-mutate_resource, Keeps-mutate_event, Keeps-deref, Keeps-update_object,
  Keeps-delete_object, Keeps-get_as,
)

module _ (utilities : Utilities) where
  Keeps-delete_entry_of_party : (id : Text) → Keeps (delete_entry_of_party utilities id)
  unfolding delete_entry_of_party get_acl_entry get_party delete_acl_entry_for_party
  Keeps-delete_entry_of_party id = search keep_rules depth 24

  Keeps-delete_all_access : (p : Ptr) → Keeps (delete_all_access_to_resource utilities p)
  unfolding delete_all_access_to_resource deref_resource
  Keeps-delete_all_access p = search (keep_rules, Keeps-delete_entry_of_party) depth 24

  Keeps-delete_dockerfile : (d : Ptr) → Keeps (delete_dockerfile utilities d)
  unfolding delete_dockerfile forget_dockerfile deref_as get_event nullify_dockerfile
  Keeps-delete_dockerfile d = search (keep_rules, Keeps-delete_all_access) depth 24

  -- A dockerfile that is deleted stays listed: in every store, whatever the outcome of
  -- deleteDockerfile, every repo is still there with the same list of dockerfiles.
  pub delete_dockerfile-SameLists :
      (d : Ptr) (s : Store) → SameLists s (delete_dockerfile utilities d s).1
  delete_dockerfile-SameLists d s = (Keeps-delete_dockerfile d).at s
