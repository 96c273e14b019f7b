-- ===== src/Store/Runs.antt =====
-- Runs of an action that go well: the result, and what holds of the store afterwards.
use safe_harbor_server.Base.{◌+◌, Bool, true, Option, some, ◌≡◌, ◌≢◌, refl}
use safe_harbor_server.Store.Objects.{Text, Ptr, Obj}
use safe_harbor_server.Store.Monad.{
  Store, Fault, Result, ok, Action, pure, guard, or_raise, or_crash, mutate, continue, ◌>>=◌, ◌>>◌,
}
use safe_harbor_server.Store.Client.{
  get_persistent_object, deref, update_object, new_object, decimal,
}
use safe_harbor_server.Store.Places.{
  IsAt, Quiet, get_persistent_object-Quiet, get_persistent_object_at, write-IsAt, new-IsAt,
}

pub record Runs {A : Type 0} (m : Action A) (s : Store) (a : A) (Q : Store → Type 0) : Type 0 where
  pub result : (m s).0 ≡ ok a
  pub after : Q (m s).1

continue-Runs :
    {A B : Type 0} (f : A → Action B) (a : A) (b : B) (r : Result A) (t : Store)
    (R : Store → Type 0)
    → r ≡ ok a
    → Runs (f a) t b R
    → ((continue f (r, t)).0 ≡ ok b) × R (continue f (r, t)).1
continue-Runs f a b r t R e h = rw e (h.result, h.after)

-- The rule for two steps in turn.
pub Runs-bind :
    {A B : Type 0} (m : Action A) (f : A → Action B) (s : Store) (a : A) (b : B)
    (Q R : Store → Type 0)
    → Runs m s a Q
    → ((t : Store) → Q t → Runs (f a) t b R)
    → Runs (m >>= f) s b R
Runs-bind m f s a b Q R h k =
    let both = continue-Runs f a b (m s).0 (m s).1 R h.result (k (m s).1 h.after) in
    record { result = both.0; after = both.1 }

pub Runs-pure : {A : Type 0} (a : A) (s : Store) (Q : Store → Type 0) → Q s → Runs (pure a) s a Q
Runs-pure a s Q h = record { result = refl; after = h }

pub Runs-guard :
    (b : Bool) (e : Fault) (s : Store) (Q : Store → Type 0)
    → b ≡ true
    → Q s
    → Runs (guard b e) s tt Q
Runs-guard b e s Q yes_ h = record { result = rw yes_; after = h }

pub Runs-or_raise :
    {A : Type 0} (o : Option A) (a : A) (e : Fault) (s : Store) (Q : Store → Type 0)
    → o ≡ some a
    → Q s
    → Runs (or_raise o e) s a Q
Runs-or_raise o a e s Q found h = rw found (record { result = refl; after = h })

pub Runs-or_crash :
    {A : Type 0} (o : Option A) (a : A) (s : Store) (Q : Store → Type 0)
    → o ≡ some a
    → Q s
    → Runs (or_crash o) s a Q
Runs-or_crash o a s Q found h = rw found (record { result = refl; after = h })

pub Runs-deref :
    (p : Ptr) (o : Obj) (s : Store) (Q : Store → Type 0) → IsAt s p o → Q s → Runs (deref p) s o Q
unfolding deref
Runs-deref p o s Q at_p h =
    let r = Runs-or_crash (s.heap p) o s Q at_p.there h in
    record { result = r.result; after = r.after }

-- Reading an object that is there.
pub Runs-get :
    (id : Text) (o : Obj) (s : Store) → IsAt s id o → Runs (get_persistent_object id) s id (Quiet s)
Runs-get id o s h = record {
  result = get_persistent_object_at s id o h;
  after = get_persistent_object-Quiet id s;
}

-- What a write through a pointer, written back, leaves.
pub record Wrote (s : Store) (id : Text) (o : Obj) (t : Store) : Type 0 where
  pub here : IsAt t id o
  pub unique_id : t.unique_id ≡ s.unique_id
  pub others : (j : Text) (x : Obj) → j ≢ id → IsAt s j x → IsAt t j x

pub Runs-write :
    (id : Text) (o : Obj) (f : Obj → Obj) (s : Store)
    → IsAt s id o
    → Runs (mutate id f >> update_object id) s tt (Wrote s id (f o))
Runs-write id o f s h =
    let w = write-IsAt s id o f h in
    Runs-bind (mutate id f) (λ _. update_object id) s tt tt (λ t. t ≡ (mutate id f s).1) _
      (record { result = w.0; after = refl })
      λ t e.
        rw e (record { result = w.1; after = record { here = w.2; unique_id = w.3; others = w.4 } })

-- What a new object, written back, leaves.
pub record Made (s : Store) (id : Text) (o : Obj) (t : Store) : Type 0 where
  pub here : IsAt t id o
  pub others : (j : Text) (x : Obj) → j ≢ id → IsAt s j x → IsAt t j x

abbrev made_by : (Text → Obj) → Action Ptr
made_by build = do p ← new_object build; update_object p; pure p

pub Runs-make :
    (build : Text → Obj) (s : Store)
    → let id = decimal (s.unique_id + 1) in Runs (made_by build) s id (Made s id (build id))
Runs-make build s =
    let id = decimal (s.unique_id + 1) in
    let w = new-IsAt s build in
    Runs-bind (new_object build) (λ p. update_object p >> pure p) s id id
      (λ t. t ≡ (new_object build s).1) _ (record { result = w.0; after = refl })
      λ t e. rw e (
        Runs-bind (update_object id) (λ _. pure id) (new_object build s).1 tt id
          (Made s id (build id)) _
          (record { result = w.1; after = record { here = w.2; others = w.3 } })
          λ u made. Runs-pure id u _ made)
