-- ===== src/Store/Steps.antt =====
-- More steps that go well: typed reads, an error that is caught, a write and the writing back.
use safe_harbor_server.Base.{Option, some, ◌≡◌, refl, arith}
use safe_harbor_server.Store.Objects.{Text, Obj}
use safe_harbor_server.Store.Monad.{
  Store, Fault, Result, ok, Action, attempt, caught, or_raise, mutate,
}
use safe_harbor_server.Store.Client.{
  get_persistent_object, get_object, get_as, deref, update_object,
}
use safe_harbor_server.Store.Places.{IsAt, Quiet, IsAt-Quiet, pointer}
use safe_harbor_server.Store.Runs.{Runs, Runs-bind, Runs-or_raise, Runs-deref, Runs-get, Wrote}

pub Runs-get_as :
    {A : Type 0} (cast : Obj → Option A) (e : Fault) (id : Text) (o : Obj) (a : A) (s : Store)
    → IsAt s id o
    → cast o ≡ some a
    → Runs (get_as cast e id) s a (Quiet s)
unfolding get_object
Runs-get_as cast e id o a s h is_a =
    Runs-bind (get_object id) (λ x. or_raise (cast x) e) s o a (Quiet s) _
      (Runs-bind (get_persistent_object id) deref s id o (Quiet s) _ (Runs-get id o s h)
        λ t q. Runs-deref id o t _ (IsAt-Quiet s t id o q h) q)
      λ t q. Runs-or_raise (cast o) a e t _ is_a q

caught-Runs :
    {A : Type 0} (r : Result A) (t : Store) (a : A)
    → r ≡ ok a
    → ((caught (r, t)).0 ≡ ok (some a)) × ((caught (r, t)).1 ≡ t)
caught-Runs r t a e = rw e (refl, refl)

pub Runs-attempt :
    {A : Type 0} (m : Action A) (s : Store) (a : A) (Q : Store → Type 0)
    → Runs m s a Q
    → Runs (attempt m) s (some a) Q
Runs-attempt m s a Q h =
    let both = caught-Runs (m s).0 (m s).1 a h.result in
    record { result = both.0; after = rw both.1 h.after }

pub Runs-mutate :
    (id : Text) (o : Obj) (f : Obj → Obj) (s : Store)
    → IsAt s id o
    → Runs (mutate id f) s tt (Wrote s id (f o))
unfolding pointer
Runs-mutate id o f s h = record {
  result = ground arith;
  after = record {
    here = record { is_set = h.is_set; points = ground arith; there = ground arith };
    unique_id = ground arith;
    others = λ j x other at_j. record {
      is_set = at_j.is_set;
      points = ground arith;
      there = ground arith;
    };
  };
}

pub Runs-update :
    (id : Text) (o : Obj) (s : Store) → IsAt s id o → Runs (update_object id) s tt (Wrote s id o)
unfolding update_object pointer
Runs-update id o s h = record {
  result = ground arith;
  after = record {
    here = record { is_set = h.is_set; points = ground arith; there = ground arith };
    unique_id = ground arith;
    others = λ j x other at_j. record {
      is_set = at_j.is_set;
      points = ground arith;
      there = ground arith;
    };
  };
}
