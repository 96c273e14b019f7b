-- ===== src/Store/Fresh.antt =====
-- Ids are given out in order and once: where no struct lies beyond the counter of ids, each new one
-- gets an id that none had. One rule for each way to build an action. The counter is a natural
-- number; the int64 of the code does not reach its end before 2 ^ 63 objects.
use safe_harbor_server.Base.{
  ◌⊎◌, inl, inr, ap, ◌∙◌, ◌==◌, ◌+◌, Bool-cases, ◌≤◌, ◌<◌, Bool, true, false, Option, none, some,
  List, [], ◌∷◌, ◌≡◌, refl, if◌then◌else◌, arith,
}
use safe_harbor_server.Store.Objects.{Text, Ptr, Obj}
use safe_harbor_server.Store.Monad.{
  Store, Fault, Result, ok, err, panic, Action, or_raise, or_crash, continue, ◌>>=◌, guard,
  for_each, mutate,
}
use safe_harbor_server.Store.Client.{
  decimal, new_object, deref, get_persistent_object, update_object, delete_object,
  persistence_delete_object, get_object, get_as,
}

-- No object lies beyond the last id that was given out.
abbrev pub IsFresh : Store → Type 0
IsFresh s = (id : Text) → decimal s.unique_id < id → s.heap id ≡ none

-- An id where there was no struct has none, or it was given out in between.
abbrev pub IsNewOrFree : Store → Store → Type 0
IsNewOrFree s t =
    (id : Text)
    → s.heap id ≡ none
    → (t.heap id ≡ none) ⊎ ((decimal s.unique_id < id) × (id ≤ decimal t.unique_id))

-- The one store comes after the other: ids only go up, every struct that is new lies under an id
-- beyond the former counter and not beyond the present one, and what is beyond stays free.
pub record Forward (s t : Store) : Type 0 where
  pub order : s.unique_id ≤ t.unique_id
  pub appears : IsNewOrFree s t
  pub fresh : IsFresh s → IsFresh t

pub record Advances {A : Type 0} (m : Action A) : Type 0 where
  pub at : (s : Store) → Forward s (m s).1

pub Forward-refl : (s : Store) → Forward s s
Forward-refl s = record { order = omega arith; appears = λ id free. inl free; fresh = λ h. h }

pub Forward-trans : (s t u : Store) → Forward s t → Forward t u → Forward s u
Forward-trans s t u h k = record {
  order = (let a = h.order in let b = k.order in omega arith);
  appears = λ id free. elim (h.appears id free) [
    | inl still ↦ elim (k.appears id still) [
      | inl yet ↦ inl yet
      | inr made ↦ inr (let a = h.order in let b = made.0 in omega arith, made.1)
    ]
    | inr made ↦ inr (made.0, let a = k.order in let b = made.1 in omega arith)
  ];
  fresh = λ f. k.fresh (h.fresh f);
}

pub Forward-same : (s t : Store) → t.heap ≡ s.heap → t.unique_id ≡ s.unique_id → Forward s t
Forward-same s t heap unique_id = record {
  order = omega arith;
  appears = λ id free. inl (ap (λ m. m id) heap ∙ free);
  fresh = λ f id beyond. ground (arith, f id);
}

continue-Forward :
    {A B : Type 0} (f : A → Action B) (s : Store) (r : Result A) (t : Store)
    → Forward s t
    → ((a : A) → Advances (f a))
    → Forward s (continue f (r, t)).1
continue-Forward f s (ok a) t h k = Forward-trans s t (f a t).1 h ((k a).at t)
continue-Forward f s (err e) t h k = h
continue-Forward f s panic t h k = h

pub Advances-bind :
    {A B : Type 0} (m : Action A) (f : A → Action B)
    → Advances m
    → ((a : A) → Advances (f a))
    → Advances (m >>= f)
Advances-bind m f h k = record { at = λ s. continue-Forward f s (m s).0 (m s).1 (h.at s) k }

module _ {A : Type 0} where
  -- An action that leaves the store.
  pub Advances-still : (r : Result A) → Advances (λ s. (r, s))
  Advances-still r = record { at = λ s. Forward-refl s }

  pub Advances-or_raise : (o : Option A) (e : Fault) → Advances (or_raise o e)
  Advances-or_raise none e = record { at = λ s. Forward-refl s }
  Advances-or_raise (some a) e = record { at = λ s. Forward-refl s }

  pub Advances-or_crash : (o : Option A) → Advances (or_crash o)
  Advances-or_crash none = record { at = λ s. Forward-refl s }
  Advances-or_crash (some a) = record { at = λ s. Forward-refl s }

  pub Advances-if :
      (b : Bool) (m n : Action A) → Advances m → Advances n → Advances (if b then m else n)
  Advances-if true m n h k = h
  Advances-if false m n h k = k

pub Advances-guard : (b : Bool) (e : Fault) → Advances (guard b e)
Advances-guard b e = record { at = λ s. Forward-refl s }

pub Advances-for_each :
    {A : Type 0} (xs : List A) (body : A → Action (Unit {0}))
    → ((x : A) → Advances (body x))
    → Advances (for_each xs body)
Advances-for_each [] body h = record { at = λ s. Forward-refl s }
Advances-for_each (x ∷ xs) body h = record {
  at = λ s.
      continue-Forward (λ _. for_each xs body) s (body x s).0 (body x s).1 ((h x).at s)
        (λ _. Advances-for_each xs body h);
}

pub Advances-mutate : (p : Ptr) (f : Obj → Obj) → Advances (mutate p f)
Advances-mutate p f = record {
  at = λ s. record {
    order = ground arith;
    appears = λ id free. inl (ground arith);
    fresh = λ free id beyond. ground (arith, free id, free p);
  };
}

pub Advances-new_object : (build : Text → Obj) → Advances (new_object build)
unfolding new_object
Advances-new_object build = record {
  at = λ s. record {
    order = omega arith;
    appears = λ id free. elim (Bool-cases (decimal (s.unique_id + 1) == id)) [
      | inl made ↦ inr (ground arith, ground arith)
      | inr other ↦ inl (ground arith)
    ];
    fresh = λ free id beyond. ground (arith, free id);
  };
}

pub Advances-deref : (p : Ptr) → Advances (deref p)
unfolding deref
Advances-deref p = record { at = λ s. (Advances-or_crash (s.heap p)).at s }

pub Advances-get : (id : Text) → Advances (get_persistent_object id)
unfolding get_persistent_object
Advances-get id = record { at = λ s. Forward-same s _ (ground arith) (ground arith) }

pub Advances-update_object : (p : Ptr) → Advances (update_object p)
unfolding update_object
Advances-update_object p = record { at = λ s. Forward-same s _ (ground arith) (ground arith) }

pub Advances-delete_object : (p : Ptr) → Advances (delete_object p)
unfolding delete_object
Advances-delete_object p = record { at = λ s. Forward-same s _ refl refl }

pub Advances-persistence_delete : (p : Ptr) → Advances (persistence_delete_object p)
unfolding persistence_delete_object
Advances-persistence_delete p = record { at = λ s. Forward-same s _ refl refl }

pub Advances-get_as :
    {A : Type 0} (cast : Obj → Option A) (e : Fault) (id : Text) → Advances (get_as cast e id)
unfolding get_object
Advances-get_as cast e id =
    Advances-bind (get_object id) (λ o. or_raise (cast o) e)
      (Advances-bind (get_persistent_object id) deref (Advances-get id) Advances-deref)
      (λ o. Advances-or_raise (cast o) e)

pub ruleset advance_rules = (
  Advances-bind, Advances-still, Advances-or_raise, Advances-or_crash, Advances-if, Advances-guard,
  Advances-for_each, Advances-mutate, Advances-new_object, Advances-deref, Advances-get,
  Advances-update_object, Advances-delete_object, Advances-persistence_delete, Advances-get_as,
)
