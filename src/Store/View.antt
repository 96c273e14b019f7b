-- ===== src/Store/View.antt =====
-- What the store holds behind an id, whether the request has cached it or not, and actions that
-- leave that as it is.
use safe_harbor_server.Base.{
  Option, none, some, ◌≡◌, refl, sym, ap, ◌∙◌, ◌==◌, if◌then◌else◌, arith, ◌⊎◌, inl, inr,
}
use safe_harbor_server.Store.Objects.{Text, Obj}
use safe_harbor_server.Store.Monad.{
  Store, Fault, user_error, server_error, Result, ok, err, panic, Action, or_raise, or_crash, ◌>>=◌,
  continue,
}
use safe_harbor_server.Store.Client.{get_object, get_as}

-- To split on a computed result and keep the equation.
pub Result-cases :
    {A : Type 0} (r : Result A)
    → ((a : A) × (r ≡ ok a)) ⊎ (((e : Fault) × (r ≡ err e)) ⊎ (r ≡ panic))
Result-cases (ok a) = inl (a, refl)
Result-cases (err e) = inr (inl (e, refl))
Result-cases panic = inr (inr refl)

module _ {A B : Type 0} where
  -- The results of two steps in turn.
  abbrev pub and_then : Result A → (A → Result B) → Result B
  and_then (ok a) f = f a
  and_then (err e) f = err e
  and_then panic f = panic

abbrev pub or_fault : {A : Type 0} → Option A → Fault → Result A
or_fault none e = err e
or_fault (some a) e = ok a

abbrev pub or_panic : {A : Type 0} → Option A → Result A
or_panic none = panic
or_panic (some a) = ok a

-- The object behind an id: the cached one, else the stored one.
unfoldable pub fetch : Store → Text → Result Obj
fetch s id =
    if id == 0
    then err server_error
    else if s.objects_cache id == 0
    then (if s.all_objects id == 0 then err user_error else or_panic (s.heap (s.all_objects id)))
    else or_panic (s.heap (s.objects_cache id))

abbrev pub fetch_as : {A : Type 0} → (Obj → Option A) → Fault → Result Obj → Result A
fetch_as cast fault r = and_then r (λ o. or_fault (cast o) fault)

abbrev pub SameView : Store → Store → Type 0
SameView s s' = (id : Text) → fetch s' id ≡ fetch s id

pub SameView-trans : (s t u : Store) → SameView s t → SameView t u → SameView s u
SameView-trans s t u h k id = k id ∙ h id

-- An action that gives this result and shows the same objects afterwards.
pub record Reads {A : Type 0} (m : Action A) (r : Result A) (s : Store) : Type 0 where
  pub result : (m s).0 ≡ r
  pub view : SameView s (m s).1

pub Reads-pure : {A : Type 0} (r : Result A) (s : Store) → Reads (λ s'. (r, s')) r s
Reads-pure r s = record { result = refl; view = λ id. refl }

continue-Reads :
    {A B : Type 0} (f : A → Action B) (g : A → Result B) (s s' : Store) (q r : Result A)
    → q ≡ r
    → SameView s s'
    → ((a : A) (t : Store) → SameView s t → r ≡ ok a → Reads (f a) (g a) t)
    → ((continue f (q, s')).0 ≡ and_then r g) × SameView s (continue f (q, s')).1
continue-Reads f g s s' (ok a) r e same h =
    let after = h a s' same (sym e) in
    (after.result ∙ ap (λ x. and_then x g) e, λ id. after.view id ∙ same id)
continue-Reads f g s s' (err x) r e same h = (ap (λ y. and_then y g) e, same)
continue-Reads f g s s' panic r e same h = (ap (λ y. and_then y g) e, same)

-- The rule for two steps in turn.
pub Reads-bind :
    {A B : Type 0} (m : Action A) (f : A → Action B) (r : Result A) (g : A → Result B) (s : Store)
    → Reads m r s
    → ((a : A) (t : Store) → SameView s t → r ≡ ok a → Reads (f a) (g a) t)
    → Reads (m >>= f) (and_then r g) s
Reads-bind m f r g s h k =
    let both = continue-Reads f g s (m s).1 (m s).0 r h.result h.view k in
    record { result = both.0; view = both.1 }

-- Reading an object changes no more than the request's cache.
pub get_object-Reads : (id : Text) (s : Store) → Reads (get_object id) (fetch s id) s
unfolding get_object fetch
get_object-Reads id s = record { result = ground arith; view = λ j. ground arith }

or_raise-Reads :
    {A : Type 0} (o : Option A) (fault : Fault) (s : Store)
    → Reads (or_raise o fault) (or_fault o fault) s
or_raise-Reads none fault s = Reads-pure (err fault) s
or_raise-Reads (some a) fault s = Reads-pure (ok a) s

pub or_crash-Reads : {A : Type 0} (o : Option A) (s : Store) → Reads (or_crash o) (or_panic o) s
or_crash-Reads none s = Reads-pure panic s
or_crash-Reads (some a) s = Reads-pure (ok a) s

pub get_as-Reads :
    {A : Type 0} (cast : Obj → Option A) (fault : Fault) (id : Text) (s : Store)
    → Reads (get_as cast fault id) (fetch_as cast fault (fetch s id)) s
get_as-Reads cast fault id s =
    Reads-bind (get_object id) (λ o. or_raise (cast o) fault) (fetch s id)
      (λ o. or_fault (cast o) fault) s (get_object-Reads id s)
      (λ o t same e. or_raise-Reads (cast o) fault t)
