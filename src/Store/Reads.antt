-- ===== src/Store/Reads.antt =====
-- Reads leave the objects alone: the getters of InMemClient and what is built from them write at most
-- the request's caches.
use safe_harbor_server.Base.{
  Bool, true, false, Option, none, some, ◌≡◌, ◌==◌, if◌then◌else◌, refl, ◌∙◌, arith,
}
use safe_harbor_server.Store.Objects.{Text, Ptr, Obj, as_user, as_group}
use safe_harbor_server.Store.Monad.{
  Store, Result, ok, err, panic, Fault, user_error, Action, pure, raise, or_raise, or_crash, guard,
  attempt, caught, continue, ◌>>=◌,
}
use safe_harbor_server.Store.Client.{
  get_persistent_object, deref, get_object, get_as, get_user, get_group, load_user, cached_user,
  db_get_user_by_user_id,
}

-- Two stores with the same objects, users, realms and tokens: they may differ in the request's caches.
pub record SameObjects (s t : Store) : Type 0 where
  pub heap : t.heap ≡ s.heap
  pub all_objects : t.all_objects ≡ s.all_objects
  pub all_user_ids : t.all_user_ids ≡ s.all_user_ids
  pub realm_map : t.realm_map ≡ s.realm_map
  pub email_token_map : t.email_token_map ≡ s.email_token_map
  pub unique_id : t.unique_id ≡ s.unique_id
  pub now : t.now ≡ s.now

pub SameObjects-refl : (s : Store) → SameObjects s s
SameObjects-refl s = record {
  heap = refl;
  all_objects = refl;
  all_user_ids = refl;
  realm_map = refl;
  email_token_map = refl;
  unique_id = refl;
  now = refl;
}

pub SameObjects-trans : (s t u : Store) → SameObjects s t → SameObjects t u → SameObjects s u
SameObjects-trans s t u h k = record {
  heap = k.heap ∙ h.heap;
  all_objects = k.all_objects ∙ h.all_objects;
  all_user_ids = k.all_user_ids ∙ h.all_user_ids;
  realm_map = k.realm_map ∙ h.realm_map;
  email_token_map = k.email_token_map ∙ h.email_token_map;
  unique_id = k.unique_id ∙ h.unique_id;
  now = k.now ∙ h.now;
}

-- The action, whatever its outcome, changes no object.
pub record Reads {A : Type 0} (m : Action A) : Type 0 where
  pub same : (s : Store) → SameObjects s (m s).1

continue-SameObjects :
    {A B : Type 0} (f : A → Action B) (s : Store) (r : Result A) (t : Store)
    → SameObjects s t
    → ((a : A) → Reads (f a))
    → SameObjects s (continue f (r, t)).1
continue-SameObjects f s (ok a) t h k = SameObjects-trans s t (f a t).1 h ((k a).same t)
continue-SameObjects f s (err e) t h k = h
continue-SameObjects f s panic t h k = h

pub quiet : {A : Type 0} {m : Action A} → ((s : Store) → (m s).1 ≡ s) → Reads m
quiet h = record { same = λ s. rw (h s) (SameObjects-refl s) }

pub Reads-bind :
    {A B : Type 0} {m : Action A} {f : A → Action B}
    → Reads m
    → ((a : A) → Reads (f a))
    → Reads (m >>= f)
Reads-bind {m = m} {f} h k = record {
  same = λ s. continue-SameObjects f s (m s).0 (m s).1 (h.same s) k;
}

pub Reads-pure : {A : Type 0} (a : A) → Reads (pure a)
Reads-pure a = quiet λ s. refl

pub Reads-raise : (A : Type 0) (e : Fault) → Reads (raise {A = A} e)
Reads-raise A e = quiet λ s. refl

caught-store : {A : Type 0} (r : Result A) (s : Store) → (caught (r, s)).1 ≡ s
caught-store (ok a) s = refl
caught-store (err e) s = refl
caught-store panic s = refl

pub Reads-attempt : {A : Type 0} {m : Action A} → Reads m → Reads (attempt m)
Reads-attempt {m = m} h = record { same = λ s. rw (caught-store (m s).0 (m s).1) (h.same s) }

pub Reads-option :
    {A B : Type 0} {m : Action B} {f : A → Action B} (o : Option A)
    → Reads m
    → ((a : A) → Reads (f a))
    → Reads (elim o [ none ↦ m | some a ↦ f a ])
Reads-option none h k = h
Reads-option (some a) h k = k a

pub Reads-guard : (b : Bool) (e : Fault) → Reads (guard b e)
Reads-guard b e = quiet λ s. refl

pub Reads-or_raise : {A : Type 0} (o : Option A) (e : Fault) → Reads (or_raise o e)
Reads-or_raise none e = quiet λ s. refl
Reads-or_raise (some a) e = quiet λ s. refl

pub Reads-or_crash : {A : Type 0} (o : Option A) → Reads (or_crash o)
Reads-or_crash none = quiet λ s. refl
Reads-or_crash (some a) = quiet λ s. refl

pub Reads-if :
    {A : Type 0} {m k : Action A} (b : Bool) → Reads m → Reads k → Reads (if b then m else k)
Reads-if true h j = h
Reads-if false h j = j

SameObjects-if :
    {A : Type 0} (b : Bool) (x y : Result A × Store) (s : Store)
    → SameObjects s x.1
    → SameObjects s y.1
    → SameObjects s (if b then x else y).1
SameObjects-if true x y s h k = h
SameObjects-if false x y s h k = k

Reads-get_persistent_object : (id : Text) → Reads (get_persistent_object id)
unfolding get_persistent_object
Reads-get_persistent_object id = record {
  same = λ s. record {
    heap = ground arith;
    all_objects = ground arith;
    all_user_ids = ground arith;
    realm_map = ground arith;
    email_token_map = ground arith;
    unique_id = ground arith;
    now = ground arith;
  };
}

pub Reads-deref : (p : Ptr) → Reads (deref p)
unfolding deref
Reads-deref p = record { same = λ s. (Reads-or_crash (s.heap p)).same s }

pub Reads-get_object : (id : Text) → Reads (get_object id)
unfolding get_object
Reads-get_object id = Reads-bind (Reads-get_persistent_object id) Reads-deref

-- A typed getter.
pub Reads-get_as :
    {A : Type 0} (cast : Obj → Option A) (fault : Fault) (id : Text) → Reads (get_as cast fault id)
Reads-get_as cast fault id = Reads-bind (Reads-get_object id) λ o. Reads-or_raise (cast o) fault

pub Reads-get_user : (id : Text) → Reads (get_user id)
unfolding get_user
Reads-get_user id = Reads-get_as as_user user_error id

pub Reads-get_group : (id : Text) → Reads (get_group id)
unfolding get_group
Reads-get_group id = Reads-get_as as_group user_error id

Reads-load_user : (user_id obj_id : Text) → Reads (load_user user_id obj_id)
unfolding load_user
Reads-load_user user_id obj_id = Reads-bind (Reads-get_user obj_id) λ u. record {
  same = λ t. record {
    heap = refl;
    all_objects = refl;
    all_user_ids = refl;
    realm_map = refl;
    email_token_map = refl;
    unique_id = refl;
    now = refl;
  };
}

Reads-cached_user : (p : Ptr) → Reads (cached_user p)
unfolding cached_user
Reads-cached_user p =
    Reads-bind (Reads-deref p) λ o. Reads-bind (Reads-or_crash (as_user o)) λ u. Reads-pure (some u)

pub Reads-db_get_user_by_user_id : (id : Text) → Reads (db_get_user_by_user_id id)
unfolding db_get_user_by_user_id
Reads-db_get_user_by_user_id id = record {
  same = λ s.
      SameObjects-if (s.users_cache id == 0)
        (if s.all_user_ids id == 0 then (ok none, s) else load_user id (s.all_user_ids id) s)
        (cached_user (s.users_cache id) s) s
        (SameObjects-if (s.all_user_ids id == 0) (ok none, s) (load_user id (s.all_user_ids id) s) s
          (SameObjects-refl s) ((Reads-load_user id (s.all_user_ids id)).same s))
        ((Reads-cached_user (s.users_cache id)).same s);
}
