-- ===== src/Store/Monad.antt =====
-- The state of one server in the in-memory mode, and actions on it: the request's client caches
-- (InMemClient), the maps of Persistence, and the Go heap. A write made before an error stays.
use Prim.Native.Nat.{ℕ}
use safe_harbor_server.Base.{Bool, Option, none, some, List, if◌then◌else◌, update}
use safe_harbor_server.Store.Objects.{Text, Ptr, Obj}

pub record Store : Type 0 where
  pub heap : Ptr → Option Obj
  pub objects_cache : Text → Ptr
  pub users_cache : Text → Ptr
  pub realm_map_cache : List (Text × Ptr)
  pub all_objects : Text → Ptr
  pub all_user_ids : Text → Text
  pub realm_map : List (Text × Text)
  pub email_token_map : Text → Text
  pub unique_id : ℕ
  -- what time.Now() reads during the request
  pub now : ℕ

-- utilities.ConstructUserError and utilities.ConstructServerError, and the FailureDesc with an HTTP
-- status of its own that a handler returns; the messages are left out.
pub data Fault : Type 0 where
  user_error server_error : Fault
  failure : ℕ → Fault

-- A Go panic passes every `if err != nil`.
pub data Result (A : Type 0) : Type 0 where
  ok : A → Result A
  err : Fault → Result A
  panic : Result A

abbrev pub Action : Type 0 → Type 0
Action A = Store → Result A × Store

module _ {A : Type 0} where
  abbrev pub pure : A → Action A
  pure a s = (ok a, s)

  abbrev pub raise : Fault → Action A
  raise e s = (err e, s)

  abbrev pub crash : Action A
  crash s = (panic, s)

  abbrev pub gets : (Store → A) → Action A
  gets f s = (ok (f s), s)

  -- A type assertion, or a lookup, whose failure is an error.
  abbrev pub or_raise : Option A → Fault → Action A
  or_raise none e s = (err e, s)
  or_raise (some a) e s = (ok a, s)

  -- A failure that Go reports by a panic.
  abbrev pub or_crash : Option A → Action A
  or_crash none s = (panic, s)
  or_crash (some a) s = (ok a, s)

infixl 5 ◌>>=◌ ◌>>◌
abbrev pub continue : {A B : Type 0} → (A → Action B) → Result A × Store → Result B × Store
continue f (ok a, s) = f a s
continue f (err e, s) = (err e, s)
continue f (panic, s) = (panic, s)

abbrev pub ◌>>=◌ : {A B : Type 0} → Action A → (A → Action B) → Action B
◌>>=◌ m f s = continue f (m s)

abbrev pub ◌>>◌ : {A B : Type 0} → Action A → Action B → Action B
m >> k = m >>= λ _. k

-- `result, err := m`, where the code goes on after an error; `none` is the nil result.
abbrev pub caught : {A : Type 0} → Result A × Store → Result (Option A) × Store
caught (ok a, s) = (ok (some a), s)
caught (err e, s) = (ok none, s)
caught (panic, s) = (panic, s)

abbrev pub attempt : {A : Type 0} → Action A → Action (Option A)
attempt m s = caught (m s)

abbrev pub guard : Bool → Fault → Action (Unit {0})
guard b e s = (if b then ok tt else err e, s)

-- `for _, x := range xs { ... }` with early returns on errors.
abbrev pub for_each : {A : Type 0} → List A → (A → Action (Unit {0})) → Action (Unit {0})
for_each List.[] body s = (ok tt, s)
for_each (List.◌∷◌ x xs) body s = continue (λ _. for_each xs body) (body x s)

abbrev pub modify : (Store → Store) → Action (Unit {0})
modify f s = (ok tt, f s)

-- A write through a pointer to fields of the struct.
abbrev pub mutate : Ptr → (Obj → Obj) → Action (Unit {0})
mutate p f s = elim (s.heap p) [
  | none ↦ (panic, s)
  | some o ↦ (ok tt, record s { heap = update s.heap p (some (f o)) })
]
