-- ===== src/Json/Reconstitute.antt =====
-- ReconstituteObject of src/safeharbor/server/Persistence.go, with retrieveTypeName of DBjson.go: the
-- parsed values become the arguments of the method that the type name picks.
use Prim.Native.Nat.{◌%◌}
use safe_harbor_server.Base.{
  ℕ, ◌-◌, Bool, Option, none, some, List, [], ◌∷◌, ◌==◌, if◌then◌else◌, length,
}
use safe_harbor_server.Auth.Sessions.{Bytes}
use safe_harbor_server.Json.Values.{
  ℤ, pos, negsuc, Value, Items, nil, cons, int, text, flag, time, array,
}
use safe_harbor_server.Json.Reader.{Read, done, fault, crash, out_of_fuel}
use safe_harbor_server.Json.Simple.{Codec, until_quote}
use safe_harbor_server.Json.Parse.{parse_json}

-- The bytes after the first colon.
unfoldable pub after_colon : Bytes → Option Bytes
after_colon [] = none
after_colon (c ∷ cs) = let rest = after_colon cs in if c == b':' then some cs else rest

abbrev with_name : Bytes → Option Bytes → Option (Bytes × Bytes)
with_name name none = none
with_name name (some rest) = some (name, rest)

abbrev name_in : Option (Bytes × Bytes) → Option (Bytes × Bytes)
name_in none = none
name_in (some (name, rest)) = with_name name (after_colon rest)

-- retrieveTypeName: the type name and what follows the first colon after it.
unfoldable pub retrieve_type_name : Bytes → Option (Bytes × Bytes)
unfolding until_quote after_colon
retrieve_type_name json = elim (until_quote json) [
  | none ↦ none
  | some (a, rest) ↦ name_in (until_quote rest)
]

-- The types of the formal arguments: string, bool, time.Time, and slices of string, bool and byte.
pub data Formal : Type 0 where
  a_string a_bool a_time strings bools octets : Formal

-- What the method receives for a formal argument.
abbrev pub Carrier : Formal → Type 0
Carrier a_string = Bytes
Carrier a_bool = Bool
Carrier a_time = ℕ
Carrier strings = List Bytes
Carrier bools = List Bool
Carrier octets = List ℕ

abbrev pub Arguments : List Formal → Type 0
Arguments [] = Unit
Arguments (t ∷ ts) = Carrier t × Arguments ts

-- A function of such arguments.
abbrev pub Builder : List Formal → Type 0 → Type 0
Builder [] A = A
Builder (t ∷ ts) A = Carrier t → Builder ts A

abbrev pub apply : {A : Type 0} (ts : List Formal) → Builder ts A → Arguments ts → A
apply [] f args = f
apply (t ∷ ts) f args = apply ts (f args.0) args.1

-- What an argument turns into: the error of a type that is not assignable, or a panic of reflect.
pub data Converted (A : Type 0) : Type 0 where
  converted : A → Converted A
  mismatch panicked : Converted A

-- An int as a byte keeps its low 8 bits.
abbrev byte_of : ℤ → ℕ
byte_of (pos n) = n % 256
byte_of (negsuc n) = 255 - n % 256

abbrev prepend : {A : Type 0} → A → Converted (List A) → Converted (List A)
prepend x (converted xs) = converted (x ∷ xs)
prepend x mismatch = mismatch
prepend x panicked = panicked

-- Convert to bool of each element.
unfoldable pub bools_of : Items → Converted (List Bool)
bools_of nil = converted []
bools_of (cons (flag b) xs) = prepend b (bools_of xs)
bools_of (cons _ xs) = panicked

-- Convert to byte.
unfoldable pub octets_of : Items → Converted (List ℕ)
octets_of nil = converted []
octets_of (cons (int z) xs) = prepend (byte_of z) (octets_of xs)
octets_of (cons _ xs) = panicked

module _ (codec : Codec) where
  -- Convert to string: an int becomes the text of its code point.
  unfoldable pub strings_of : Items → Converted (List Bytes)
  strings_of nil = converted []
  strings_of (cons (text s) xs) = prepend s (strings_of xs)
  strings_of (cons (int z) xs) = prepend (codec.text_of_rune z) (strings_of xs)
  strings_of (cons _ xs) = panicked

  -- The loop body of ReconstituteObject for one argument. An invalid value panics, and so does a
  -- slice for a formal that is none.
  unfoldable pub argument : (t : Formal) → Option Value → Converted (Carrier t)
  unfolding strings_of bools_of octets_of
  argument t none = panicked
  argument strings (some (array k xs)) = strings_of xs
  argument bools (some (array k xs)) = bools_of xs
  argument octets (some (array k xs)) = octets_of xs
  argument t (some (array k xs)) = panicked
  argument a_string (some (text s)) = converted s
  argument a_bool (some (flag b)) = converted b
  argument a_time (some (time t)) = converted t
  argument t (some v) = mismatch

  abbrev and_then : {A B : Type 0} → Converted A → Converted B → Converted (A × B)
  and_then (converted x) (converted y) = converted (x, y)
  and_then (converted x) mismatch = mismatch
  and_then (converted x) panicked = panicked
  and_then mismatch rest = mismatch
  and_then panicked rest = panicked

  -- The loop over the arguments, which stops at the first that fails; their numbers agree.
  unfoldable pub arguments : (ts : List Formal) → List (Option Value) → Converted (Arguments ts)
  unfolding argument
  arguments [] vs = converted tt
  arguments (t ∷ ts) [] = mismatch
  arguments (t ∷ ts) (v ∷ vs) = and_then (argument t v) (arguments ts vs)

-- A Reconstitute method: the types that it takes, and the object that it makes.
pub record Method (A : Type 0) : Type 0 where
  pub formals : List Formal
  pub build : Builder formals A

-- The type name and the object, an error, or a panic.
pub data Reconstituted (A : Type 0) : Type 0 where
  object : Bytes → A → Reconstituted A
  failed panicking endless : Reconstituted A

abbrev pub values_of : Option (List (Option Value)) → List (Option Value)
values_of none = []
values_of (some vs) = vs

module _ {A : Type 0} (codec : Codec) where
  -- method.Call
  abbrev pub called : Bytes → (m : Method A) → Converted (Arguments m.formals) → Reconstituted A
  called name m mismatch = failed
  called name m panicked = panicking
  called name m (converted args) = object name (apply m.formals m.build args)

  abbrev pub applied : Bytes → Method A → List (Option Value) → Reconstituted A
  applied name m vs =
      if length m.formals == length vs then called name m (arguments codec m.formals vs) else failed

  abbrev pub with_values : Bytes → Method A → Read (Option (List (Option Value))) → Reconstituted A
  with_values name m (done o rest) = applied name m (values_of o)
  with_values name m fault = failed
  with_values name m crash = panicking
  with_values name m out_of_fuel = endless

  abbrev pub of_method : Bytes → Option (Method A) → Bytes → Reconstituted A
  of_method name none rest = failed
  of_method name (some m) rest = with_values name m (parse_json codec rest)

  abbrev of_type_name : (Bytes → Option (Method A)) → Option (Bytes × Bytes) → Reconstituted A
  of_type_name methods none = failed
  of_type_name methods (some (name, rest)) = of_method name (methods name) rest

  -- ReconstituteObject, for a factory whose methods `Reconstitute<name>` are given.
  unfoldable pub reconstitute_object : (Bytes → Option (Method A)) → Bytes → Reconstituted A
  unfolding retrieve_type_name
  reconstitute_object methods json = of_type_name methods (retrieve_type_name json)
