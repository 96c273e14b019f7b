-- ===== src/Json/RoundTrip.antt =====
-- What asJSON writes reads back: shared notions. A string is plain where asJSON and the parser agree
-- about its end.
pub mod Strings
pub mod Words
pub mod Numbers
pub mod Simple
pub mod Arrays
pub mod Fields
pub mod Objects
pub mod Reconstituted
pub mod Types
pub mod Persistent
use safe_harbor_server.Base.{
  ℕ, suc, ◌+◌, ◌<◌, Bool, true, false, ◌||◌, List, [], ◌∷◌, ◌++◌, ◌≡◌, refl, arith, ◌==◌, contains,
}
use mathlib.Core.List.{map}
use safe_harbor_server.Auth.Sessions.{Bytes}
use safe_harbor_server.Json.Tokens.{quote, is_special}
use safe_harbor_server.Json.Values.{
  Value, Items, Kind, nil, cons, pos, int, text, flag, time, array,
}
use safe_harbor_server.Json.Values as Values
use safe_harbor_server.Json.Simple.{Codec}
use safe_harbor_server.Json.Print.{Shown, string, boolean, moment, strings, booleans, octets}

abbrev pub backslash : ℕ
backslash = b'\\'

-- A string without a double quote and without a backslash.
abbrev pub IsPlain : Bytes → Type 0
IsPlain s = (contains quote s ≡ false) × (contains backslash s ≡ false)

pub contains-append :
    (k : ℕ) (xs ys : List ℕ) → contains k (xs ++ ys) ≡ (contains k xs || contains k ys)
contains-append k [] ys = refl
contains-append k (x ∷ xs) ys = ground (arith, contains-append k xs ys)

-- A special character comes next.
abbrev pub Stops : Bytes → Type 0
Stops [] = ⊥
Stops (c ∷ cs) = is_special c ≡ true
