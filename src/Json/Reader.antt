-- ===== src/Json/Reader.antt =====
-- A parser of src/safeharbor/server/DBjson.go is a function of the bytes from the position on; a
-- result has the bytes that the new position leaves.
use safe_harbor_server.Base.{Bool, if◌then◌else◌}
use safe_harbor_server.Auth.Sessions.{Bytes}

-- A value, an error, a panic of the package reflect, and what ends the model's own fuel.
pub data Read {ℓ} (A : Type ℓ) : Type ℓ where
  done : A → Bytes → Read A
  fault crash out_of_fuel : Read A

abbrev pub Parser : Type 0 → Type 0
Parser A = Bytes → Read A

abbrev pub next : {A B : Type 0} → Read A → (A → Parser B) → Read B
next (done a s) f = f a s
next fault f = fault
next crash f = crash
next out_of_fuel f = out_of_fuel

infixl 5 ◌>>=◌ ◌>>◌
abbrev pub ◌>>=◌ : {A B : Type 0} → Parser A → (A → Parser B) → Parser B
◌>>=◌ p f s = next (p s) f

abbrev pub ◌>>◌ : {A B : Type 0} → Parser A → Parser B → Parser B
p >> q = p >>= λ _. q

abbrev pub pure : {A : Type 0} → A → Parser A
pure a s = done a s

abbrev pub refuse : {A : Type 0} → Parser A
refuse s = fault

abbrev pub need : Bool → Parser (Unit {0})
need b s = if b then done tt s else fault
