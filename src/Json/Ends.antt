-- ===== src/Json/Ends.antt =====
-- The parsers of src/safeharbor/server/DBjson.go go forward: what a parser leaves is no longer than
-- what it was given, so the fuel that parseJSON takes for the nesting of arrays is enough.
pub mod Simple
pub mod Parse
use safe_harbor_server.Base.{
  ℕ, zero, suc, ◌+◌, ◌*◌, ◌≤◌, Bool, true, false, ◌||◌, Option, none, some, List, [], ◌∷◌, ◌++◌,
  ◌≡◌, arith, length, length-append, Bool-cases, inl, inr,
}
use safe_harbor_server.Auth.Sessions.{Bytes}
use safe_harbor_server.Json.Tokens.{
  is_space, is_special, skip_space, word, token_at, find_next_token, is_token,
}
use safe_harbor_server.Json.Reader.{Read, done, fault, crash, out_of_fuel, Parser, next}

-- A result that is not the end of the fuel and leaves at most `n` bytes.
unfoldable pub Within : {A : Type 0} → ℕ → Read A → Type 0
Within n (done a s) = length s ≤ n
Within n fault = Unit
Within n crash = Unit
Within n out_of_fuel = ⊥

pub next-Within :
    {A B : Type 0} (m n : ℕ) (r : Read A) (g : A → Parser B)
    → Within m r
    → ((a : A) (s : Bytes) → length s ≤ m → Within n (g a s))
    → Within n (next r g)
unfolding Within
next-Within m n (done a s) g h k = k a s h
next-Within m n fault g h k = tt
next-Within m n crash g h k = tt
next-Within m n out_of_fuel g h k = h

pub Within-more : {A : Type 0} (m n : ℕ) (r : Read A) → m ≤ n → Within m r → Within n r
unfolding Within
Within-more m n (done a s) h k = omega arith
Within-more m n fault h k = tt
Within-more m n crash h k = tt
Within-more m n out_of_fuel h k = k

skip_space-length : (s : Bytes) → length (skip_space s) ≤ length s
unfolding skip_space
skip_space-length [] = omega arith
skip_space-length (c ∷ cs) =
    let rest = skip_space-length cs in
    elim (Bool-cases (is_space c)) [ inl e ↦ rw e (omega arith) | inr e ↦ rw e (omega arith) ]

word-length : (s : Bytes) → length (word s).0 + length (word s).1 ≤ length s
unfolding word
word-length [] = omega arith
word-length (c ∷ cs) =
    let rest = word-length cs in
    elim (Bool-cases (is_space c || is_special c)) [
      | inl e ↦ rw e (omega arith)
      | inr e ↦ rw e (omega arith)
    ]

token_at-length : (s : Bytes) → length (token_at s).0 + length (token_at s).1 ≤ length s
unfolding token_at
token_at-length [] = omega arith
token_at-length (c ∷ cs) =
    let rest = word-length cs in
    elim (Bool-cases (is_special c)) [ inl e ↦ rw e (omega arith) | inr e ↦ rw e (omega arith) ]

pub find_next_token-length :
    (s : Bytes) → length (find_next_token s).0 + length (find_next_token s).1 ≤ length s
unfolding find_next_token
find_next_token-length s = omega (arith, token_at-length (skip_space s), skip_space-length s)

pub is_token-length : (c : ℕ) (t : Bytes) → is_token c t ≡ true → length t ≡ 1
is_token-length c [] h = ground arith
is_token-length c (b ∷ []) h = omega arith
is_token-length c (b ∷ x ∷ xs) h = ground arith

-- A token pushed back.
pub pushed-length :
    (n : ℕ) (s : Bytes) → length s ≤ n → length ((find_next_token s).0 ++ (find_next_token s).1) ≤ n
pushed-length n s le =
    omega
      (arith, length-append (find_next_token s).0 (find_next_token s).1, find_next_token-length s)
