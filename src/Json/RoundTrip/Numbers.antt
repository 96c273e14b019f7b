-- ===== src/Json/RoundTrip/Numbers.antt =====
-- Decimal texts of src/safeharbor/server/DBjson.go: a token of digits is read as its number.
use Prim.Native.Nat.{◌/◌, ◌%◌}
use safe_harbor_server.Base.{
  ℕ, zero, suc, ◌+◌, ◌-◌, ◌*◌, ◌<◌, ◌≤◌, true, false, some, [], ◌∷◌, ◌++◌, ◌≡◌, refl, ap, ◌∙◌,
  arith, ◌==◌, leb, ltb, Bool-cases, inl, inr,
}
use safe_harbor_server.Auth.Sessions.{Bytes, digits, decimal_text}
use safe_harbor_server.Json.Tokens.{is_space, is_special, find_next_token}
use safe_harbor_server.Json.Values.{pos}
use safe_harbor_server.Json.RoundTrip.Words.{IsWord, find_next_token-IsWord}
use safe_harbor_server.Json.Simple.{digits_value, starts_with_digit, unsigned, scan_int}

-- Digits only.
abbrev pub AllDigits : Bytes → Type 0
AllDigits [] = Unit
AllDigits (c ∷ cs) = ((48 ≤ c) × (c ≤ 57)) × AllDigits cs

digits-AllDigits : (f n : ℕ) (acc : Bytes) → AllDigits acc → AllDigits (digits f n acc)
unfolding digits
digits-AllDigits zero n acc h = h
digits-AllDigits (suc f) n acc h =
    let all : AllDigits ((48 + n % 10) ∷ acc) = ((omega arith, omega arith), h) in
    elim (Bool-cases (n / 10 == 0)) [
      | inl last ↦ rw last all
      | inr more ↦ rw more (digits-AllDigits f (n / 10) ((48 + n % 10) ∷ acc) all)
    ]

digit_step :
    (m n : ℕ) (acc : Bytes)
    → digits_value m ((48 + n % 10) ∷ acc) ≡ digits_value (10 * m + n % 10) acc
unfolding digits_value
digit_step m n acc =
    let low : leb 48 (48 + n % 10) ≡ true = ground arith in
    let high : leb (48 + n % 10) 57 ≡ true = ground arith in
    let e : 10 * m + (48 + n % 10 - 48) ≡ 10 * m + n % 10 = omega arith in
    rw low (rw high (ap (λ v. digits_value v acc) e))

digits_value-digits :
    (f n : ℕ) (acc : Bytes) → n < f → digits_value 0 (digits f n acc) ≡ digits_value n acc
unfolding digits
digits_value-digits zero n acc h = absurd (omega arith)
digits_value-digits (suc f) n acc h = elim (Bool-cases (n / 10 == 0)) [
  | inl last ↦
      (let e : 10 * 0 + n % 10 ≡ n = ground arith in
        rw last (digit_step 0 n acc ∙ ap (λ v. digits_value v acc) e))
  | inr more ↦
      (let e : 10 * (n / 10) + n % 10 ≡ n = omega arith in
        rw more (
          digits_value-digits f (n / 10) ((48 + n % 10) ∷ acc) (ground arith)
          ∙ digit_step (n / 10) n acc
          ∙ ap (λ v. digits_value v acc) e))
]

digits-starts :
    (f n : ℕ) (acc : Bytes)
    → starts_with_digit acc ≡ true
    → starts_with_digit (digits f n acc) ≡ true
unfolding digits
digits-starts zero n acc h = h
digits-starts (suc f) n acc h =
    let first : starts_with_digit ((48 + n % 10) ∷ acc) ≡ true = ground arith in
    elim (Bool-cases (n / 10 == 0)) [
      | inl last ↦ rw last first
      | inr more ↦ rw more (digits-starts f (n / 10) ((48 + n % 10) ∷ acc) first)
    ]

pub decimal_text-starts : (n : ℕ) → starts_with_digit (decimal_text n) ≡ true
unfolding decimal_text digits
decimal_text-starts n =
    let first : starts_with_digit ((48 + n % 10) ∷ []) ≡ true = ground arith in
    elim (Bool-cases (n / 10 == 0)) [
      | inl last ↦ rw last first
      | inr more ↦ rw more (digits-starts n (n / 10) ((48 + n % 10) ∷ []) first)
    ]

pub decimal_text-AllDigits : (n : ℕ) → AllDigits (decimal_text n)
unfolding decimal_text
decimal_text-AllDigits n = digits-AllDigits (suc n) n [] tt

unsigned-digits :
    (s : Bytes)
    → starts_with_digit s ≡ true
    → digits_value 0 s < 9223372036854775808
    → unsigned s ≡ some (pos (digits_value 0 s))
unfolding unsigned
unsigned-digits s h lt =
    let small : ltb (digits_value 0 s) 9223372036854775808 ≡ true = ground arith in
    rw h (rw small refl)

scan_int-digits :
    (s : Bytes)
    → starts_with_digit s ≡ true
    → digits_value 0 s < 9223372036854775808
    → scan_int s ≡ some (pos (digits_value 0 s))
unfolding scan_int
scan_int-digits [] h lt = ground arith
scan_int-digits (c ∷ cs) h lt =
    let plus : (c == b'+') ≡ false = ground arith in
    let minus : (c == b'-') ≡ false = ground arith in
    rw minus (rw plus (unsigned-digits (c ∷ cs) h lt))

pub scan_int-decimal_text :
    (n : ℕ) → n < 9223372036854775808 → scan_int (decimal_text n) ≡ some (pos n)
unfolding decimal_text digits_value
scan_int-decimal_text n lt =
    let e = digits_value-digits (suc n) n [] (omega arith) in
    scan_int-digits (decimal_text n) (decimal_text-starts n) (omega arith)
    ∙ ap (λ v. some (pos v)) e

digit_is_neither : (c : ℕ) → 48 ≤ c → c ≤ 57 → (is_space c ≡ false) × (is_special c ≡ false)
unfolding is_space is_special
digit_is_neither c low high = (ground arith, ground arith)

digits-IsWord : (s : Bytes) → AllDigits s → IsWord s
digits-IsWord [] h = tt
digits-IsWord (c ∷ cs) h = (digit_is_neither c h.0.0 h.0.1, digits-IsWord cs h.1)

-- The next token is a text of digits that a special character ends.
pub find_next_token-digits :
    (s : Bytes) (d : ℕ) (rest : Bytes)
    → AllDigits s
    → starts_with_digit s ≡ true
    → is_special d ≡ true
    → find_next_token (s ++ d ∷ rest) ≡ (s, d ∷ rest)
find_next_token-digits [] d rest h st sp = ground arith
find_next_token-digits (c ∷ cs) d rest h st sp =
    find_next_token-IsWord c cs d rest (digits-IsWord (c ∷ cs) h) sp
