-- ===== src/Auth/Numerals.antt =====
-- The decimal text of the clock: the fuel of `digits` is enough, and the text reads back.
use Prim.Native.Nat.{◌/◌, ◌%◌}
use safe_harbor_server.Base.{
  ℕ, zero, suc, ◌+◌, ◌-◌, ◌*◌, ◌<◌, [], ◌∷◌, ◌≡◌, ◌≢◌, refl, ap, sym, ◌∙◌, ◌==◌, arith, Bool-cases,
  inl, inr,
}
use safe_harbor_server.Auth.Sessions.{Bytes, digits, decimal_text, split, create_unique_session_id}
use safe_harbor_server.Auth.SessionLaws.{split_created}

-- The number that a text of decimal digits stands for, after those read so far.
unfoldable pub read_decimal : ℕ → Bytes → ℕ
read_decimal sum [] = sum
read_decimal sum (b ∷ bs) = read_decimal (10 * sum + (b - 48)) bs

-- Any fuel beyond the number gives the same text.
digits_enough : (f k n : ℕ) (acc : Bytes) → n < f → n < k → digits f n acc ≡ digits k n acc
unfolding digits
digits_enough zero k n acc h h' = absurd (omega arith)
digits_enough (suc f) zero n acc h h' = absurd (omega arith)
digits_enough (suc f) (suc k) n acc h h' = elim (Bool-cases (n / 10 == 0)) [
  | inl last ↦ rw last refl
  | inr more ↦
      rw more (digits_enough f k (n / 10) ((48 + n % 10) ∷ acc) (ground arith) (ground arith))
]

read-digits : (f n : ℕ) (acc : Bytes) → n < f → read_decimal 0 (digits f n acc) ≡ read_decimal n acc
unfolding digits read_decimal
read-digits zero n acc h = absurd (omega arith)
read-digits (suc f) n acc h = elim (Bool-cases (n / 10 == 0)) [
  | inl last ↦
      (let e : 10 * 0 + (48 + n % 10 - 48) ≡ n = ground arith in
        rw last (ap (λ v. read_decimal v acc) e))
  | inr more ↦
      (let e : 10 * (n / 10) + (48 + n % 10 - 48) ≡ n = omega arith in
        rw more (
          read-digits f (n / 10) ((48 + n % 10) ∷ acc) (ground arith)
          ∙ ap (λ v. read_decimal v acc) e))
]

-- The decimal text of a number reads back as that number, and any fuel beyond the number gives the same
-- text as the fuel that decimal_text takes.
pub read-decimal_text :
    (n fuel : ℕ)
    → n < fuel
    → (read_decimal 0 (decimal_text n) ≡ n) × (digits fuel n [] ≡ decimal_text n)
unfolding decimal_text read_decimal
read-decimal_text n fuel h =
    (read-digits (suc n) n [] (omega arith), digits_enough fuel (suc n) n [] h (omega arith))

-- The session ids that createUniqueSessionId makes, with the same hash, at different instants are
-- different.
pub create_unique_session_id-instant :
    (compute_hash : Bytes → Bytes) (m n : ℕ)
    → m ≢ n
    → create_unique_session_id compute_hash m ≢ create_unique_session_id compute_hash n
create_unique_session_id-instant compute_hash m n other h =
    let reads = λ (k : ℕ). (read-decimal_text k (suc k) (omega arith)).0 in
    let first = λ (k : ℕ). ap (λ p. p.0) (split_created compute_hash k) in
    let texts = sym (first m) ∙ (ap (λ s. (split s).0) h ∙ first n) in
    other (sym (reads m) ∙ (ap (read_decimal 0) texts ∙ reads n))
