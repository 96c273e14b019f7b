-- ===== src/Json/Ends/Simple.antt =====
-- The simple values of src/safeharbor/server/DBjson.go: none of their parsers goes back.
use safe_harbor_server.Base.{
  ℕ, suc, ◌≤◌, Option, none, some, [], ◌∷◌, ◌++◌, arith, length, Bool-cases, inl, inr, ◌==◌,
  contains,
}
use safe_harbor_server.Auth.Sessions.{Bytes, bytes_eq}
use safe_harbor_server.Json.Tokens.{codes, quote, find_next_token, is_token}
use safe_harbor_server.Json.Values.{Value}
use safe_harbor_server.Json.Reader.{Parser, next}
use safe_harbor_server.Json.Simple.{
  Codec, taken, parse_number, parse_bool_value, until_quote, string_end, decoded,
  parse_string_value, unmarshalled, second_quote, first_quote, parse_time_value, or_else,
  parse_simple_value,
}
use safe_harbor_server.Json.Ends.{
  Within, next-Within, Within-more, find_next_token-length, pushed-length,
}

-- What was found leaves at most `n` bytes.
unfoldable pub Leaves : ℕ → Option (Bytes × Bytes) → Type 0
Leaves n none = Unit
Leaves n (some (a, b)) = length b ≤ n

Leaves-suc : (n : ℕ) (o : Option (Bytes × Bytes)) → Leaves n o → Leaves (suc n) o
unfolding Leaves
Leaves-suc n none h = tt
Leaves-suc n (some (a, b)) h = omega arith

Leaves-longer :
    (n c : ℕ) (o : Option (Bytes × Bytes))
    → Leaves n o
    → Leaves (suc n) (elim o [ none ↦ none | some (a, b) ↦ some (c ∷ a, b) ])
unfolding Leaves
Leaves-longer n c none h = tt
Leaves-longer n c (some (a, b)) h = omega arith

pub until_quote-Leaves : (s : Bytes) → Leaves (length s) (until_quote s)
unfolding Leaves until_quote
until_quote-Leaves [] = tt
until_quote-Leaves (c ∷ cs) =
    let rest = until_quote-Leaves cs in
    elim (Bool-cases (c == quote)) [
      | inl e ↦ rw e (omega arith)
      | inr e ↦ rw e (Leaves-longer (length cs) c (until_quote cs) rest)
    ]

taken-Within :
    (o : Option Value) (s : Bytes)
    → Within (length s) (taken o (find_next_token s).0 (find_next_token s).1)
unfolding Within
taken-Within none s = pushed-length (length s) s (omega arith)
taken-Within (some v) s = omega (arith, find_next_token-length s)

parse_number-Within : (s : Bytes) → Within (length s) (parse_number s)
unfolding parse_number
parse_number-Within s = taken-Within _ s

parse_bool_value-Within : (s : Bytes) → Within (length s) (parse_bool_value s)
unfolding parse_bool_value
parse_bool_value-Within s = taken-Within _ s

module _ (codec : Codec) where
  string_end-Leaves : (seen s : Bytes) → Leaves (length s) (string_end codec seen s)
  unfolding Leaves string_end
  string_end-Leaves seen [] = tt
  string_end-Leaves seen (c ∷ cs) =
      let past = Leaves-suc (length cs) _ (string_end-Leaves [] cs) in
      let more = Leaves-suc (length cs) _ (string_end-Leaves (seen ++ c ∷ []) cs) in
      elim (Bool-cases (c == quote)) [
        | inl e ↦
            rw e (elim (Bool-cases (contains quote (codec.decode_string (seen ++ quote ∷ [])))) [
              | inl f ↦ rw f (omega arith)
              | inr f ↦ rw f past
            ])
        | inr e ↦ rw e more
      ]

  decoded-Within :
      (m n : ℕ) (o : Option (Bytes × Bytes)) → m ≤ n → Leaves m o → Within n (decoded codec o)
  unfolding Leaves Within
  decoded-Within m n none h k = tt
  decoded-Within m n (some (a, b)) h k = omega arith

  parse_string_value-Within : (s : Bytes) → Within (length s) (parse_string_value codec s)
  unfolding parse_string_value Within
  parse_string_value-Within s = elim (Bool-cases (is_token quote (find_next_token s).0)) [
    | inl e ↦ rw e (
        decoded-Within (length (find_next_token s).1) (length s) _
          (omega (arith, find_next_token-length s)) (string_end-Leaves [] (find_next_token s).1))
    | inr e ↦ rw e (pushed-length (length s) s (omega arith))
  ]

  unmarshalled-Within :
      (n : ℕ) (o : Option ℕ) (rest : Bytes) → length rest ≤ n → Within n (unmarshalled codec o rest)
  unfolding Within
  unmarshalled-Within n none rest h = tt
  unmarshalled-Within n (some t) rest h = h

  second_quote-Within :
      (m n : ℕ) (o : Option (Bytes × Bytes)) → m ≤ n → Leaves m o → Within n (second_quote codec o)
  unfolding Leaves Within
  second_quote-Within m n none h k = tt
  second_quote-Within m n (some (body, rest)) h k = unmarshalled-Within n _ rest (omega arith)

  first_quote-Within :
      (m n : ℕ) (o : Option (Bytes × Bytes)) → m ≤ n → Leaves m o → Within n (first_quote codec o)
  unfolding Leaves Within first_quote
  first_quote-Within m n none h k = tt
  first_quote-Within m n (some (a, rest)) h k =
      second_quote-Within (length rest) n _ (omega arith) (until_quote-Leaves rest)

  parse_time_value-Within : (s : Bytes) → Within (length s) (parse_time_value codec s)
  unfolding parse_time_value Within
  parse_time_value-Within s = elim (Bool-cases (bytes_eq (find_next_token s).0 (codes "time"))) [
    | inl e ↦ rw e (
        first_quote-Within (length (find_next_token s).1) (length s) _
          (omega (arith, find_next_token-length s)) (until_quote-Leaves (find_next_token s).1))
    | inr e ↦ rw e (pushed-length (length s) s (omega arith))
  ]

  -- Two parsers in turn, the second where the first finds nothing.
  or_else-Within :
      (p q : Parser (Option Value))
      → ((s : Bytes) → Within (length s) (p s))
      → ((s : Bytes) → Within (length s) (q s))
      → (s : Bytes) → Within (length s) (next (p s) (λ o. or_else codec o q))
  unfolding Within
  or_else-Within p q h k s =
      next-Within (length s) (length s) (p s) (λ o. or_else codec o q) (h s)
        (λ o r le. elim o as (λ o. Within (length s) (or_else codec o q r)) [
          | none ↦ Within-more (length r) (length s) (q r) le (k r)
          | some v ↦ le
        ])

  pub parse_simple_value-Within : (s : Bytes) → Within (length s) (parse_simple_value codec s)
  unfolding parse_simple_value Within
  parse_simple_value-Within = or_else-Within _ _ parse_number-Within (
      or_else-Within _ _ parse_string_value-Within (
        or_else-Within _ _ parse_bool_value-Within
          (or_else-Within _ _ parse_time_value-Within (λ s. tt))))
