-- ===== src/Json/Ends/Parse.antt =====
-- The fuel of the parsers of src/safeharbor/server/DBjson.go is enough: two for each byte and two
-- more for a value, one for each byte and one more for the further fields.
use safe_harbor_server.Base.{
  ℕ, zero, suc, ◌+◌, ◌-◌, ◌*◌, ◌<◌, ◌≤◌, true, Option, none, some, [], ◌∷◌, ◌++◌, ◌≡◌, arith,
  length, length-append, Bool-cases, inl, inr, if◌then◌else◌,
}
use safe_harbor_server.Auth.Sessions.{Bytes}
use safe_harbor_server.Json.Tokens.{quote, find_next_token, is_token}
use safe_harbor_server.Json.Values.{Value, Items, nil, array, Kind, anything, kind_of, same_kind}
use safe_harbor_server.Json.Reader.{done, Parser, next}
use safe_harbor_server.Json.Simple.{Codec}
use safe_harbor_server.Json.Parse.{
  expect, appended, elements_after, item_then, value_from, parse_value, parse_array_value,
  parse_comma_value, value_fuel, required, field_value, named, parse_field, parse_comma_field,
  fields_after, parse_json,
}
use safe_harbor_server.Json.Ends.{
  Within, next-Within, Within-more, find_next_token-length, is_token-length, pushed-length,
}
use safe_harbor_server.Json.Ends.Simple.{Leaves, until_quote-Leaves, parse_simple_value-Within}

-- A token that was taken leaves fewer bytes.
taken-shorter :
    (c : ℕ) (s : Bytes)
    → is_token c (find_next_token s).0 ≡ true
    → length (find_next_token s).1 < length s
taken-shorter c s h =
    omega (arith, find_next_token-length s, is_token-length c (find_next_token s).0 h)

expect-Within : (c n : ℕ) (s : Bytes) → length s ≤ n → Within n (expect c s)
unfolding Within expect
expect-Within c n s h = elim (Bool-cases (is_token c (find_next_token s).0)) [
  | inl e ↦ rw e (omega (arith, find_next_token-length s))
  | inr e ↦ rw e tt
]

appended-Within :
    (k : Kind) (o : Option Value) (n : ℕ) (s : Bytes) → length s ≤ n → Within n (appended k o s)
unfolding Within appended
appended-Within k none n s h = tt
appended-Within k (some v) n s h = elim (Bool-cases (same_kind (kind_of v) k)) [
  | inl e ↦ rw e h
  | inr e ↦ rw e tt
]

elements_after-Within :
    (more : Kind → Parser (Option Items)) (o : Option Value) (n : ℕ) (s : Bytes)
    → ((k : Kind) → Within n (more k s))
    → length s ≤ n
    → Within n (elements_after more o s)
unfolding Within elements_after
elements_after-Within more none n s h le = le
elements_after-Within more (some v) n s h le =
    next-Within n n (more (kind_of v) s) _ (h (kind_of v)) (λ xs r le'.
      next-Within n n (expect b']' r) _ (expect-Within b']' n r le') (λ u r' le''. le''))

item_then-Within :
    (k : Kind) (more : Parser (Option Items)) (o : Option Value) (n : ℕ) (s : Bytes)
    → ((r : Bytes) → length r ≤ n → Within n (more r))
    → length s ≤ n
    → Within n (item_then k more o s)
unfolding Within item_then
item_then-Within k more o n s h le =
    next-Within n n (appended k o s) _ (appended-Within k o n s le)
      (λ v r le'. next-Within n n (more r) _ (h r le') (λ xs r' le''. le''))

module _ (codec : Codec) where
  value_from-Within :
      (in_array : Parser (Option Value)) (token rest : Bytes) (n : ℕ)
      → length token + length rest ≤ n
      → ((r : Bytes) → length r ≤ n → Within n (in_array r))
      → Within n (value_from codec in_array token rest)
  unfolding Within value_from
  value_from-Within in_array [] rest n le h = omega arith
  value_from-Within in_array (c ∷ cs) rest n le h =
      let all : length ((c ∷ cs) ++ rest) ≤ n = omega (arith, length-append (c ∷ cs) rest) in
      elim (Bool-cases (is_token b'[' (c ∷ cs))) [
        | inl e ↦ rw e (h ((c ∷ cs) ++ rest) all)
        | inr e ↦ rw e (
            Within-more (length ((c ∷ cs) ++ rest)) n _ all
              (parse_simple_value-Within codec ((c ∷ cs) ++ rest)))
      ]

  -- An array after its opening bracket.
  elements-Within :
      (f m : ℕ) (s : Bytes)
      → ((r : Bytes) → length r ≤ m → Within m (parse_value codec f r))
      → ((k : Kind) (r : Bytes) → length r ≤ m → Within m (parse_comma_value codec f k r))
      → length s ≤ m
      → Within m (
          if is_token b']' (find_next_token s).0
          then done (some (array anything nil)) (find_next_token s).1
          else next
              (parse_value codec f ((find_next_token s).0 ++ (find_next_token s).1))
              (elements_after (parse_comma_value codec f)))
  unfolding Within
  elements-Within f m s value comma le = elim (Bool-cases (is_token b']' (find_next_token s).0)) [
    | inl e ↦ rw e (omega (arith, find_next_token-length s))
    | inr e ↦ rw e (
        next-Within m m _ _ (value _ (pushed-length m s le)) (λ o r le'.
          elements_after-Within (parse_comma_value codec f) o m r (λ k. comma k r le') le'))
  ]

  mutual
    unfolding parse_value Within

    value-Within :
        (f n : ℕ) (s : Bytes) → 2 * n + 2 ≤ f → length s ≤ n → Within n (parse_value codec f s)
    value-Within zero n s h le = absurd (omega arith)
    value-Within (suc f) n s h le =
        value_from-Within _ (find_next_token s).0 (find_next_token s).1 n
          (omega (arith, find_next_token-length s)) (λ r le'. array-Within f n r (omega arith) le')

    array-Within :
        (f n : ℕ) (s : Bytes)
        → 2 * n + 1 ≤ f
        → length s ≤ n
        → Within n (parse_array_value codec f s)
    array-Within zero n s h le = absurd (omega arith)
    array-Within (suc f) n s h le = elim (Bool-cases (is_token b'[' (find_next_token s).0)) [
      | inl e ↦
          (let lt = taken-shorter b'[' s e in
            rw e (
              Within-more (n - 1) n _ (omega arith) (
                elements-Within f (n - 1) (find_next_token s).1
                  (λ r le'. value-Within f (n - 1) r (omega arith) le')
                  (λ k r le'. comma_value-Within f (n - 1) k r (omega arith) le') (omega arith))))
      | inr e ↦ rw e (pushed-length n s le)
    ]

    comma_value-Within :
        (f n : ℕ) (k : Kind) (s : Bytes)
        → 2 * n + 1 ≤ f
        → length s ≤ n
        → Within n (parse_comma_value codec f k s)
    comma_value-Within zero n k s h le = absurd (omega arith)
    comma_value-Within (suc f) n k s h le =
        elim (Bool-cases (is_token b',' (find_next_token s).0)) [
          | inl e ↦
              (let lt = taken-shorter b',' s e in
                rw e (
                  next-Within (n - 1) n _ _
                    (value-Within f (n - 1) (find_next_token s).1 (omega arith) (omega arith))
                    (λ o r le'. Within-more (n - 1) n _ (omega arith) (
                      item_then-Within k _ o (n - 1) r
                        (λ r' le''. comma_value-Within f (n - 1) k r' (omega arith) le'') le'))))
          | inr e ↦ rw e (pushed-length n s le)
        ]

  required-Within :
      (n : ℕ) (o : Option Value) (s : Bytes) → length s ≤ n → Within n (required codec o s)
  unfolding Within
  required-Within n none s le = tt
  required-Within n (some v) s le = le

  field_value-Within : (n : ℕ) (s : Bytes) → length s ≤ n → Within n (field_value codec s)
  unfolding field_value
  field_value-Within n s le =
      next-Within (length s) n (parse_value codec (value_fuel codec s) s) _
        (value-Within (value_fuel codec s) (length s) s (omega arith) (omega arith))
        (λ o r le'. required-Within n o r (omega arith))

  named-Within :
      (n : ℕ) (o : Option (Bytes × Bytes)) (s : Bytes)
      → Leaves n o
      → Within (suc n) (named codec o s)
  unfolding named Within Leaves
  named-Within n none s h = tt
  named-Within n (some ([], rest)) s h = tt
  named-Within n (some (c ∷ cs, rest)) s h =
      next-Within (suc n) (suc n) (expect quote (quote ∷ rest)) _
        (expect-Within quote (suc n) (quote ∷ rest) (omega arith))
        (λ u r le.
          next-Within (suc n) (suc n) (expect b':' r) _ (expect-Within b':' (suc n) r le)
            (λ u' r' le'. field_value-Within (suc n) r' le'))

  field-Within : (n : ℕ) (s : Bytes) → length s ≤ n → Within n (parse_field codec s)
  unfolding parse_field Within
  field-Within n s le = elim (Bool-cases (is_token quote (find_next_token s).0)) [
    | inl e ↦
        (let lt = taken-shorter quote s e in
          rw e (
            Within-more (suc (length (find_next_token s).1)) n _ (omega arith) (
              named-Within (length (find_next_token s).1) _ (find_next_token s).1
                (until_quote-Leaves (find_next_token s).1))))
    | inr e ↦ rw e (pushed-length n s le)
  ]

  comma_field-Within :
      (f n : ℕ) (s : Bytes) → length s < f → length s ≤ n → Within n (parse_comma_field codec f s)
  unfolding parse_comma_field Within
  comma_field-Within zero n s h le = absurd (omega arith)
  comma_field-Within (suc f) n s h le = elim (Bool-cases (is_token b',' (find_next_token s).0)) [
    | inl e ↦
        (let lt = taken-shorter b',' s e in
          rw e (
            next-Within (length (find_next_token s).1) n (parse_field codec (find_next_token s).1) _
              (field-Within (length (find_next_token s).1) (find_next_token s).1 (omega arith))
              (λ o r le'.
                next-Within n n (parse_comma_field codec f r) _
                  (comma_field-Within f n r (omega arith) (omega arith)) (λ vs r' le''. le''))))
    | inr e ↦ rw e (pushed-length n s le)
  ]

  fields_after-Within :
      (n : ℕ) (o : Option Value) (s : Bytes) → length s ≤ n → Within n (fields_after codec o s)
  unfolding fields_after Within
  fields_after-Within n none s le = le
  fields_after-Within n (some v) s le =
      next-Within n n (parse_comma_field codec (length s + 1) s) _
        (comma_field-Within (length s + 1) n s (omega arith) le)
        (λ vs r le'.
          next-Within n n (expect b'}' r) _ (expect-Within b'}' n r le') (λ u r' le''. le''))

  -- Reading an object always ends: on every text parse_json gives a result, an error or a panic, not
  -- the end of its fuel, and a result leaves no more bytes than there were.
  pub parse_json-Within : (s : Bytes) → Within (length s) (parse_json codec s)
  unfolding parse_json Within
  parse_json-Within s = elim (Bool-cases (is_token b'{' (find_next_token s).0)) [
    | inl e ↦
        (let lt = taken-shorter b'{' s e in
          rw e (
            next-Within (length s) (length s) (parse_field codec (find_next_token s).1) _
              (field-Within (length s) (find_next_token s).1 (omega arith))
              (λ o r le. fields_after-Within (length s) o r le)))
    | inr e ↦ rw e (pushed-length (length s) s (omega arith))
  ]
