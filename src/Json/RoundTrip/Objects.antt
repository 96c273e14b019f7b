-- ===== src/Json/RoundTrip/Objects.antt =====
-- An object of src/safeharbor/server/DBjson.go: parseJSON reads the fields that asJSON writes.
use safe_harbor_server.Base.{
  ℕ, zero, suc, ◌+◌, ◌<◌, false, Option, none, some, List, [], ◌∷◌, ◌++◌, ◌≡◌, refl, ap, ◌∙◌, arith,
  length, length-append, contains,
}
use mathlib.Core.List.{append_assoc, map}
use safe_harbor_server.Auth.Sessions.{Bytes}
use safe_harbor_server.Json.Tokens.{quote, is_special, is_space, find_next_token}
use safe_harbor_server.Json.Values.{Value}
use safe_harbor_server.Json.Reader.{done}
use safe_harbor_server.Json.Simple.{Codec}
use safe_harbor_server.Json.Parse.{
  expect, parse_field, or_empty, parse_comma_field, fields_after, parse_json,
}
use safe_harbor_server.Json.Print.{Shown, separated, joined, field_json}
use safe_harbor_server.Json.RoundTrip.{backslash}
use safe_harbor_server.Json.RoundTrip.Arrays.{All}
use safe_harbor_server.Json.RoundTrip.Fields.{value_of, FieldFits, field-shown, length-separated}

-- The values of fields as they are read.
abbrev pub values : List (Bytes × Shown) → List (Option Value)
values [] = []
values (x ∷ xs) = some (value_of x.1) ∷ values xs

abbrev found : List (Bytes × Shown) → Option (List (Option Value))
found [] = none
found (x ∷ xs) = some (values (x ∷ xs))

parse_field-space : (codec : Codec) (s : Bytes) → parse_field codec (b' ' ∷ s) ≡ parse_field codec s
unfolding parse_field find_next_token is_space
parse_field-space codec s = refl

module _ (codec : Codec)
    (decode_plain : (s : Bytes) → contains backslash s ≡ false → codec.decode_string s ≡ s)
    (marshal_quoted : (t : ℕ) (shown : Bytes)
      → codec.marshal_time t ≡ some shown
      → (body : Bytes) × ((shown ≡ quote ∷ body ++ quote ∷ []) × (contains quote body ≡ false)))
    (unmarshal_marshal : (t : ℕ) (shown : Bytes)
      → codec.marshal_time t ≡ some shown
      → codec.unmarshal_time shown ≡ some t) where
  -- Further fields, and what follows the object.
  ends : List (Bytes × Shown) → Bytes → Bytes
  ends xs rest = separated (map (field_json codec) xs) ++ b'}' ∷ rest

  field_before :
      (x : Bytes × Shown) (xs : List (Bytes × Shown)) (rest : Bytes)
      → FieldFits codec x
      → parse_field codec (field_json codec x ++ ends xs rest)
        ≡ done (some (value_of x.1)) (ends xs rest)
  unfolding ends is_special
  field_before x [] rest h =
      field-shown codec decode_plain marshal_quoted unmarshal_marshal x b'}' rest h refl
  field_before x (y ∷ ys) rest h =
      field-shown codec decode_plain marshal_quoted unmarshal_marshal x b',' _ h refl

  or_empty-found : (xs : List (Bytes × Shown)) → or_empty codec (found xs) ≡ values xs
  or_empty-found [] = refl
  or_empty-found (x ∷ xs) = refl

  length-ends : (xs : List (Bytes × Shown)) (rest : Bytes) → length xs < length (ends xs rest) + 1
  unfolding ends
  length-ends xs rest = omega (
    arith,
    length-separated (field_json codec) xs,
    length-append (separated (map (field_json codec) xs)) (b'}' ∷ rest),
  )

  comma_field-ends :
      (f : ℕ) (xs : List (Bytes × Shown)) (rest : Bytes)
      → All (FieldFits codec) xs
      → length xs < f
      → parse_comma_field codec f (ends xs rest) ≡ done (found xs) (b'}' ∷ rest)
  unfolding parse_comma_field ends
  comma_field-ends zero xs rest h lt = absurd (omega arith)
  comma_field-ends (suc f) [] rest h lt = refl
  comma_field-ends (suc f) (x ∷ xs) rest h lt =
      let shape : field_json codec x ++ separated (map (field_json codec) xs) ++ b'}' ∷ rest
          ≡ field_json codec x ++ ends xs rest =
        append_assoc (field_json codec x) (separated (map (field_json codec) xs)) (b'}' ∷ rest) in
      rw shape (
        rw
          (parse_field-space codec (field_json codec x ++ ends xs rest)
            ∙ field_before x xs rest h.0)
          (rw (comma_field-ends f xs rest h.1 (omega arith))
            (ap (λ vs. done (some (some (value_of x.1) ∷ vs)) (b'}' ∷ rest)) (or_empty-found xs))))

  fields_after-ends :
      (v : Value) (xs : List (Bytes × Shown)) (rest : Bytes)
      → All (FieldFits codec) xs
      → fields_after codec (some v) (ends xs rest) ≡ done (some (some v ∷ values xs)) rest
  unfolding fields_after expect
  fields_after-ends v xs rest h =
      let enough : length xs < length (ends xs rest) + 1 = length-ends xs rest in
      rw (comma_field-ends (length (ends xs rest) + 1) xs rest h enough)
        (ap (λ vs. done (some (some v ∷ vs)) rest) (or_empty-found xs))

  pub parse_json-joined :
      (x : Bytes × Shown) (xs : List (Bytes × Shown)) (rest : Bytes)
      → All (FieldFits codec) (x ∷ xs)
      → parse_json codec (b' ' ∷ b'{' ∷ (joined (map (field_json codec) (x ∷ xs)) ++ b'}' ∷ rest))
        ≡ done (some (values (x ∷ xs))) rest
  unfolding parse_json ends
  parse_json-joined x xs rest h =
      rw (append_assoc (field_json codec x) (separated (map (field_json codec) xs)) (b'}' ∷ rest))
        (rw (field_before x xs rest h.0) (fields_after-ends (value_of x.1) xs rest h.1))
