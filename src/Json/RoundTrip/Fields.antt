-- ===== src/Json/RoundTrip/Fields.antt =====
-- The fields of an object of src/safeharbor/server/DBjson.go.
use safe_harbor_server.Base.{
  ℕ, zero, suc, ◌+◌, ◌<◌, ◌≤◌, Bool, true, false, some, List, [], ◌∷◌, ◌++◌, ◌≡◌, refl, ap, ◌∙◌,
  arith, length, length-append, contains,
}
use mathlib.Core.List.{append_assoc, map}
use safe_harbor_server.Auth.Sessions.{Bytes, decimal_text}
use safe_harbor_server.Json.Tokens.{codes, quote, is_special, is_space, find_next_token}
use safe_harbor_server.Json.Values.{
  Value, pos, int, text, flag, time, Kind, whole, same_kind, kind_of,
}
use safe_harbor_server.Json.Values as Values
use safe_harbor_server.Json.Reader.{done, next}
use safe_harbor_server.Json.Simple.{Codec, starts_with_digit}
use safe_harbor_server.Json.Parse.{
  expect, parse_value, value_fuel, required, field_value, named, parse_field,
}
use safe_harbor_server.Json.Print.{
  Shown, string, boolean, moment, strings, booleans, octets, separated, joined, list_json,
  string_json, bool_to_string, time_json, shown_json, field_json,
}
use safe_harbor_server.Json.RoundTrip.{backslash, IsPlain}
use safe_harbor_server.Json.RoundTrip.Strings.{until_quote-plain}
use safe_harbor_server.Json.RoundTrip.Numbers.{
  AllDigits, decimal_text-AllDigits, decimal_text-starts,
}
use safe_harbor_server.Json.RoundTrip.Simple.{
  simple-decimal_text, simple-bool, simple-string, simple-time,
}
use safe_harbor_server.Json.RoundTrip.Arrays.{
  Starts, Starts-append, value-Starts, parse_value-space, All, array_of, value-list_json,
}

-- A field's value as it is read.
unfoldable pub value_of : Shown → Value
value_of (string s) = text s
value_of (boolean b) = flag b
value_of (moment t) = time t
value_of (strings ss) = array_of text Values.string ss
value_of (booleans bs) = array_of flag Values.boolean bs
value_of (octets ns) = array_of (λ n. int (pos n)) whole ns

-- Strings are plain, times have a text, and bytes are in range.
abbrev pub Fits : Codec → Shown → Type 0
Fits codec (string s) = IsPlain s
Fits codec (boolean b) = Unit
Fits codec (moment t) = (shown : Bytes) × (codec.marshal_time t ≡ some shown)
Fits codec (strings ss) = All IsPlain ss
Fits codec (booleans bs) = Unit
Fits codec (octets ns) = All (λ n. n < 256) ns

-- A field with a name that asJSON writes.
abbrev pub FieldFits : Codec → Bytes × Shown → Type 0
FieldFits codec field =
    ((0 < length field.0) × (contains quote field.0 ≡ false)) × Fits codec field.1

abbrev elements : Shown → ℕ
elements (strings ss) = length ss
elements (booleans bs) = length bs
elements (octets ns) = length ns
elements _ = 0

All-Unit : {A : Type 0} (xs : List A) → All (λ _. Unit) xs
All-Unit [] = tt
All-Unit (x ∷ xs) = (tt, All-Unit xs)

pub length-separated :
    {A : Type 0} (print : A → Bytes) (xs : List A) → length xs ≤ length (separated (map print xs))
length-separated print [] = omega arith
length-separated print (x ∷ xs) =
    omega (arith, length-separated print xs, length-append (print x) (separated (map print xs)))

length-list_json :
    {A : Type 0} (print : A → Bytes) (xs : List A) → length xs ≤ length (list_json (map print xs))
length-list_json print [] = omega arith
length-list_json print (x ∷ xs) = omega (
  arith,
  length-separated print xs,
  length-append (print x) (separated (map print xs)),
  length-append (joined (map print (x ∷ xs))) (b']' ∷ []),
)

elements-shown_json : (codec : Codec) (v : Shown) → elements v ≤ length (shown_json codec v)
unfolding shown_json
elements-shown_json codec (string s) = omega arith
elements-shown_json codec (boolean b) = omega arith
elements-shown_json codec (moment t) = omega arith
elements-shown_json codec (strings ss) = length-list_json string_json ss
elements-shown_json codec (booleans bs) = length-list_json bool_to_string bs
elements-shown_json codec (octets ns) = length-list_json decimal_text ns

string-Starts : (s : Bytes) → Starts (string_json s)
unfolding is_space
string-Starts s = (refl, (refl, refl))

bool-Starts : (b : Bool) → Starts (bool_to_string b)
unfolding bool_to_string is_space
bool-Starts true = (refl, (refl, refl))
bool-Starts false = (refl, (refl, refl))

digits-Starts : (s : Bytes) → AllDigits s → starts_with_digit s ≡ true → Starts s
unfolding is_space
digits-Starts [] h st = ground arith
digits-Starts (c ∷ cs) h st = (ground arith, (ground arith, ground arith))

decimal_text-Starts : (n : ℕ) → Starts (decimal_text n)
decimal_text-Starts n =
    digits-Starts (decimal_text n) (decimal_text-AllDigits n) (decimal_text-starts n)

module _ (codec : Codec)
    (decode_plain : (s : Bytes) → contains backslash s ≡ false → codec.decode_string s ≡ s)
    (marshal_quoted : (t : ℕ) (shown : Bytes)
      → codec.marshal_time t ≡ some shown
      → (body : Bytes) × ((shown ≡ quote ∷ body ++ quote ∷ []) × (contains quote body ≡ false)))
    (unmarshal_marshal : (t : ℕ) (shown : Bytes)
      → codec.marshal_time t ≡ some shown
      → codec.unmarshal_time shown ≡ some t) where
  value-shown :
      (f : ℕ) (v : Shown) (d : ℕ) (rest : Bytes)
      → Fits codec v
      → is_special d ≡ true
      → elements v + 2 < f
      → parse_value codec f (shown_json codec v ++ d ∷ rest) ≡ done (some (value_of v)) (d ∷ rest)
  unfolding shown_json time_json value_of same_kind kind_of is_space
  value-shown zero v d rest h sp lt = absurd (omega arith)
  value-shown (suc f) (string s) d rest h sp lt =
      value-Starts codec f _ (Starts-append (string_json s) (d ∷ rest) (string-Starts s))
      ∙ simple-string codec decode_plain s (d ∷ rest) h
  value-shown (suc f) (boolean b) d rest h sp lt =
      value-Starts codec f _ (Starts-append (bool_to_string b) (d ∷ rest) (bool-Starts b))
      ∙ simple-bool codec b d rest sp
  value-shown (suc f) (moment t) d rest h sp lt =
      value-Starts codec f (time_json codec t ++ d ∷ rest) (refl, (refl, refl))
      ∙ simple-time codec marshal_quoted unmarshal_marshal t h.0 (d ∷ rest) h.1
  value-shown (suc f) (strings ss) d rest h sp lt =
      value-list_json codec string_json text IsPlain Values.string refl (λ s. refl) string-Starts
        (λ s e r p sp'. simple-string codec decode_plain s (e ∷ r) p) (suc f) ss (d ∷ rest) h lt
  value-shown (suc f) (booleans bs) d rest h sp lt =
      value-list_json codec bool_to_string flag (λ _. Unit) Values.boolean refl (λ s. refl)
        bool-Starts (λ b e r p sp'. simple-bool codec b e r sp') (suc f) bs (d ∷ rest) (All-Unit bs)
        lt
  value-shown (suc f) (octets ns) d rest h sp lt =
      value-list_json codec decimal_text (λ n. int (pos n)) (λ n. n < 256) whole refl (λ s. refl)
        decimal_text-Starts (λ n e r p sp'. simple-decimal_text codec n e r (omega arith) sp')
        (suc f) ns (d ∷ rest) h lt

  parse_value-space-more :
      (f : ℕ) (s : Bytes) → 0 < f → parse_value codec f (b' ' ∷ s) ≡ parse_value codec f s
  parse_value-space-more zero s lt = absurd (omega arith)
  parse_value-space-more (suc f) s lt = parse_value-space codec f s

  field_value-shown :
      (v : Shown) (d : ℕ) (rest : Bytes)
      → Fits codec v
      → is_special d ≡ true
      → field_value codec (b' ' ∷ (shown_json codec v ++ d ∷ rest))
        ≡ done (some (value_of v)) (d ∷ rest)
  unfolding field_value
  field_value-shown v d rest h sp =
      let s = shown_json codec v ++ d ∷ rest in
      let enough : elements v + 2 < value_fuel codec (b' ' ∷ s) =
        omega (arith, elements-shown_json codec v, length-append (shown_json codec v) (d ∷ rest)) in
      ap (λ r. next r (required codec))
        (parse_value-space-more (value_fuel codec (b' ' ∷ s)) s (omega arith)
          ∙ value-shown (value_fuel codec (b' ' ∷ s)) v d rest h sp enough)

  named-shown :
      (name : Bytes) (s : Bytes)
      → 0 < length name
      → named codec (some (name, b':' ∷ s)) (name ++ quote ∷ b':' ∷ s) ≡ field_value codec s
  unfolding named expect find_next_token
  named-shown [] s lt = absurd (omega arith)
  named-shown (c ∷ cs) s lt = refl

  pub field-shown :
      (field : Bytes × Shown) (d : ℕ) (rest : Bytes)
      → FieldFits codec field
      → is_special d ≡ true
      → parse_field codec (field_json codec field ++ d ∷ rest)
        ≡ done (some (value_of field.1)) (d ∷ rest)
  unfolding parse_field field_json
  field-shown (name, v) d rest h sp =
      let shape : (name ++ quote ∷ codes ": ") ++ shown_json codec v ++ d ∷ rest
          ≡ name ++ quote ∷ b':' ∷ b' ' ∷ (shown_json codec v ++ d ∷ rest) =
        append_assoc (name ++ quote ∷ codes ": ") (shown_json codec v) (d ∷ rest)
        ∙ append_assoc name (quote ∷ codes ": ") (shown_json codec v ++ d ∷ rest) in
      rw shape (
        rw (until_quote-plain name (b':' ∷ b' ' ∷ (shown_json codec v ++ d ∷ rest)) h.0.1) (
          named-shown name (b' ' ∷ (shown_json codec v ++ d ∷ rest)) h.0.0
          ∙ field_value-shown v d rest h.1 sp))
