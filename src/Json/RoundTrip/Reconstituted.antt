-- ===== src/Json/RoundTrip/Reconstituted.antt =====
-- ReconstituteObject of src/safeharbor/server/Persistence.go on the text that asJSON wrote.
use Prim.Native.String.{String}
use Prim.Native.Nat.{◌%◌}
use safe_harbor_server.Base.{
  ℕ, ◌<◌, Bool, false, Option, some, List, [], ◌∷◌, ◌++◌, ◌≡◌, refl, ◌∙◌, arith, contains,
}
use mathlib.Core.List.{append_assoc, map}
use safe_harbor_server.Auth.Sessions.{Bytes}
use safe_harbor_server.Json.Tokens.{codes, quote}
use safe_harbor_server.Json.Values.{Value, int, pos, text, flag, whole}
use safe_harbor_server.Json.Values as Values
use safe_harbor_server.Json.Reader.{done}
use safe_harbor_server.Json.Parse.{parse_json}
use safe_harbor_server.Json.Simple.{Codec, until_quote}
use safe_harbor_server.Json.Print.{Shown, joined, field_json, object_json}
use safe_harbor_server.Json.Reconstitute.{
  strings, bools, octets, converted, strings_of, bools_of, octets_of, argument, after_colon,
  retrieve_type_name, Method, values_of, applied, reconstitute_object,
}
use safe_harbor_server.Json.RoundTrip.{backslash}
use safe_harbor_server.Json.RoundTrip.Strings.{until_quote-plain}
use safe_harbor_server.Json.RoundTrip.Arrays.{All, items, array_of}
use safe_harbor_server.Json.RoundTrip.Fields.{FieldFits}
use safe_harbor_server.Json.RoundTrip.Objects.{values, parse_json-joined}

module _ (codec : Codec) where
  strings_of-items : (ss : List Bytes) → strings_of codec (items text ss) ≡ converted ss
  unfolding strings_of
  strings_of-items [] = refl
  strings_of-items (s ∷ ss) = rw (strings_of-items ss) refl

  pub argument-strings :
      (ss : List Bytes)
      → argument codec strings (some (array_of text Values.string ss)) ≡ converted ss
  unfolding argument
  argument-strings [] = refl
  argument-strings (s ∷ ss) = strings_of-items (s ∷ ss)

  bools_of-items : (bs : List Bool) → bools_of (items flag bs) ≡ converted bs
  unfolding bools_of
  bools_of-items [] = refl
  bools_of-items (b ∷ bs) = rw (bools_of-items bs) refl

  pub argument-bools :
      (bs : List Bool)
      → argument codec bools (some (array_of flag Values.boolean bs)) ≡ converted bs
  unfolding argument
  argument-bools [] = refl
  argument-bools (b ∷ bs) = bools_of-items (b ∷ bs)

  octets_of-items :
      (ns : List ℕ) → All (λ n. n < 256) ns → octets_of (items (λ n. int (pos n)) ns) ≡ converted ns
  unfolding octets_of
  octets_of-items [] h = refl
  octets_of-items (n ∷ ns) h =
      let low : n % 256 ≡ n = ground arith in rw (octets_of-items ns h.1) (rw low refl)

  pub argument-octets :
      (ns : List ℕ)
      → All (λ n. n < 256) ns
      → argument codec octets (some (array_of (λ n. int (pos n)) whole ns)) ≡ converted ns
  unfolding argument
  argument-octets [] h = refl
  argument-octets (n ∷ ns) h = octets_of-items (n ∷ ns) h

  retrieve_type_name-object_json :
      (type : String) (fields : List (Bytes × Shown))
      → contains quote (codes type) ≡ false
      → retrieve_type_name (object_json codec type fields)
        ≡ some (codes type, b' ' ∷ b'{' ∷ (joined (map (field_json codec) fields) ++ b'}' ∷ []))
  unfolding retrieve_type_name object_json until_quote after_colon
  retrieve_type_name-object_json type fields h =
      let end = joined (map (field_json codec) fields) ++ b'}' ∷ [] in
      let shape : codes type
            ++ quote ∷ codes ": {"
            ++ joined (map (field_json codec) fields)
            ++ b'}' ∷ []
          ≡ codes type ++ quote ∷ b':' ∷ b' ' ∷ b'{' ∷ end =
        append_assoc (codes type ++ quote ∷ codes ": {") (joined (map (field_json codec) fields))
          (b'}' ∷ [])
        ∙ append_assoc (codes type) (quote ∷ codes ": {") end in
      rw shape (rw (until_quote-plain (codes type) (b':' ∷ b' ' ∷ b'{' ∷ end) h) refl)

reconstitute_object-steps :
    {A : Type 0} (codec : Codec) (methods : Bytes → Option (Method A)) (m : Method A)
    (json name rest s : Bytes) (o : Option (List (Option Value)))
    → retrieve_type_name json ≡ some (name, rest)
    → methods name ≡ some m
    → parse_json codec rest ≡ done o s
    → reconstitute_object codec methods json ≡ applied codec name m (values_of o)
unfolding reconstitute_object
reconstitute_object-steps codec methods m json name rest s o e e' e'' = rw e (rw e' (rw e'' refl))

module _ (codec : Codec)
    (decode_plain : (s : Bytes) → contains backslash s ≡ false → codec.decode_string s ≡ s)
    (marshal_quoted : (t : ℕ) (shown : Bytes)
      → codec.marshal_time t ≡ some shown
      → (body : Bytes) × ((shown ≡ quote ∷ body ++ quote ∷ []) × (contains quote body ≡ false)))
    (unmarshal_marshal : (t : ℕ) (shown : Bytes)
      → codec.marshal_time t ≡ some shown
      → codec.unmarshal_time shown ≡ some t) where
  -- The text of an object is read by the method that its type name picks, on the values written.
  pub reconstitute_object-object_json :
      {A : Type 0} (methods : Bytes → Option (Method A)) (m : Method A) (type : String)
      → (x : Bytes × Shown) (xs : List (Bytes × Shown)) → contains quote (codes type) ≡ false
      → methods (codes type) ≡ some m
      → All (FieldFits codec) (x ∷ xs)
      → reconstitute_object codec methods (object_json codec type (x ∷ xs))
        ≡ applied codec (codes type) m (values (x ∷ xs))
  reconstitute_object-object_json methods m type x xs p e h =
      reconstitute_object-steps codec methods m _ _ _ [] (some (values (x ∷ xs)))
        (retrieve_type_name-object_json codec type (x ∷ xs) p) e
        (parse_json-joined codec decode_plain marshal_quoted unmarshal_marshal x xs [] h)
