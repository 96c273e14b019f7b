-- ===== src/Tests/Json.antt =====
-- Runs of the text form of persistent objects.
use safe_harbor_server.Base.{
  ◌∙◌, ℕ, suc, arith, ap, Option, some, contains, length, true, false, ◌≡◌, refl, none, some, [],
  ◌∷◌, ◌++◌,
}
use safe_harbor_server.Auth.Sessions.{Bytes, decimal_text}
use safe_harbor_server.Auth.Numerals.{read_decimal, read-decimal_text}
use safe_harbor_server.Json.Tokens.{codes, quote}
use safe_harbor_server.Json.Values.{text, flag, array, cons, nil, boolean}
use safe_harbor_server.Json.Reader.{done}
use safe_harbor_server.Json.Simple.{Codec, until_quote}
use safe_harbor_server.Json.Parse.{parse_json}
use safe_harbor_server.Json.Print.{
  Spelling, object_json, described, persist_obj_fields, acl_entry_fields,
}
use safe_harbor_server.Json.Reconstitute.{object, reconstitute_object}
use safe_harbor_server.Json.Methods.{method_by_name}
use safe_harbor_server.Json.Ends.{Within}
use safe_harbor_server.Json.Ends.Parse.{parse_json-Within}
use safe_harbor_server.Json.RoundTrip.Strings.{until_quote-plain}
use safe_harbor_server.Json.RoundTrip.Numbers.{AllDigits, decimal_text-AllDigits}
use safe_harbor_server.Json.RoundTrip.Persistent.{reconstitute_object-described}
use safe_harbor_server.Store.{AclEntry, acl_entry}

abbrev of_digits : Option (Bytes × Bytes) → Option ℕ
unfolding read_decimal
of_digits none = none
of_digits (some (a, b)) = some (read_decimal 0 a)

abbrev unquoted : Bytes → Option ℕ
unfolding until_quote
unquoted [] = none
unquoted (c ∷ cs) = of_digits (until_quote cs)

-- A codec without escapes, whose times are decimal texts in quotes.
abbrev plain_codec : Codec
plain_codec = record {
  decode_string = λ s. s;
  unmarshal_time = unquoted;
  marshal_time = λ t. some (quote ∷ decimal_text t ++ quote ∷ []);
  text_of_rune = λ z. [];
}

-- A numbering that knows decimal texts only.
abbrev decimals : Spelling
decimals = record { spell = decimal_text; number = read_decimal 0 }

abbrev entry : AclEntry
entry = record { id = 8; resource_id = 2; party_id = 16; permission_mask = false ∷ true ∷ [] }

entry_json :
    object_json plain_codec "ACLEntry" (acl_entry_fields decimals entry)
    ≡ codes
        "\"ACLEntry\": {\"Id\": \"8\", \"ResourceId\": \"2\", \"PartyId\": \"16\", \"PermissionMask\": [false, true]}"
unfolding object_json acl_entry_fields decimal_text
entry_json = refl

parsed :
    parse_json plain_codec (codes " {\"Id\": \"8\", \"PermissionMask\": [false, true]} x")
    ≡ done
        (some (
          some (text (codes "8"))
          ∷ some (array boolean (cons (flag false) (cons (flag true) nil)))
          ∷ []))
        (codes " x")
unfolding parse_json
parsed = refl

digits-unquoted : (s : Bytes) → AllDigits s → contains quote s ≡ false
digits-unquoted [] h = refl
digits-unquoted (c ∷ cs) h = ground (arith, digits-unquoted cs h.1)

decimal_text-unquoted : (t : ℕ) → contains quote (decimal_text t) ≡ false
decimal_text-unquoted t = digits-unquoted (decimal_text t) (decimal_text-AllDigits t)

unmarshal-plain_text :
    (t : ℕ) → plain_codec.unmarshal_time (quote ∷ decimal_text t ++ quote ∷ []) ≡ some t
unfolding read_decimal unquoted
unmarshal-plain_text t =
    rw (until_quote-plain (decimal_text t) [] (decimal_text-unquoted t))
      (ap some (read-decimal_text t (suc t) (omega arith)).0)

shown_text :
    (t : ℕ) (shown : Bytes)
    → plain_codec.marshal_time t ≡ some shown
    → shown ≡ quote ∷ decimal_text t ++ quote ∷ []
shown_text t shown e = cc e

unmarshal-plain_codec :
    (t : ℕ) (shown : Bytes)
    → plain_codec.marshal_time t ≡ some shown
    → plain_codec.unmarshal_time shown ≡ some t
unmarshal-plain_codec t shown e =
    ap plain_codec.unmarshal_time (shown_text t shown e) ∙ unmarshal-plain_text t

abbrev nested : Bytes
nested = codes "{\"A\": [1, [2, x]], \"B\": false}"

parse_json-Within_example : Within (length nested) (parse_json plain_codec nested)
parse_json-Within_example = parse_json-Within plain_codec nested

reconstitute_object-described_example :
    reconstitute_object plain_codec
      (method_by_name decimals (λ _. none))
      (object_json plain_codec "ACLEntry" (acl_entry_fields decimals entry))
    ≡ object (codes "ACLEntry") (acl_entry entry)
unfolding described acl_entry_fields persist_obj_fields decimal_text
reconstitute_object-described_example =
    reconstitute_object-described decimals (λ t. (read-decimal_text t (suc t) (omega arith)).0)
      plain_codec (λ s h. refl)
      (λ t shown e. (decimal_text t, (shown_text t shown e, decimal_text-unquoted t)))
      unmarshal-plain_codec (λ _. none) (acl_entry entry) "ACLEntry"
      (acl_entry_fields decimals entry) refl
      (
        ((omega arith, refl), (refl, refl)),
        (
          ((omega arith, refl), (refl, refl)),
          (((omega arith, refl), (refl, refl)), (((omega arith, refl), tt), tt)),
        ),
      )
