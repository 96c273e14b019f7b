-- ===== src/Json/Parse.antt =====
-- Values, fields and objects of src/safeharbor/server/DBjson.go. Each call that one of these makes of
-- another, but for the call of parseJSON_array_value, comes after a token that was taken.
use safe_harbor_server.Base.{
  ℕ, zero, suc, ◌+◌, ◌*◌, Option, none, some, List, [], ◌∷◌, ◌++◌, if◌then◌else◌, length,
}
use safe_harbor_server.Auth.Sessions.{Bytes}
use safe_harbor_server.Json.Tokens.{quote, find_next_token, is_token}
use safe_harbor_server.Json.Values.{
  Value, Items, nil, cons, array, Kind, anything, kind_of, same_kind,
}
use safe_harbor_server.Json.Reader.{
  done, fault, crash, out_of_fuel, Parser, next, ◌>>=◌, ◌>>◌, pure, refuse,
}
use safe_harbor_server.Json.Simple.{Codec, parse_simple_value, until_quote}

-- The next token is the one character, or it is an error.
unfoldable pub expect : ℕ → Parser (Unit {0})
unfolding find_next_token
expect c s =
    let (token, rest) = find_next_token s in if is_token c token then done tt rest else fault

-- reflect.Append of a value to a slice of a type, which panics where the value is of another type or
-- is not valid.
unfoldable pub appended : Kind → Option Value → Parser Value
unfolding kind_of same_kind
appended k none s = crash
appended k (some v) s = if same_kind (kind_of v) k then done v s else crash

abbrev pub or_nil : Option Items → Items
or_nil none = nil
or_nil (some xs) = xs

-- The rest of an array after its first element, given the parser of the further ones.
unfoldable pub elements_after :
    (Kind → Parser (Option Items)) → Option Value → Parser (Option Value)
unfolding expect kind_of
elements_after more none = pure none
elements_after more (some v) = do
  xs ← more (kind_of v)
  expect b']'
  pure (some (array (kind_of v) (cons v (or_nil xs))))

-- The rest of parseJSON_comma_value after a value.
unfoldable pub item_then : Kind → Parser (Option Items) → Option Value → Parser (Option Items)
unfolding appended
item_then k more o = do v ← appended k o; xs ← more; pure (some (cons v (or_nil xs)))

module _ (codec : Codec) where
  -- parseJSON_value, once the first token is known.
  unfoldable pub value_from : Parser (Option Value) → Bytes → Parser (Option Value)
  unfolding parse_simple_value
  value_from in_array [] rest = done none rest
  value_from in_array (c ∷ cs) rest =
      if is_token b'[' (c ∷ cs)
      then in_array ((c ∷ cs) ++ rest)
      else parse_simple_value codec ((c ∷ cs) ++ rest)

  unfoldable mutual
    unfolding find_next_token value_from elements_after item_then

    -- parseJSON_value
    pub parse_value : ℕ → Parser (Option Value)
    parse_value zero s = out_of_fuel
    parse_value (suc f) s =
        let (token, rest) = find_next_token s in value_from (parse_array_value f) token rest

    -- parseJSON_array_value
    pub parse_array_value : ℕ → Parser (Option Value)
    parse_array_value zero s = out_of_fuel
    parse_array_value (suc f) s =
        let (token, rest) = find_next_token s in
        let (inner, after) = find_next_token rest in
        let elements =
          next (parse_value f (inner ++ after)) (elements_after (parse_comma_value f)) in
        if is_token b'[' token
        then (if is_token b']' inner then done (some (array anything nil)) after else elements)
        else done none (token ++ rest)

    -- parseJSON_comma_value
    pub parse_comma_value : ℕ → Kind → Parser (Option Items)
    parse_comma_value zero k s = out_of_fuel
    parse_comma_value (suc f) k s =
        let (token, rest) = find_next_token s in
        let more = next (parse_value f rest) (item_then k (parse_comma_value f k)) in
        if is_token b',' token then more else done none (token ++ rest)

  -- The fuel that a text needs.
  abbrev pub value_fuel : Bytes → ℕ
  value_fuel s = 2 * length s + 2

  abbrev pub required : Option Value → Parser (Option Value)
  required none = refuse
  required (some v) = pure (some v)

  -- A value of a field, which must be there.
  unfoldable pub field_value : Parser (Option Value)
  unfolding parse_value
  field_value s = next (parse_value (value_fuel s) s) required

  unfoldable pub named : Option (Bytes × Bytes) → Parser (Option Value)
  unfolding expect field_value
  named none s = fault
  named (some ([], rest)) s = fault
  named (some (c ∷ cs, rest)) s =
      next (expect quote (quote ∷ rest)) (λ u. expect b':' >> field_value)

  -- parseJSON_field, with parseJSON_field_name; the name is not used.
  unfoldable pub parse_field : Parser (Option Value)
  unfolding find_next_token named until_quote
  parse_field s =
      let (token, rest) = find_next_token s in
      if is_token quote token then named (until_quote rest) rest else done none (token ++ rest)

  abbrev pub or_empty : Option (List (Option Value)) → List (Option Value)
  or_empty none = []
  or_empty (some vs) = vs

  -- parseJSON_comma_field
  unfoldable pub parse_comma_field : ℕ → Parser (Option (List (Option Value)))
  unfolding find_next_token parse_field
  parse_comma_field zero s = out_of_fuel
  parse_comma_field (suc f) s =
      let (token, rest) = find_next_token s in
      let more =
        next (parse_field rest)
          (λ o s1. next (parse_comma_field f s1) (λ vs. pure (some (o ∷ or_empty vs)))) in
      if is_token b',' token then more else done none (token ++ rest)

  -- The rest of an object after its first field.
  unfoldable pub fields_after : Option Value → Parser (Option (List (Option Value)))
  unfolding expect parse_comma_field
  fields_after none s = done (some []) s
  fields_after (some v) s =
      next (parse_comma_field (length s + 1) s)
        (λ vs s1. next (expect b'}' s1) (λ u. pure (some (some v ∷ or_empty vs))))

  -- parseJSON and parseJSON_obj_value; no result where the first token is not an opening brace.
  unfoldable pub parse_json : Parser (Option (List (Option Value)))
  unfolding find_next_token parse_field fields_after
  parse_json s =
      let (token, rest) = find_next_token s in
      if is_token b'{' token
      then next (parse_field rest) fields_after
      else done none (token ++ rest)
