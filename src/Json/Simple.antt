-- ===== src/Json/Simple.antt =====
-- The simple values of src/safeharbor/server/DBjson.go: numbers, strings, booleans and times. A value
-- that is not valid, which means that none was found, is `none`.
use safe_harbor_server.Base.{
  ℕ, ◌+◌, ◌-◌, ◌*◌, Bool, true, false, ◌&&◌, Option, none, some, [], ◌∷◌, ◌++◌, ◌==◌, ltb, leb,
  if◌then◌else◌, contains,
}
use safe_harbor_server.Auth.Sessions.{Bytes, bytes_eq}
use safe_harbor_server.Json.Tokens.{codes, quote, find_next_token, is_token}
use safe_harbor_server.Json.Values.{ℤ, pos, negsuc, Value, int, text, flag, time}
use safe_harbor_server.Json.Reader.{Read, done, fault, Parser, ◌>>=◌, refuse}

-- What is used of the package `rest`, of time.Time and of the language: the unescaping of a string,
-- the two directions of a time's JSON, and the text of a code point.
pub record Codec : Type 0 where
  pub decode_string : Bytes → Bytes
  pub unmarshal_time : Bytes → Option ℕ
  pub marshal_time : ℕ → Option Bytes
  pub text_of_rune : ℤ → Bytes

abbrev pub is_digit : ℕ → Bool
is_digit c = leb 48 c && leb c 57

-- The value of the digits at the start of a token, after `n`.
unfoldable pub digits_value : ℕ → Bytes → ℕ
digits_value n [] = n
digits_value n (c ∷ cs) =
    let rest = digits_value (10 * n + (c - 48)) cs in if is_digit c then rest else n

abbrev pub starts_with_digit : Bytes → Bool
starts_with_digit [] = false
starts_with_digit (c ∷ cs) = is_digit c

-- Digits after a plus or no sign, and after a minus, in the range of a 64-bit int.
unfoldable pub unsigned : Bytes → Option ℤ
unfolding digits_value
unsigned cs =
    if starts_with_digit cs && ltb (digits_value 0 cs) 9223372036854775808
    then some (pos (digits_value 0 cs))
    else none

unfoldable pub negated : Bytes → Option ℤ
unfolding digits_value
negated cs =
    if starts_with_digit cs && leb (digits_value 0 cs) 9223372036854775808
    then some (if digits_value 0 cs == 0 then pos 0 else negsuc (digits_value 0 cs - 1))
    else none

-- fmt.Sscanf(token, "%d", &number), which reads a prefix of the token.
unfoldable pub scan_int : Bytes → Option ℤ
unfolding unsigned negated
scan_int [] = none
scan_int (c ∷ cs) =
    if c == b'-' then negated cs else if c == b'+' then unsigned cs else unsigned (c ∷ cs)

-- A token that is taken, or pushed back.
abbrev pub taken : Option Value → Bytes → Bytes → Read (Option Value)
taken (some v) token rest = done (some v) rest
taken none token rest = done none (token ++ rest)

-- parseJSON_number
unfoldable pub parse_number : Parser (Option Value)
unfolding find_next_token scan_int
parse_number s =
    let (token, rest) = find_next_token s in
    taken (elim (scan_int token) [ none ↦ none | some z ↦ some (int z) ]) token rest

-- parseJSON_bool_value
unfoldable pub parse_bool_value : Parser (Option Value)
unfolding find_next_token bytes_eq
parse_bool_value s =
    let (token, rest) = find_next_token s in
    taken
      (if bytes_eq token (codes "true")
        then some (flag true)
        else if bytes_eq token (codes "false")
        then some (flag false)
        else none)
      token rest

-- strings.Index(s, "\""): the bytes before the first double quote, and those after it.
unfoldable pub until_quote : Bytes → Option (Bytes × Bytes)
until_quote [] = none
until_quote (c ∷ cs) =
    let rest = until_quote cs in
    if c == quote then some ([], cs) else elim rest [ none ↦ none | some (a, b) ↦ some (c ∷ a, b) ]

module _ (codec : Codec) where
  -- The loop of parseJSON_string_value. A double quote ends the string if the decoded text from
  -- startPos up to it holds one; otherwise startPos moves past it.
  unfoldable pub string_end : Bytes → Bytes → Option (Bytes × Bytes)
  string_end seen [] = none
  string_end seen (c ∷ cs) =
      let past = string_end [] cs in
      let more = string_end (seen ++ c ∷ []) cs in
      if c == quote
      then (if contains quote (codec.decode_string (seen ++ quote ∷ []))
          then some (seen, cs)
          else past)
      else more

  abbrev pub decoded : Option (Bytes × Bytes) → Read (Option Value)
  decoded none = fault
  decoded (some (strval, rest)) = done (some (text (codec.decode_string strval))) rest

  -- parseJSON_string_value
  unfoldable pub parse_string_value : Parser (Option Value)
  unfolding find_next_token string_end
  parse_string_value s =
      let (token, rest) = find_next_token s in
      if is_token quote token then decoded (string_end [] rest) else done none (token ++ rest)

  abbrev pub unmarshalled : Option ℕ → Bytes → Read (Option Value)
  unmarshalled none rest = fault
  unmarshalled (some t) rest = done (some (time t)) rest

  abbrev pub second_quote : Option (Bytes × Bytes) → Read (Option Value)
  second_quote none = fault
  second_quote (some (body, rest)) =
      unmarshalled (codec.unmarshal_time (quote ∷ body ++ quote ∷ [])) rest

  unfoldable pub first_quote : Option (Bytes × Bytes) → Read (Option Value)
  unfolding until_quote
  first_quote none = fault
  first_quote (some (skipped, rest)) = second_quote (until_quote rest)

  -- parseJSON_time_value
  unfoldable pub parse_time_value : Parser (Option Value)
  unfolding find_next_token bytes_eq until_quote first_quote
  parse_time_value s =
      let (token, rest) = find_next_token s in
      if bytes_eq token (codes "time")
      then first_quote (until_quote rest)
      else done none (token ++ rest)

  abbrev pub or_else : Option Value → Parser (Option Value) → Parser (Option Value)
  or_else none p s = p s
  or_else (some v) p s = done (some v) s

  -- parseJSON_simple_value
  unfoldable pub parse_simple_value : Parser (Option Value)
  unfolding parse_number parse_string_value parse_bool_value parse_time_value
  parse_simple_value = do
    n ← parse_number
    or_else n (do
      s ← parse_string_value
      or_else s (do b ← parse_bool_value; or_else b (do t ← parse_time_value; or_else t refuse)))
