-- ===== src/Json/RoundTrip/Simple.antt =====
-- The simple values of src/safeharbor/server/DBjson.go read back what asJSON writes.
use safe_harbor_server.Base.{
  ℕ, ◌<◌, Bool, true, false, none, some, [], ◌∷◌, ◌++◌, ◌≡◌, refl, ap, sym, ◌∙◌, contains,
  if◌then◌else◌,
}
use mathlib.Core.List.{append_assoc}
use safe_harbor_server.Auth.Sessions.{Bytes, bytes_eq, decimal_text}
use safe_harbor_server.Json.Tokens.{codes, quote, is_special, is_space, is_token}
use safe_harbor_server.Json.Values.{pos, int, text, flag, time}
use safe_harbor_server.Json.Reader.{done}
use safe_harbor_server.Json.Simple.{
  Codec, scan_int, unsigned, parse_number, parse_bool_value, parse_string_value, parse_time_value,
  parse_simple_value, first_quote, until_quote,
}
use safe_harbor_server.Json.Print.{string_json, bool_to_string, time_json}
use safe_harbor_server.Json.RoundTrip.{backslash, IsPlain}
use safe_harbor_server.Json.RoundTrip.Strings.{until_quote-plain, string_end-plain}
use safe_harbor_server.Json.RoundTrip.Words.{IsWord, find_next_token-IsWord}
use safe_harbor_server.Json.RoundTrip.Numbers.{
  decimal_text-starts, decimal_text-AllDigits, scan_int-decimal_text, find_next_token-digits,
}

pub parse_number-decimal_text :
    (n d : ℕ) (rest : Bytes)
    → n < 9223372036854775808
    → is_special d ≡ true
    → parse_number (decimal_text n ++ d ∷ rest) ≡ done (some (int (pos n))) (d ∷ rest)
unfolding parse_number
parse_number-decimal_text n d rest lt sp =
    rw
      (find_next_token-digits (decimal_text n) d rest (decimal_text-AllDigits n)
        (decimal_text-starts n) sp)
      (rw (scan_int-decimal_text n lt) refl)

not_a_number :
    (c : ℕ) (cs : Bytes) (d : ℕ) (rest : Bytes)
    → IsWord (c ∷ cs)
    → is_special d ≡ true
    → scan_int (c ∷ cs) ≡ none
    → parse_number ((c ∷ cs) ++ d ∷ rest) ≡ done none ((c ∷ cs) ++ d ∷ rest)
unfolding parse_number
not_a_number c cs d rest w sp h = rw (find_next_token-IsWord c cs d rest w sp) (rw h refl)

module _ (codec : Codec) where
  not_a_string :
      (c : ℕ) (cs : Bytes) (d : ℕ) (rest : Bytes)
      → IsWord (c ∷ cs)
      → is_special d ≡ true
      → is_token quote (c ∷ cs) ≡ false
      → parse_string_value codec ((c ∷ cs) ++ d ∷ rest) ≡ done none ((c ∷ cs) ++ d ∷ rest)
  unfolding parse_string_value
  not_a_string c cs d rest w sp h = rw (find_next_token-IsWord c cs d rest w sp) (rw h refl)

  pub simple-decimal_text :
      (n d : ℕ) (rest : Bytes)
      → n < 9223372036854775808
      → is_special d ≡ true
      → parse_simple_value codec (decimal_text n ++ d ∷ rest) ≡ done (some (int (pos n))) (d ∷ rest)
  unfolding parse_simple_value
  simple-decimal_text n d rest lt sp = rw (parse_number-decimal_text n d rest lt sp) refl

  -- A word is left to parse_bool_value, which compares it.
  word_left :
      (c : ℕ) (cs : Bytes) (d : ℕ) (rest : Bytes)
      → IsWord (c ∷ cs)
      → is_special d ≡ true
      → scan_int (c ∷ cs) ≡ none
      → is_token quote (c ∷ cs) ≡ false
      → (b : Bool)
      → ((if bytes_eq (c ∷ cs) (codes "true")
            then some (flag true)
            else if bytes_eq (c ∷ cs) (codes "false")
            then some (flag false)
            else none)
          ≡ some (flag b))
      → parse_simple_value codec ((c ∷ cs) ++ d ∷ rest) ≡ done (some (flag b)) (d ∷ rest)
  unfolding parse_simple_value parse_bool_value
  word_left c cs d rest w sp h h' b e = rw (not_a_number c cs d rest w sp h) (
      rw (not_a_string c cs d rest w sp h')
        (rw (find_next_token-IsWord c cs d rest w sp) (rw e refl)))

  pub simple-bool :
      (b : Bool) (d : ℕ) (rest : Bytes)
      → is_special d ≡ true
      → parse_simple_value codec (bool_to_string b ++ d ∷ rest) ≡ done (some (flag b)) (d ∷ rest)
  unfolding bool_to_string bytes_eq is_space is_special scan_int unsigned
  simple-bool true d rest sp =
      let w : IsWord (codes "true") =
        ((refl, refl), ((refl, refl), ((refl, refl), ((refl, refl), tt)))) in
      word_left b't' (codes "rue") d rest w sp refl refl true refl
  simple-bool false d rest sp =
      let w : IsWord (codes "false") =
        ((refl, refl), ((refl, refl), ((refl, refl), ((refl, refl), ((refl, refl), tt))))) in
      word_left b'f' (codes "alse") d rest w sp refl refl false refl

  module _
      (decode_plain : (s : Bytes) → contains backslash s ≡ false → codec.decode_string s ≡ s) where
    pub simple-string :
        (s rest : Bytes)
        → IsPlain s
        → parse_simple_value codec (string_json s ++ rest) ≡ done (some (text s)) rest
    unfolding parse_simple_value parse_string_value parse_number scan_int unsigned
    simple-string s rest p =
        rw (append_assoc s (quote ∷ []) rest)
          (rw (string_end-plain codec decode_plain [] s rest refl p) (rw (decode_plain s p.1) refl))

  module _
      (marshal_quoted : (t : ℕ) (shown : Bytes)
        → codec.marshal_time t ≡ some shown
        → (body : Bytes) × ((shown ≡ quote ∷ body ++ quote ∷ []) × (contains quote body ≡ false)))
      (unmarshal_marshal : (t : ℕ) (shown : Bytes)
        → codec.marshal_time t ≡ some shown
        → codec.unmarshal_time shown ≡ some t) where
    pub simple-time :
        (t : ℕ) (shown rest : Bytes)
        → codec.marshal_time t ≡ some shown
        → parse_simple_value codec (time_json codec t ++ rest) ≡ done (some (time t)) rest
    unfolding parse_simple_value time_json parse_time_value first_quote until_quote
    simple-time t shown rest e =
        let m = marshal_quoted t shown e in
        let back : codec.unmarshal_time (quote ∷ m.0 ++ quote ∷ []) ≡ some t =
          ap codec.unmarshal_time (sym m.1.0) ∙ unmarshal_marshal t shown e in
        rw (e, m.1.0)
          (rw (append_assoc m.0 (quote ∷ []) rest)
            (rw (until_quote-plain m.0 rest m.1.1) (rw back refl)))
