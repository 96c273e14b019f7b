-- ===== src/Json/RoundTrip/Strings.antt =====
-- The quotes of src/safeharbor/server/DBjson.go: the end of a name, of a time and of a string.
use safe_harbor_server.Base.{
  ℕ, true, false, some, [], ◌∷◌, ◌++◌, ◌≡◌, refl, ap, sym, ◌∙◌, arith, ◌==◌, contains, Bool-cases,
  inl, inr,
}
use mathlib.Core.List.{append_assoc, append-nil}
use safe_harbor_server.Auth.Sessions.{Bytes}
use safe_harbor_server.Json.Tokens.{quote}
use safe_harbor_server.Json.Simple.{Codec, string_end, until_quote}
use safe_harbor_server.Json.RoundTrip.{backslash, IsPlain, contains-append}

pub until_quote-plain :
    (s rest : Bytes) → contains quote s ≡ false → until_quote (s ++ quote ∷ rest) ≡ some (s, rest)
unfolding until_quote
until_quote-plain [] rest h = refl
until_quote-plain (c ∷ cs) rest h = elim (Bool-cases (c == quote)) [
  | inl e ↦ absurd (ground arith)
  | inr e ↦ rw e (rw (until_quote-plain cs rest (ground arith)) refl)
]

pub contains-tail :
    (k c : ℕ) (cs : Bytes)
    → contains k (c ∷ cs) ≡ false
    → (c == k ≡ false) × (contains k cs ≡ false)
contains-tail k c cs h = elim (Bool-cases (c == k)) [
  | inl e ↦ absurd (ground arith)
  | inr e ↦ (e, ground arith)
]

module _ (codec : Codec)
    (decode_plain : (s : Bytes) → contains backslash s ≡ false → codec.decode_string s ≡ s) where
  -- A quote after text without a backslash is not taken for an escaped one.
  ends_here :
      (seen : Bytes)
      → contains backslash seen ≡ false
      → contains quote (codec.decode_string (seen ++ quote ∷ [])) ≡ true
  ends_here seen h =
      let plain : contains backslash (seen ++ quote ∷ []) ≡ false =
        rw (contains-append backslash seen (quote ∷ [])) (rw h refl) in
      rw (decode_plain (seen ++ quote ∷ []) plain)
        (rw (contains-append quote seen (quote ∷ [])) (ground arith))

  pub string_end-plain :
      (seen s rest : Bytes)
      → contains backslash seen ≡ false
      → IsPlain s
      → string_end codec seen (s ++ quote ∷ rest) ≡ some (seen ++ s, rest)
  unfolding string_end
  string_end-plain seen [] rest h p =
      rw (ends_here seen h) (ap (λ s. some (s, rest)) (sym (append-nil seen)))
  string_end-plain seen (c ∷ cs) rest h p =
      let tail = contains-tail quote c cs p.0 in
      let tail' = contains-tail backslash c cs p.1 in
      let h' : contains backslash (seen ++ c ∷ []) ≡ false =
        rw (contains-append backslash seen (c ∷ [])) (rw h (rw tail'.0 refl)) in
      rw tail.0 (
        string_end-plain (seen ++ c ∷ []) cs rest h' (tail.1, tail'.1)
        ∙ ap (λ s. some (s, rest)) (append_assoc seen (c ∷ []) cs))
