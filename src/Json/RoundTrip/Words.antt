-- ===== src/Json/RoundTrip/Words.antt =====
-- Tokens of src/safeharbor/server/DBjson.go that are words: they end at a special character.
use safe_harbor_server.Base.{ℕ, true, false, [], ◌∷◌, ◌++◌, ◌≡◌, refl, Bool-cases, inl, inr}
use safe_harbor_server.Auth.Sessions.{Bytes}
use safe_harbor_server.Json.Tokens.{
  is_space, is_special, word, skip_space, token_at, find_next_token,
}

-- No whitespace and no special character.
abbrev pub IsWord : Bytes → Type 0
IsWord [] = Unit
IsWord (c ∷ cs) = ((is_space c ≡ false) × (is_special c ≡ false)) × IsWord cs

word-IsWord :
    (s : Bytes) (d : ℕ) (rest : Bytes)
    → IsWord s
    → is_special d ≡ true
    → word (s ++ d ∷ rest) ≡ (s, d ∷ rest)
unfolding word
word-IsWord [] d rest h sp =
    rw sp (elim (Bool-cases (is_space d)) [ inl e ↦ rw e refl | inr e ↦ rw e refl ])
word-IsWord (c ∷ cs) d rest h sp = rw h.0.0 (rw h.0.1 (rw (word-IsWord cs d rest h.1 sp) refl))

pub find_next_token-IsWord :
    (c : ℕ) (cs : Bytes) (d : ℕ) (rest : Bytes)
    → IsWord (c ∷ cs)
    → is_special d ≡ true
    → find_next_token ((c ∷ cs) ++ d ∷ rest) ≡ (c ∷ cs, d ∷ rest)
unfolding find_next_token skip_space token_at
find_next_token-IsWord c cs d rest h sp =
    rw h.0.0 (rw h.0.1 (rw (word-IsWord cs d rest h.1 sp) refl))
