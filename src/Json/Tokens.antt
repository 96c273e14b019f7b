-- ===== src/Json/Tokens.antt =====
-- parseJSON_findNextToken of src/safeharbor/server/DBjson.go, on the bytes from the position on.
use Prim.Native.Char.{code}
use Prim.Native.String.{String}
use safe_harbor_server.Base.{ℕ, Bool, false, ◌||◌, [], ◌∷◌, ◌==◌, if◌then◌else◌, contains}
use safe_harbor_server.Auth.Sessions.{Bytes}

-- The bytes of a text in ASCII.
abbrev pub codes : String → Bytes
codes String.[] = []
codes (String.◌∷◌ c s) = code c ∷ codes s

abbrev pub quote : ℕ
quote = b'"'

abbrev pub whitespace : Bytes
whitespace = codes " \t\r\n"

abbrev pub special_chars : Bytes
special_chars = codes "\":'[]{},"

unfoldable pub is_space : ℕ → Bool
is_space c = contains c whitespace

unfoldable pub is_special : ℕ → Bool
is_special c = contains c special_chars

-- strings.TrimLeft of the whitespace.
unfoldable pub skip_space : Bytes → Bytes
unfolding is_space
skip_space [] = []
skip_space (c ∷ cs) = if is_space c then skip_space cs else c ∷ cs

-- The bytes up to the next whitespace or special character, and what follows.
unfoldable pub word : Bytes → Bytes × Bytes
unfolding is_space is_special
word [] = ([], [])
word (c ∷ cs) =
    let rest = word cs in if is_space c || is_special c then ([], c ∷ cs) else (c ∷ rest.0, rest.1)

unfoldable pub token_at : Bytes → Bytes × Bytes
unfolding is_special word
token_at [] = ([], [])
token_at (c ∷ cs) = if is_special c then (c ∷ [], cs) else (c ∷ (word cs).0, (word cs).1)

-- parseJSON_findNextToken: the token, empty at the end of the text, and the bytes after it. Pushing
-- the token back (parseJSON_pushTokenBack) leaves the token and those bytes.
unfoldable pub find_next_token : Bytes → Bytes × Bytes
unfolding skip_space token_at
find_next_token s = token_at (skip_space s)

-- Whether a token is the one character.
abbrev pub is_token : ℕ → Bytes → Bool
is_token c [] = false
is_token c (b ∷ []) = b == c
is_token c (b ∷ x ∷ xs) = false
