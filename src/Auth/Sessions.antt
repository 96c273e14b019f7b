-- ===== src/Auth/Sessions.antt =====
-- Session ids and the session map of src/safeharbor/server/auth.go. A session id is its bytes.
use Prim.Native.Nat.{◌/◌, ◌%◌}
use safe_harbor_server.Base.{
  ℕ, zero, suc, ◌+◌, Bool, true, false, ◌&&◌, Option, none, some, List, [], ◌∷◌, ◌++◌, ◌==◌, ltb,
  if◌then◌else◌,
}
use safe_harbor_server.Store.{Text}

abbrev pub Bytes : Type 0
Bytes = List ℕ

-- apitypes.Credentials
pub record Credentials : Type 0 where
  pub user_id : Text
  pub password : Text

-- apitypes.SessionToken
pub record SessionToken : Type 0 where
  pub unique_session_id : Bytes
  pub authenticated_userid : Text
  pub realm_id : Text
  pub is_admin : Bool

-- apitypes.NewSessionToken
abbrev pub new_session_token : Bytes → Text → SessionToken
new_session_token session_id user_id = record {
  unique_session_id = session_id;
  authenticated_userid = user_id;
  realm_id = 0;
  is_admin = false;
}

-- AuthService.Sessions: nil where a key is missing or was invalidated.
abbrev pub Sessions : Type 0
Sessions = Bytes → Option Credentials

unfoldable pub bytes_eq : Bytes → Bytes → Bool
bytes_eq [] [] = true
bytes_eq [] (c ∷ cs) = false
bytes_eq (b ∷ bs) [] = false
bytes_eq (b ∷ bs) (c ∷ cs) = b == c && bytes_eq bs cs

abbrev pub put : Sessions → Bytes → Option Credentials → Sessions
put m k v j = if bytes_eq k j then v else m j

-- fmt.Sprintf("%d", n), with a digit for each round of fuel; n + 1 rounds are enough.
unfoldable pub digits : ℕ → ℕ → Bytes → Bytes
digits zero n acc = acc
digits (suc fuel) n acc =
    let more = digits fuel (n / 10) ((48 + n % 10) ∷ acc) in
    if n / 10 == 0 then (48 + n % 10) ∷ acc else more

unfoldable pub decimal_text : ℕ → Bytes
unfolding digits
decimal_text n = digits (suc n) n []

unfoldable pub hex_digit : ℕ → ℕ
hex_digit d = if ltb d 10 then 48 + d else 87 + d

-- fmt.Sprintf("%x", bytes)
unfoldable pub hex : Bytes → Bytes
unfolding hex_digit
hex [] = []
hex (b ∷ bs) = hex_digit (b / 16 % 16) ∷ hex_digit (b % 16) ∷ hex bs

-- The byte of ':'.
abbrev pub colon : ℕ
colon = 58

-- strings.Split(s, ":"): the first part, and the parts after it.
unfoldable pub split : Bytes → Bytes × List Bytes
split [] = ([], [])
split (b ∷ bs) =
    let rest = split bs in if b == colon then ([], rest.0 ∷ rest.1) else (b ∷ rest.0, rest.1)

-- The salted SHA-256 of crypto/sha256.
module _ (compute_hash : Bytes → Bytes) where
  -- AuthService.createUniqueSessionId, at the time `now` in nanoseconds.
  unfoldable pub create_unique_session_id : ℕ → Bytes
  unfolding decimal_text hex
  create_unique_session_id now = decimal_text now ++ colon ∷ hex (compute_hash (decimal_text now))

  unfoldable pub two_parts : Bytes × List Bytes → Bool
  unfolding hex bytes_eq
  two_parts (unique, []) = false
  two_parts (unique, untrusted ∷ []) = bytes_eq untrusted (hex (compute_hash unique))
  two_parts (unique, untrusted ∷ x ∷ xs) = false

  -- AuthService.validateSessionId and sessionIdIsValid
  unfoldable pub validate_session_id : Bytes → Bool
  unfolding split two_parts
  validate_session_id session_id = two_parts (split session_id)

  -- AuthService.createSession
  unfoldable pub create_session : Credentials → ℕ → Sessions → SessionToken × Sessions
  unfolding create_unique_session_id
  create_session creds now sessions =
      let id = create_unique_session_id now in
      (new_session_token id creds.user_id, put sessions id (some creds))

-- AuthService.invalidateSessionId
unfoldable pub invalidate_session_id : Bytes → Sessions → Sessions
unfolding bytes_eq
invalidate_session_id session_id sessions = put sessions session_id none

-- AuthService.clearAllSessions
unfoldable pub clear_all_sessions : Sessions → Sessions
clear_all_sessions sessions = λ _. none

-- AuthService.identifySession
unfoldable pub identify_session : Sessions → Bytes → Option SessionToken
identify_session sessions session_id = elim (sessions session_id) [
  | none ↦ none
  | some creds ↦ some (new_session_token session_id creds.user_id)
]

-- AuthService.authenticateRequestCookie, with getSessionIdFromCookie; `none` is a request without
-- the cookie.
unfoldable pub authenticate_request_cookie : Sessions → Option Bytes → Option SessionToken
unfolding identify_session
authenticate_request_cookie sessions none = none
authenticate_request_cookie sessions (some []) = none
authenticate_request_cookie sessions (some (b ∷ bs)) = identify_session sessions (b ∷ bs)
