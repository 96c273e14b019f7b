-- ===== src/Tests/Sessions.antt =====
-- Session ids, with a hash that stands in for SHA-256.
use safe_harbor_server.Base.{arith, true, some, none, [], ◌∷◌, ◌++◌, ◌≡◌, ◌≢◌, ◌↔◌, false, contains}
use safe_harbor_server.Auth.Sessions.{
  Bytes, Credentials, Sessions, hex, colon, create_unique_session_id, validate_session_id,
  create_session, invalidate_session_id, identify_session,
}
use safe_harbor_server.Auth.Numerals.{create_unique_session_id-instant}
use safe_harbor_server.Auth.SessionLaws.{
  validate-create, validate_iff, identify-create, invalidate_lem,
}

abbrev twice : Bytes → Bytes
twice b = b ++ b

abbrev no_sessions : Sessions
no_sessions = λ _. none

abbrev bob : Credentials
bob = record { user_id = 13; password = 15 }

validate-create_example : validate_session_id twice (create_unique_session_id twice 42) ≡ true
validate-create_example = validate-create twice 42

validate_iff_example : (validate_session_id twice (49 ∷ 58 ∷ 51 ∷ []) ≡ true) ↔ (
    (a : Bytes) × (contains colon a ≡ false) × ((49 ∷ 58 ∷ 51 ∷ []) ≡ a ++ colon ∷ hex (twice a)))
validate_iff_example = validate_iff twice (49 ∷ 58 ∷ 51 ∷ [])

identify-create_example :
    let (token, sessions) = create_session twice bob 42 no_sessions in
    (identify_session sessions token.unique_session_id ≡ some token)
    × (token.authenticated_userid ≡ 13)
    × ((k : Bytes)
        → k ≢ token.unique_session_id
        → identify_session sessions k ≡ identify_session no_sessions k)
identify-create_example = identify-create twice bob 42 no_sessions

invalidate_lem_example :
    let id = create_unique_session_id twice 42 in
    (identify_session (invalidate_session_id id no_sessions) id ≡ none)
    × ((k : Bytes)
        → k ≢ id
        → identify_session (invalidate_session_id id no_sessions) k
          ≡ identify_session no_sessions k)
    × (validate_session_id twice id ≡ true)
invalidate_lem_example = invalidate_lem twice 42 no_sessions

create_unique_session_id-instant_example :
    create_unique_session_id twice 42 ≢ create_unique_session_id twice 43
create_unique_session_id-instant_example =
    create_unique_session_id-instant twice 42 43 (omega arith)
