-- ===== src/Email/Establish.antt =====
-- EstablishEmail, ValidateEmail, ValidateEmailToken and createEmailToken of
-- src/safeharbor/server/EstablishEmail.go.
use safe_harbor_server.Base.{ℕ, Bool, true, false, ◌+◌, ◌==◌, if◌then◌else◌, ltb}
use safe_harbor_server.Store.{
  Text, Action, user_error, server_error, pure, gets, guard, or_raise, ◌>>=◌, ◌>>◌,
  db_get_user_by_user_id, get_identity_validation_info, db_create_identity_validation_info,
  get_identity_validation_info_by_token, rem_identity_validation_info,
}
use safe_harbor_server.Auth.Sessions.{Bytes, create_unique_session_id, validate_session_id}
use safe_harbor_server.Parties.Users.{set_unverified_email_address, flag_email_as_verified}

-- The server's PerformEmailIdentityVerification, and what is outside: the salted hash, the numbering
-- of strings both ways, and whether EmailService.SendEmail of a token to an address succeeds.
pub record EmailService : Type 0 where
  pub perform : Bool
  pub compute_hash : Bytes → Bytes
  pub text_of : Bytes → Text
  pub bytes_of : Text → Bytes
  pub send_email : Text → Text → Bool

-- IdentityVerificationTokenLifespanInHours, in nanoseconds.
abbrev pub lifespan : ℕ
lifespan = 259200000000000

module _ (service : EmailService) where
  -- createEmailToken; time.Now() reads the same in it.
  unfoldable pub create_email_token : Text → Action Text
  unfolding create_unique_session_id db_create_identity_validation_info
  create_email_token user_id = do
    now ← gets (λ s. s.now)
    let token = service.text_of (create_unique_session_id service.compute_hash now)
    db_create_identity_validation_info user_id now token
    pure token

  -- ValidateEmail
  unfoldable pub validate_email : Text → Text → Action (Unit {0})
  unfolding create_email_token
  validate_email user_id email_address = do
    token ← create_email_token user_id
    guard (service.send_email email_address token) server_error

  -- EstablishEmail
  unfoldable pub establish_email : Text → Text → Action (Unit {0})
  unfolding db_get_user_by_user_id set_unverified_email_address validate_email
      flag_email_as_verified
  establish_email user_id email_address = do
    found ← db_get_user_by_user_id user_id
    u ← or_raise found user_error
    set_unverified_email_address u.id email_address
    if service.perform
        then validate_email user_id email_address
        else flag_email_as_verified u.id email_address

  -- ValidateEmailToken, which returns the user's id and address.
  unfoldable pub validate_email_token : Text → Action (Text × Text)
  unfolding validate_session_id get_identity_validation_info_by_token get_identity_validation_info
      db_get_user_by_user_id rem_identity_validation_info
  validate_email_token token = do
    guard (validate_session_id service.compute_hash (service.bytes_of token)) user_error
    info_obj_id ← get_identity_validation_info_by_token token
    guard (if info_obj_id == 0 then false else true) user_error
    info ← get_identity_validation_info info_obj_id
    found ← db_get_user_by_user_id info.user_id
    u ← or_raise found user_error
    now ← gets (λ s. s.now)
    guard (if ltb (info.creation_time + lifespan) now then false else true) user_error
    rem_identity_validation_info token
    pure (u.user_id, u.email_address)
