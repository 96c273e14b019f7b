-- ===== src/Tests/Email.antt =====
-- The token 31 of the user 13, at a store where it is pending.
use safe_harbor_server.Base.{true, none, some, [], ◌∷◌, ◌≡◌, refl, ◌==◌, if◌then◌else◌}
use safe_harbor_server.Store.{Store, identity_info, ok, err, user_error}
use safe_harbor_server.Email.Establish.{EmailService, validate_email_token}
use safe_harbor_server.Email.Requests.{validate_account_verification_token}
use safe_harbor_server.Email.Tokens.{
  Accepted, validate_email_token-Accepted, validate_email_token-once,
}
use safe_harbor_server.Handlers.Request.{result}
use safe_harbor_server.Tests.Sample.{sample, objects, itself, server}

-- "1:" has the hash that the stand-in computes.
abbrev service : EmailService
service = record {
  perform = true;
  compute_hash = λ b. [];
  text_of = λ b. 31;
  bytes_of = λ t. 49 ∷ 58 ∷ [];
  send_email = λ a t. true;
}

abbrev waiting : Store
waiting = record sample {
  heap = λ p.
      if p == 30
      then some (identity_info (record { id = 30; user_id = 13; creation_time = 1 }))
      else objects p;
  all_objects = λ id. if id == 30 then 30 else itself id;
  email_token_map = λ t. if t == 31 then 30 else 0;
}

accepted : (validate_email_token service 31 waiting).0 ≡ ok (13, 15)
unfolding validate_email_token
accepted = refl

verified :
    (validate_account_verification_token service server
      record { values = λ field. some (31 ∷ []); session_ids = none }
      waiting).0
    ≡ ok (result 200)
unfolding validate_account_verification_token
verified = refl

validate_email_token-Accepted_example :
    Accepted service 31 waiting (13, 15) (validate_email_token service 31 waiting).1
validate_email_token-Accepted_example =
    validate_email_token-Accepted service 31 waiting (13, 15) accepted

validate_email_token-once_example :
    let t = (validate_email_token service 31 waiting).1 in
    validate_email_token service 31 t ≡ (err user_error, t)
validate_email_token-once_example = validate_email_token-once service 31 waiting (13, 15) accepted
