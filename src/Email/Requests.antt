-- ===== src/Email/Requests.antt =====
-- The handlers createUser, updateUserInfo, userExists and validateAccountVerificationToken of
-- src/safeharbor/server/Handlers.go.
use safe_harbor_server.Base.{Option, none, some, ◌&&◌, ◌==◌, if◌then◌else◌}
use safe_harbor_server.Store.{
  Text, Action, failure, pure, or_raise, or_crash, guard, attempt, ◌>>=◌, ◌>>◌, mutate, map_user,
  update_object, db_get_user_by_user_id,
}
use safe_harbor_server.Parties.Users.{flag_email_as_verified}
use safe_harbor_server.Realms.Create.{db_create_user}
use safe_harbor_server.Auth.Masks.{create_in_mask}
use safe_harbor_server.Auth.Sessions.{SessionToken}
use safe_harbor_server.Handlers.Queries.{as_user_desc}
use safe_harbor_server.Email.Establish.{EmailService, establish_email, validate_email_token}
use safe_harbor_server.Handlers.Request.{
  Server, Request, user_id, user_name, email_address, password, realm_id,
  account_verification_token, get_required, get_http_parameter_value, forbidden,
  internal_server_error, Response, result,
}
use safe_harbor_server.Handlers.Identity.{authenticate_session, authorize_handler_action}

-- apitypes.UserInfo
pub record UserInfo : Type 0 where
  pub user_id : Text
  pub user_name : Text
  pub email_address : Text
  pub password : Text
  pub realm_id : Text

-- apitypes.GetUserInfo
unfoldable pub get_user_info : Server → Request → Action UserInfo
unfolding get_required get_http_parameter_value
get_user_info server request = do
  id ← get_required server request user_id
  name ← get_required server request user_name
  email ← get_required server request email_address
  pswd ← get_required server request password
  realm ← get_http_parameter_value server request realm_id
  pure record {
    user_id = id;
    user_name = name;
    email_address = email;
    password = pswd;
    realm_id = realm;
  }

-- apitypes.GetUserInfoChanges
unfoldable pub get_user_info_changes : Server → Request → Action UserInfo
unfolding get_required get_http_parameter_value
get_user_info_changes server request = do
  id ← get_required server request user_id
  name ← get_http_parameter_value server request user_name
  email ← get_http_parameter_value server request email_address
  pswd ← get_http_parameter_value server request password
  realm ← get_http_parameter_value server request realm_id
  pure record {
    user_id = id;
    user_name = name;
    email_address = email;
    password = pswd;
    realm_id = realm;
  }

-- userExists
unfoldable pub user_exists : Server → Request → Action Response
unfolding get_required db_get_user_by_user_id
user_exists server request = do
  id ← get_required server request user_id
  found ← db_get_user_by_user_id id
  or_raise found (failure 404)
  pure (result 200)

module _ (service : EmailService) where
  -- validateAccountVerificationToken
  unfoldable pub validate_account_verification_token : Server → Request → Action Response
  unfolding get_required validate_email_token db_get_user_by_user_id flag_email_as_verified
  validate_account_verification_token server request = do
    token ← get_required server request account_verification_token
    (id, email) ← validate_email_token service token
    found ← db_get_user_by_user_id id
    u ← or_crash found
    flag_email_as_verified u.id email
    pure (result 200)

  -- The address that createUser and updateUserInfo establish, if one is given.
  establish_given : Text → Text → Action (Unit {0})
  unfolding establish_email
  establish_given id email = if email == 0 then pure tt else establish_email service id email

  -- createUser
  unfoldable pub create_user : Server → Option SessionToken → Request → Action Response
  unfolding authenticate_session get_user_info authorize_handler_action db_create_user
      establish_given as_user_desc
  create_user server session request = do
    token ← authenticate_session server session request
    info ← get_user_info server request
    authorize_handler_action server (some token) create_in_mask info.realm_id
    u ←
        db_create_user server.compute_password_hash info.user_id info.user_name info.email_address
          info.password info.realm_id
    establish_given info.user_id info.email_address
    as_user_desc u

  -- updateUserInfo, which gives establishEmail the id of the object. The error of the last write is
  -- dropped.
  unfoldable pub update_user_info : Server → Option SessionToken → Request → Action Response
  unfolding authenticate_session get_user_info_changes db_get_user_by_user_id establish_given
      update_object as_user_desc
  update_user_info server session request = do
    token ← authenticate_session server session request
    info ← get_user_info_changes server request
    found ← db_get_user_by_user_id info.user_id
    u ← or_raise found internal_server_error
    guard (token.authenticated_userid == info.user_id) forbidden
    if info.user_name == 0
        then pure tt
        else mutate u.id
            (map_user (λ x. record x { party = record (x.party) { name = info.user_name } }))
    establish_given u.id info.email_address
    if info.user_name == 0 && info.email_address == 0
        then pure none
        else attempt (update_object u.id)
    as_user_desc u.id
