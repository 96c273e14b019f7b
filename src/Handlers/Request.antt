-- ===== src/Handlers/Request.antt =====
-- What a handler is given and returns: the server, the request's parameters and the response types
-- of src/safeharbor/apitypes/APITypes.go.
use safe_harbor_server.Base.{ℕ, Bool, Option, none, some, List, [], ◌∷◌, ◌==◌, if◌then◌else◌}
use safe_harbor_server.Store.{
  Text, Fault, user_error, server_error, failure, Result, ok, err, panic, Action,
}
use safe_harbor_server.Utilities.{Utilities}
use safe_harbor_server.Auth.Sessions.{Bytes, Sessions, SessionToken}

-- The names of the HTTP parameters that the handlers read.
pub data Field : Type 0 where
  user_id password party_id resource_id group_id user_obj_id realm_id name description add_me :
      Field
  old_password new_password : Field
  repo_id scan_config_id flag_id image_id dockerfile_id image_version_id docker_image_id : Field
  user_name email_address account_verification_token realm_name : Field
  can_create_in can_read can_write can_execute can_delete : Field

-- url.Values, and the values of the parameter SessionId as they were sent.
pub record Request : Type 0 where
  pub values : Field → Option (List Text)
  pub session_ids : Option (List Bytes)

-- The parts of Server that the handlers use, with what lies outside the program: the salted hash of
-- a session id and of a password, url.QueryUnescape, and which strings Sanitize allows.
pub record Server : Type 0 where
  pub sessions : Sessions
  pub authorize : Bool
  pub max_login_attempts_to_retain : ℕ
  pub compute_hash : Bytes → Bytes
  pub compute_password_hash : Text → List ℕ
  pub utilities : Utilities
  pub query_unescape : Text → Option Text
  pub is_allowed : Text → Bool

-- The number of the string "true".
abbrev pub true_text : Text
true_text = 1

-- apitypes.Sanitize
unfoldable pub sanitize : Server → Text → Result Text
sanitize server value = if server.is_allowed value then ok value else err user_error

unescaped : Server → Option Text → Result Text
unfolding sanitize
unescaped server none = err server_error
unescaped server (some value) = sanitize server value

first_value : Server → Option (List Text) → Result Text
unfolding unescaped
first_value server none = ok 0
first_value server (some []) = ok 0
first_value server (some (value ∷ values)) = unescaped server (server.query_unescape value)

-- apitypes.GetHTTPParameterValue, with sanitize set
unfoldable pub get_http_parameter_value : Server → Request → Field → Action Text
unfolding first_value
get_http_parameter_value server request field s = (first_value server (request.values field), s)

required : Result Text → Result Text
required (ok value) = if value == 0 then err user_error else ok value
required (err e) = err e
required panic = panic

-- apitypes.GetRequiredHTTPParameterValue, with sanitize set
unfoldable pub get_required : Server → Request → Field → Action Text
unfolding first_value required
get_required server request field s = (required (first_value server (request.values field)), s)

-- The results that the handlers return, without their texts.
pub data Response : Type 0 where
  result : ℕ → Response
  permission_desc : Text → Text → Text → List Bool → Response
  group_desc user_desc realm_desc repo_desc flag_desc file_response : Text → Response
  user_descs group_descs repo_descs : List Text → Response
  session_token : SessionToken → Response

-- The HTTP statuses that the handlers name.
abbrev pub bad_request : Fault
bad_request = failure 400

abbrev pub unauthorized : Fault
unauthorized = failure 401

abbrev pub forbidden : Fault
forbidden = failure 403

abbrev pub internal_server_error : Fault
internal_server_error = failure 500

-- The status of the response: apitypes.NewFailureDescFromError for an error that a handler passes
-- on.
abbrev pub status : Fault → ℕ
status user_error = 400
status server_error = 500
status (failure n) = n

-- apitypes.ToBoolAr on the five texts of a mask.
unfoldable pub to_bool_ar : List Text → List Bool
to_bool_ar [] = []
to_bool_ar (t ∷ ts) = (t == true_text) ∷ to_bool_ar ts
