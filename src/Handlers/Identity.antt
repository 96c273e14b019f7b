-- ===== src/Handlers/Identity.antt =====
-- authenticateSession, getCurrentUser and authorizeHandlerAction of
-- src/safeharbor/server/HandlerUtils.go.
use safe_harbor_server.Base.{Bool, Option, none, some, List, [], ◌∷◌, if◌then◌else◌}
use safe_harbor_server.Store.{
  Text, User, user_error, Action, pure, raise, crash, or_raise, ◌>>=◌, ◌>>◌, guard,
  db_get_user_by_user_id, get_resource,
}
use safe_harbor_server.Auth.Sessions.{
  Bytes, Sessions, SessionToken, identify_session, validate_session_id,
}
use safe_harbor_server.Auth.Access.{authorized}
use safe_harbor_server.Handlers.Request.{Server, Request, unauthorized, forbidden}

-- The session from the parameter SessionId.
unfoldable pub session_of_values : Sessions → Option (List Bytes) → Action SessionToken
unfolding identify_session
session_of_values sessions none = raise unauthorized
session_of_values sessions (some []) = crash
session_of_values sessions (some ([] ∷ ids)) = raise unauthorized
session_of_values sessions (some ((b ∷ bs) ∷ ids)) =
    or_raise (identify_session sessions (b ∷ bs)) unauthorized

unfoldable pub given_session : Server → Option SessionToken → Request → Action SessionToken
unfolding session_of_values
given_session server none request = session_of_values server.sessions request.session_ids
given_session server (some token) request = pure token

-- authenticateSession; the user of the transaction is the token's.
unfoldable pub authenticate_session : Server → Option SessionToken → Request → Action SessionToken
unfolding given_session validate_session_id db_get_user_by_user_id
authenticate_session server session request = do
  token ← given_session server session request
  guard (validate_session_id server.compute_hash token.unique_session_id) unauthorized
  u ← db_get_user_by_user_id token.authenticated_userid
  or_raise u unauthorized
  pure token

-- getCurrentUser
unfoldable pub get_current_user : Server → Option SessionToken → Action (Option User)
unfolding validate_session_id db_get_user_by_user_id
get_current_user server none = pure none
get_current_user server (some token) = do
  guard (validate_session_id server.compute_hash token.unique_session_id) user_error
  u ← db_get_user_by_user_id token.authenticated_userid
  x ← or_raise u user_error
  pure (some x)

-- authorizeHandlerAction; it returns where the action is allowed.
unfoldable pub authorize_handler_action :
    Server → Option SessionToken → List Bool → Text → Action (Unit {0})
unfolding authorized get_resource
authorize_handler_action server session mask resource_id =
    if server.authorize
    then (do
      allowed ← authorized session mask resource_id
      if allowed then pure tt else do get_resource resource_id; raise forbidden)
    else pure tt
