-- ===== src/Handlers/Login.antt =====
-- The handlers `authenticate` and `logout` of src/safeharbor/server/Handlers.go.
use safe_harbor_server.Base.{
  ℕ, ◌-◌, Bool, true, false, ◌&&◌, Option, none, some, List, [], ◌∷◌, ltb, leb, if◌then◌else◌,
  length, get_elem?,
}
use safe_harbor_server.Store.{
  User, AclEntry, Result, ok, err, panic, Store, Action, pure, or_raise, or_crash, ◌>>=◌, ◌>>◌,
  guard, db_get_user_by_user_id, get_realm,
}
use safe_harbor_server.Acl.Access.{get_acl_entry_for_party_id}
use safe_harbor_server.Parties.Users.{add_login_attempt, validate_password}
use safe_harbor_server.Auth.Sessions.{
  Sessions, SessionToken, Credentials, create_session, invalidate_session_id,
}
use safe_harbor_server.Handlers.Request.{
  Server, Request, user_id, password, get_required, bad_request, unauthorized, Response, result,
  session_token,
}
use safe_harbor_server.Handlers.Identity.{authenticate_session}

-- The loop of apitypes.AreAllWithinTimePeriod after the first time.
within : ℕ → ℕ → ℕ → List ℕ → Bool
within period earliest latest [] = true
within period earliest latest (t ∷ ts) =
    let e = if ltb t earliest then t else earliest in
    let l = if ltb latest t then t else latest in
    let rest = within period e l ts in if ltb period (l - e) then false else rest

-- apitypes.AreAllWithinTimePeriod
unfoldable pub are_all_within_time_period : List ℕ → ℕ → Bool
unfolding within
are_all_within_time_period [] period = true
are_all_within_time_period (t ∷ ts) period = within period t t ts

-- The guard of `authenticate` against brute force.
unfoldable pub too_many_attempts : ℕ → List ℕ → Bool
unfolding are_all_within_time_period
too_many_attempts max attempts =
    leb max (length attempts) && are_all_within_time_period attempts 600

-- apitypes.GetCredentials
unfoldable pub get_credentials : Server → Request → Action Credentials
unfolding get_required
get_credentials server request = do
  u ← get_required server request user_id
  p ← get_required server request password
  pure (record { user_id = u; password = p })

-- `authenticate` from the check that the user is active up to the point where the password is
-- accepted.
unfoldable pub check_login : Server → Credentials → User → Action (Credentials × User)
unfolding too_many_attempts add_login_attempt validate_password
check_login server creds u = do
  guard u.is_active unauthorized
  guard
      (if too_many_attempts server.max_login_attempts_to_retain u.most_recent_login_attempts
        then false
        else true)
      unauthorized
  add_login_attempt server.max_login_attempts_to_retain u.id
  guard (validate_password server.compute_password_hash u creds.password) bad_request
  pure (creds, u)

-- `authenticate` up to the point where the password is accepted.
unfoldable pub verify_login : Server → Request → Action (Credentials × User)
unfolding get_credentials db_get_user_by_user_id check_login
verify_login server request = do
  creds ← get_credentials server request
  found ← db_get_user_by_user_id creds.user_id
  u ← or_raise found bad_request
  check_login server creds u

with_admin_flag : SessionToken → Option AclEntry → Action SessionToken
with_admin_flag token none = pure token
with_admin_flag token (some e) = do
  b ← or_crash (get_elem? e.permission_mask 2)
  pure (record token { is_admin = b })

-- `authenticate` after the session is made: whether the user may write the realm.
flag_admin : User → SessionToken → Action Response
unfolding get_realm get_acl_entry_for_party_id with_admin_flag
flag_admin u token = do
  r ← get_realm u.realm_id
  e ← get_acl_entry_for_party_id r.id u.id
  t ← with_admin_flag token e
  pure (session_token t)

abbrev pub without_prior : Option SessionToken → Sessions → Sessions
without_prior none sessions = sessions
without_prior (some token) sessions = invalidate_session_id token.unique_session_id sessions

-- `authenticate`, with the sessions that it leaves.
unfoldable pub authenticate :
    Server → Option SessionToken → Request → Store → Result Response × Sessions × Store
unfolding verify_login create_session invalidate_session_id flag_admin
authenticate server session request s =
    let (r, s1) = verify_login server request s in
    elim r [
      | ok (creds, u) ↦
          let (token, made) = create_session server.compute_hash creds s.now server.sessions in
          let (r2, s2) = flag_admin u (record token { realm_id = u.realm_id }) s1 in
          (r2, without_prior session made, s2)
      | err e ↦ (err e, server.sessions, s1)
      | panic ↦ (panic, server.sessions, s1)
    ]

abbrev log_out : Option SessionToken → Sessions → Result Response × Sessions
log_out none sessions = (panic, sessions)
log_out (some token) sessions =
    (ok (result 200), invalidate_session_id token.unique_session_id sessions)

-- `logout`: the session that is ended is the one of the cookie, which may be nil.
unfoldable pub logout :
    Server → Option SessionToken → Request → Store → Result Response × Sessions × Store
unfolding authenticate_session invalidate_session_id
logout server session request s =
    let (r, s') = authenticate_session server session request s in
    elim r [
      | ok token ↦ (let (q, sessions) = log_out session server.sessions in (q, sessions, s'))
      | err e ↦ (err e, server.sessions, s')
      | panic ↦ (panic, server.sessions, s')
    ]
