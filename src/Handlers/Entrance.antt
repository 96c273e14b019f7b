-- ===== src/Handlers/Entrance.antt =====
-- Who gets a session from `authenticate` of src/safeharbor/server/Handlers.go.
use safe_harbor_server.Base.{
  ℕ, Bool, true, false, Option, none, some, ◌≡◌, ◌⊎◌, inl, inr, sym, ◌∙◌, if◌then◌else◌, arith,
  Bool-cases,
}
use safe_harbor_server.Store.{Store, User, Result, ok, or_raise, guard, db_get_user_by_user_id}
use safe_harbor_server.Store.View.{Result-cases}
use safe_harbor_server.Parties.Users.{validate_password, add_login_attempt}
use safe_harbor_server.Auth.Sessions.{
  Bytes, Sessions, SessionToken, Credentials, bytes_eq, create_unique_session_id, create_session,
  invalidate_session_id, identify_session, new_session_token,
}
use safe_harbor_server.Auth.SessionLaws.{bytes_eq_iff, identify-put_self, identify-put_ne}
use safe_harbor_server.Handlers.Request.{Server, Request, unauthorized, bad_request, get_required}
use safe_harbor_server.Handlers.Gate.{bind-ok, guard-ok, or_raise-ok}
use safe_harbor_server.Handlers.Login.{
  too_many_attempts, get_credentials, check_login, verify_login, without_prior, authenticate,
}

-- What a login has been checked for: credentials that were sent, an active user of that name, whose
-- guard against attacks was open, and that user's password.
pub record Verified (server : Server) (request : Request) (s : Store) (creds : Credentials)
    (u : User) : Type 0 where
  pub sent : (get_credentials server request s).0 ≡ ok creds
  pub known : (db_get_user_by_user_id creds.user_id s).0 ≡ ok (some u)
  pub active : u.is_active ≡ true
  pub calm :
      too_many_attempts server.max_login_attempts_to_retain u.most_recent_login_attempts ≡ false
  pub password : validate_password server.compute_password_hash u creds.password ≡ true

get_credentials-store :
    (server : Server) (request : Request) (s : Store) → (get_credentials server request s).1 ≡ s
unfolding get_credentials get_required
get_credentials-store server request s = ground arith

login_pair :
    (c creds : Credentials) (x u : User)
    → (let r : Result (Credentials × User) = ok (c, x) in r) ≡ ok (creds, u)
    → (c ≡ creds) × (x ≡ u)
login_pair c creds x u h = (ground arith, ground arith)

not_so : (b : Bool) → (if b then false else true) ≡ true → b ≡ false
not_so b h = ground arith

-- What the checks of a found user establish.
record Checked (server : Server) (creds : Credentials) (u : User) : Type 0 where
  active : u.is_active ≡ true
  calm : too_many_attempts server.max_login_attempts_to_retain u.most_recent_login_attempts ≡ false
  password : validate_password server.compute_password_hash u creds.password ≡ true

check_login-ok :
    (server : Server) (c creds : Credentials) (x u : User) (s : Store)
    → (check_login server c x s).0 ≡ ok (creds, u)
    → (c ≡ creds) × (x ≡ u) × Checked server c x
unfolding check_login
check_login-ok server c creds x u s h =
    let max = server.max_login_attempts_to_retain in
    let open_ = if too_many_attempts max x.most_recent_login_attempts then false else true in
    let matches = validate_password server.compute_password_hash x c.password in
    let t = (add_login_attempt max x.id s).1 in
    let (d1, active, h1) = bind-ok (guard x.is_active unauthorized) _ s (creds, u) h in
    let (d2, calm, h2) = bind-ok (guard open_ unauthorized) _ s (creds, u) h1 in
    let (d3, added, h3) = bind-ok (add_login_attempt max x.id) _ s (creds, u) h2 in
    let (d4, accepted, h4) = bind-ok (guard matches bad_request) _ t (creds, u) h3 in
    let (same_creds, same_user) = login_pair c creds x u h4 in
    (
      same_creds,
      same_user,
      record {
        active = guard-ok x.is_active unauthorized s d1 active;
        calm = not_so _ (guard-ok open_ unauthorized s d2 calm);
        password = guard-ok matches bad_request t d4 accepted;
      },
    )

verified :
    (server : Server) (request : Request) (s : Store) (c creds : Credentials) (x u : User)
    → (get_credentials server request s).0 ≡ ok c
    → (db_get_user_by_user_id c.user_id s).0 ≡ ok (some x)
    → (c ≡ creds) × (x ≡ u) × Checked server c x
    → Verified server request s creds u
verified server request s c creds x u sent known (same_creds, same_user, k) =
    rw (← same_creds, ← same_user)
      (record {
        sent = sent;
        known = known;
        active = k.active;
        calm = k.calm;
        password = k.password;
      })

verify_login-ok :
    (server : Server) (request : Request) (s : Store) (creds : Credentials) (u : User)
    → (verify_login server request s).0 ≡ ok (creds, u)
    → Verified server request s creds u
unfolding verify_login
verify_login-ok server request s creds u h =
    let t = (get_credentials server request s).1 in
    let (c, sent, h1) = bind-ok (get_credentials server request) _ s (creds, u) h in
    let t1 = (db_get_user_by_user_id c.user_id t).1 in
    let (found, known, h2) = bind-ok (db_get_user_by_user_id c.user_id) _ t (creds, u) h1 in
    let (x, is_user, h3) =
      bind-ok (or_raise found bad_request) (check_login server c) t1 (creds, u) h2 in
    let t2 = (or_raise found bad_request t1).1 in
    let some_user : found ≡ some x = or_raise-ok found bad_request t1 x is_user in
    let here : (db_get_user_by_user_id c.user_id s).0 ≡ ok found =
      rw (get_credentials-store server request s) at known in
    verified server request s c creds x u sent (rw some_user at here)
      (check_login-ok server c creds x u t2 h3)

without_prior-identify :
    (session : Option SessionToken) (m : Sessions) (k : Bytes) (token : SessionToken)
    → identify_session (without_prior session m) k ≡ some token
    → identify_session m k ≡ some token
unfolding invalidate_session_id
without_prior-identify none m k token h = h
without_prior-identify (some prior) m k token h =
    elim (Bool-cases (bytes_eq prior.unique_session_id k)) [
      | inl same_ ↦
          let e : prior.unique_session_id ≡ k = (bytes_eq_iff prior.unique_session_id k).0 same_ in
          cc (rw e at h, identify-put_self m k none)
      | inr differ ↦
          sym (
            identify-put_ne m prior.unique_session_id k none
              (λ e. let b = (bytes_eq_iff prior.unique_session_id k).1 (sym e) in cc (b, differ)))
          ∙ h
    ]

same_user : (a b : SessionToken) → some a ≡ some b → b.authenticated_userid ≡ a.authenticated_userid
same_user a b h = ground arith

create_session-identify :
    (server : Server) (creds : Credentials) (now : ℕ) (k : Bytes) (token : SessionToken)
    → identify_session (create_session server.compute_hash creds now server.sessions).1 k
      ≡ some token
    → (identify_session server.sessions k ≡ some token)
      ⊎ ((k ≡ create_unique_session_id server.compute_hash now)
          × (token.authenticated_userid ≡ creds.user_id))
unfolding create_session
create_session-identify server creds now k token h =
    let id = create_unique_session_id server.compute_hash now in
    elim (Bool-cases (bytes_eq id k)) [
      | inl same_ ↦
          let e : k ≡ id = sym ((bytes_eq_iff id k).0 same_) in
          let made = rw e at h in
          let there = identify-put_self server.sessions id (some creds) in
          inr (e, same_user (new_session_token id creds.user_id) token (sym there ∙ made))
      | inr differ ↦ inl (
          sym (
            identify-put_ne server.sessions id k (some creds)
              (λ e. let b = (bytes_eq_iff id k).1 (sym e) in cc (b, differ)))
          ∙ h)
    ]

-- A session that is identified after `authenticate`, whatever it returned, was identified before,
-- or its id is the one of this instant and it is for the user name of credentials that were sent,
-- whose user is known and active, was not held up by the guard against attacks, and has that
-- password.
pub authenticate_sessions :
    (server : Server) (session : Option SessionToken) (request : Request) (s : Store) (k : Bytes)
    (token : SessionToken)
    → identify_session (authenticate server session request s).1 k ≡ some token
    → (identify_session server.sessions k ≡ some token)
      ⊎ ((creds : Credentials) × (u : User) × Verified server request s creds u
          × (k ≡ create_unique_session_id server.compute_hash s.now)
          × (token.authenticated_userid ≡ creds.user_id))
unfolding authenticate
authenticate_sessions server session request s k token h =
    elim (Result-cases (verify_login server request s).0) [
      | inl ((creds, u), good) ↦
          let kept = without_prior-identify session _ k token (rw (authenticate, good) at h) in
          elim (create_session-identify server creds s.now k token kept) [
            | inl before ↦ inl before
            | inr (e, user) ↦ inr (creds, u, verify_login-ok server request s creds u good, e, user)
          ]
      | inr (inl (e, failed)) ↦ inl (rw (authenticate, failed) at h)
      | inr (inr panicked) ↦ inl (rw (authenticate, panicked) at h)
    ]
