-- ===== src/Handlers/Gate.antt =====
-- What a handler has checked by the time that it goes on: the session, then the access rules.
use safe_harbor_server.Base.{
  Bool, true, false, Option, none, some, List, [], ◌∷◌, ◌≡◌, inl, inr, refl, sym, arith, Bool-cases,
}
use safe_harbor_server.Store.{
  Text, Store, User, Result, ok, err, panic, Fault, Action, raise, or_raise, guard, continue, ◌>>=◌,
  db_get_user_by_user_id, get_resource, as_resource, user_error,
}
use safe_harbor_server.Store.View.{fetch}
use safe_harbor_server.Store.Reads.{
  SameObjects, Reads, Reads-bind, Reads-pure, Reads-guard, Reads-raise, Reads-if, Reads-get_as,
  quiet, Reads-or_raise, Reads-or_crash, Reads-db_get_user_by_user_id,
}
use safe_harbor_server.Auth.Sessions.{
  Bytes, Sessions, SessionToken, validate_session_id, identify_session,
}
use safe_harbor_server.Auth.Access.{user_authorized, authorized, known_user}
use safe_harbor_server.Auth.Rules.{UserMay}
use safe_harbor_server.Auth.Decision.{user_authorized_sound}
use safe_harbor_server.Auth.Unchanged.{Reads-authorized}
use safe_harbor_server.Handlers.Request.{
  get_required, Field, Server, Request, forbidden, unauthorized,
}
use safe_harbor_server.Handlers.Identity.{
  session_of_values, given_session, authenticate_session, authorize_handler_action,
}

continue-ok :
    {A B : Type 0} (f : A → Action B) (r : Result A) (t : Store) (b : B)
    → (continue f (r, t)).0 ≡ ok b
    → (a : A) × (r ≡ ok a) × ((f a t).0 ≡ ok b)
continue-ok f (ok a) t b h = (a, refl, h)
continue-ok f (err e) t b h = cc
continue-ok f panic t b h = cc

-- Of two steps that went well in turn, each went well.
pub bind-ok :
    {A B : Type 0} (m : Action A) (f : A → Action B) (s : Store) (b : B)
    → ((m >>= f) s).0 ≡ ok b
    → (a : A) × ((m s).0 ≡ ok a) × ((f a (m s).1).0 ≡ ok b)
bind-ok m f s b h = continue-ok f (m s).0 (m s).1 b h

pub guard-ok : (b : Bool) (e : Fault) (s : Store) (u : Unit {0}) → (guard b e s).0 ≡ ok u → b ≡ true
guard-ok true e s u h = refl
guard-ok false e s u h = cc

pub or_raise-ok :
    {A : Type 0} (o : Option A) (e : Fault) (s : Store) (a : A)
    → (or_raise o e s).0 ≡ ok a
    → o ≡ some a
or_raise-ok none e s a h = cc
or_raise-ok (some x) e s a h = ground arith

-- The token that a handler works with: the cookie's session, or the one that the request names.
pub data IsPresented (server : Server) (session : Option SessionToken) (token : SessionToken)
    : Type 0 where
  by_cookie : session ≡ some token → IsPresented server session token
  by_parameter :
      (id : Bytes)
      → identify_session server.sessions id ≡ some token
      → IsPresented server session token

-- The store that authenticateSession leaves.
abbrev pub after_authentication : Server → Option SessionToken → Request → Store → Store
after_authentication server session request s = (authenticate_session server session request s).1

-- A request that finds the store `s` passed the gate of an action on a resource, which is at the
-- store `t`: authenticateSession accepts the request at `s`, with a session that was presented and
-- has a valid id, and the user that `t` knows under that session's login name may perform the action
-- by what the store shows once that user is read.
pub record Passed (server : Server) (session : Option SessionToken) (request : Request)
    (mask : List Bool) (rid : Text) (s t : Store) : Type 0 where
  pub token : SessionToken
  pub user : User
  pub authenticated : (authenticate_session server session request s).0 ≡ ok token
  pub presented : IsPresented server session token
  pub valid : validate_session_id server.compute_hash token.unique_session_id ≡ true
  pub same : SameObjects s t
  pub known : (db_get_user_by_user_id token.authenticated_userid t).0 ≡ ok (some user)
  pub may : UserMay (fetch (db_get_user_by_user_id token.authenticated_userid t).1) user mask rid

session_of_values-IsPresented :
    (server : Server) (ids : Option (List Bytes)) (s : Store) (token : SessionToken)
    → (session_of_values server.sessions ids s).0 ≡ ok token
    → IsPresented server none token
unfolding session_of_values
session_of_values-IsPresented server none s token h = cc
session_of_values-IsPresented server (some []) s token h = cc
session_of_values-IsPresented server (some ([] ∷ ids)) s token h = cc
session_of_values-IsPresented server (some ((b ∷ bs) ∷ ids)) s token h =
    by_parameter (b ∷ bs)
      (or_raise-ok (identify_session server.sessions (b ∷ bs)) unauthorized s token h)

given_session-IsPresented :
    (server : Server) (session : Option SessionToken) (request : Request) (s : Store)
    (token : SessionToken)
    → (given_session server session request s).0 ≡ ok token
    → IsPresented server session token
unfolding given_session
given_session-IsPresented server none request s token h =
    session_of_values-IsPresented server request.session_ids s token h
given_session-IsPresented server (some x) request s token h = by_cookie (ground arith)

Reads-session_of_values :
    (sessions : Sessions) (ids : Option (List Bytes)) → Reads (session_of_values sessions ids)
unfolding session_of_values
Reads-session_of_values sessions none = Reads-raise SessionToken unauthorized
Reads-session_of_values sessions (some []) = Reads-or_crash none
Reads-session_of_values sessions (some ([] ∷ ids)) = Reads-raise SessionToken unauthorized
Reads-session_of_values sessions (some ((b ∷ bs) ∷ ids)) =
    Reads-or_raise (identify_session sessions (b ∷ bs)) unauthorized

Reads-given_session :
    (server : Server) (session : Option SessionToken) (request : Request)
    → Reads (given_session server session request)
unfolding given_session
Reads-given_session server none request =
    Reads-session_of_values server.sessions request.session_ids
Reads-given_session server (some token) request = Reads-pure token

-- A handler that goes on after authenticateSession has a token that the request presented, whose id
-- carries the hash.
pub authenticate_session-ok :
    (server : Server) (session : Option SessionToken) (request : Request) (s : Store)
    (token : SessionToken)
    → (authenticate_session server session request s).0 ≡ ok token
    → IsPresented server session token
      × (validate_session_id server.compute_hash token.unique_session_id ≡ true)
unfolding authenticate_session
authenticate_session-ok server session request s token h =
    let (x, given, h1) = bind-ok (given_session server session request) _ s token h in
    let t = (given_session server session request s).1 in
    let (u1, valid, h2) =
      bind-ok (guard (validate_session_id server.compute_hash x.unique_session_id) unauthorized) _ t
        token h1 in
    let (found, looked_up, h3) =
      bind-ok (db_get_user_by_user_id x.authenticated_userid) _ t token h2 in
    let (u2, known, h4) = bind-ok (or_raise found unauthorized) _ _ token h3 in
    let same : x ≡ token = ground arith in
    rw (sym same) (
      given_session-IsPresented server session request s x given,
      guard-ok _ unauthorized t u1 valid,
    )

-- Authentication, whatever its outcome, changes no object.
pub Reads-authenticate_session :
    (server : Server) (session : Option SessionToken) (request : Request)
    → Reads (authenticate_session server session request)
unfolding authenticate_session
Reads-authenticate_session server session request =
    Reads-bind (Reads-given_session server session request) λ x.
      Reads-bind
        (Reads-guard (validate_session_id server.compute_hash x.unique_session_id) unauthorized)
        λ u.
          Reads-bind (Reads-db_get_user_by_user_id x.authenticated_userid)
            λ found. Reads-bind (Reads-or_raise found unauthorized) λ y. Reads-pure x

-- To read a parameter changes no object.
pub Reads-get_required :
    (server : Server) (request : Request) (field : Field)
    → Reads (get_required server request field)
unfolding get_required
Reads-get_required server request field = quiet λ s. refl

-- The question whether an action is allowed, whatever its answer, changes no object.
pub Reads-authorize_handler_action :
    (server : Server) (session : Option SessionToken) (mask : List Bool) (rid : Text)
    → Reads (authorize_handler_action server session mask rid)
unfolding authorize_handler_action get_resource
Reads-authorize_handler_action server session mask rid =
    Reads-if server.authorize
      (Reads-bind (Reads-authorized session mask rid) λ allowed. Reads-if allowed (Reads-pure tt) (
        Reads-bind (Reads-get_as as_resource user_error rid) λ r. Reads-raise (Unit {0}) forbidden))
      (Reads-pure tt)

known_user-ok : (r : Result (Option User)) (u : User) → known_user r ≡ ok u → r ≡ ok (some u)
unfolding known_user
known_user-ok (ok (some x)) u h = ground arith
known_user-ok (ok none) u h = cc
known_user-ok (err e) u h = cc
known_user-ok panic u h = cc

authorized-ok :
    (token : SessionToken) (mask : List Bool) (rid : Text) (s : Store)
    → (authorized (some token) mask rid s).0 ≡ ok true
    → let (r, t) = db_get_user_by_user_id token.authenticated_userid s in
      (u : User) × (r ≡ ok (some u)) × UserMay (fetch t) u mask rid
unfolding authorized
authorized-ok token mask rid s h =
    let (r, t) = db_get_user_by_user_id token.authenticated_userid s in
    let (u, found, decided) =
      continue-ok (λ x. user_authorized x mask rid) (known_user r) t true h in
    (u, known_user-ok r u found, user_authorized_sound u mask rid t decided)

-- A handler that goes on after authorizeHandlerAction works for a user who may perform the action.
pub authorize_handler_action-ok :
    (server : Server) (token : SessionToken) (mask : List Bool) (rid : Text) (s : Store)
    (d : Unit {0})
    → server.authorize ≡ true
    → (authorize_handler_action server (some token) mask rid s).0 ≡ ok d
    → let (r, t) = db_get_user_by_user_id token.authenticated_userid s in
      (u : User) × (r ≡ ok (some u)) × UserMay (fetch t) u mask rid
unfolding authorize_handler_action
authorize_handler_action-ok server token mask rid s d on h =
    let (allowed, decided, rest) = bind-ok (authorized (some token) mask rid) _ s d (rw on at h) in
    elim (Bool-cases allowed) [
      | inl yes_ ↦ authorized-ok token mask rid s (rw yes_ at decided)
      | inr no_ ↦
          let (r, found, raised) =
            bind-ok (get_resource rid) (λ _. raise forbidden) _ d (rw no_ at rest) in
          cc raised
    ]
