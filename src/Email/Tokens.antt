-- ===== src/Email/Tokens.antt =====
-- What it takes for a verification token to be accepted, and that it is accepted once.
use safe_harbor_server.Base.{
  ℕ, Option, true, false, ◌+◌, ◌≤◌, none, some, ◌≡◌, ◌≢◌, ◌==◌, if◌then◌else◌, refl, sym, ap, ◌∙◌,
  arith, update, update_self, ltb,
}
use safe_harbor_server.Store.{
  Text, Store, User, IdentityValidationInfo, Result, ok, err, panic, Action, Fault, user_error,
  guard, or_raise, gets, pure, continue, ◌>>=◌, ◌>>◌, as_identity_info, db_get_user_by_user_id,
  get_identity_validation_info, get_identity_validation_info_by_token, rem_identity_validation_info,
}
use safe_harbor_server.Store.Reads.{
  SameObjects, SameObjects-trans, Reads, Reads-get_as, Reads-db_get_user_by_user_id,
}
use safe_harbor_server.Auth.Sessions.{validate_session_id}
use safe_harbor_server.Handlers.Gate.{guard-ok, or_raise-ok}
use safe_harbor_server.Email.Establish.{EmailService, lifespan, validate_email_token}

-- The token was made by who knows the salt, is pending for a user and has not expired; the answer is
-- of the user that the store knows under the login name of the token's info object, once that object
-- is read; and what is left of the pending tokens is all others.
pub record Accepted (service : EmailService) (token : Text) (s : Store) (answer : Text × Text)
    (t : Store) : Type 0 where
  pub has_hash : validate_session_id service.compute_hash (service.bytes_of token) ≡ true
  pub pending : s.email_token_map token ≢ 0
  pub info : IdentityValidationInfo
  pub found : (get_identity_validation_info (s.email_token_map token) s).0 ≡ ok info
  pub in_time : s.now ≤ info.creation_time + lifespan
  pub user : User
  pub known :
      (db_get_user_by_user_id info.user_id
        (get_identity_validation_info (s.email_token_map token) s).1).0
      ≡ ok (some user)
  pub answers : answer ≡ (user.user_id, user.email_address)
  pub heap : t.heap ≡ s.heap
  pub others : t.email_token_map ≡ update s.email_token_map token 0

continue-done :
    {A B : Type 0} (f : A → Action B) (r : Result A) (t : Store) (b : B)
    → (continue f (r, t)).0 ≡ ok b
    → (a : A) × (r ≡ ok a) × (continue f (r, t) ≡ f a t)
continue-done f (ok a) t b h = (a, refl, refl)
continue-done f (err e) t b h = cc
continue-done f panic t b h = cc

-- A step of work that went well: what it found, and the work that was left.
step_done :
    {A B : Type 0} (m : Action A) (f : A → Action B) (s : Store) (b : B)
    → ((m >>= f) s).0 ≡ ok b
    → (a : A) × ((m s).0 ≡ ok a) × ((m >>= f) s ≡ f a (m s).1) × ((f a (m s).1).0 ≡ ok b)
step_done m f s b h =
    let (a, went, e) = continue-done f (m s).0 (m s).1 b h in (a, went, e, rw e at h)

Reads-get_identity_validation_info : (id : Text) → Reads (get_identity_validation_info id)
unfolding get_identity_validation_info
Reads-get_identity_validation_info id = Reads-get_as as_identity_info user_error id

or_raise-store : {A : Type 0} (o : Option A) (e : Fault) (s : Store) → (or_raise o e s).1 ≡ s
or_raise-store none e s = refl
or_raise-store (some a) e s = refl

set-if : (n : ℕ) → (if n == 0 then false else true) ≡ true → n ≢ 0
set-if n h = ground arith

in_time-if : (a b : ℕ) → (if ltb a b then false else true) ≡ true → b ≤ a
in_time-if a b h = ground arith

module _ (token : Text) (info : IdentityValidationInfo) (u : User) where
  -- The end of ValidateEmailToken, once the user is known.
  abbrev accept : Action (Text × Text)
  accept = do
    now ← gets (λ s. s.now)
    guard (if ltb (info.creation_time + lifespan) now then false else true) user_error
    rem_identity_validation_info token
    pure (u.user_id, u.email_address)

  accept-ok :
      (s : Store) (answer : Text × Text)
      → (accept s).0 ≡ ok answer
      → (s.now ≤ info.creation_time + lifespan)
        × (answer ≡ (u.user_id, u.email_address))
        × ((accept s).1 ≡ record s { email_token_map = update s.email_token_map token 0 })
  unfolding rem_identity_validation_info
  accept-ok s answer h =
      let fresh = if ltb (info.creation_time + lifespan) s.now then false else true in
      let (d, went, e, h1) = step_done (guard fresh user_error) _ s answer h in
      let fresh_ = guard-ok fresh user_error s d went in
      (in_time-if _ s.now fresh_, sym (ground arith), ap (λ p. p.1) e)

unknown_token :
    (service : EmailService) (token : Text) (s : Store)
    → validate_session_id service.compute_hash (service.bytes_of token) ≡ true
    → s.email_token_map token ≡ 0
    → validate_email_token service token s ≡ (err user_error, s)
unfolding validate_email_token get_identity_validation_info_by_token
unknown_token service token s valid gone = rw (valid, gone) refl

module _ (service : EmailService) (token : Text) (s : Store) (answer : Text × Text) where
  -- ValidateEmailToken returns a user's id and address only for a token that carries the salted hash,
  -- is pending, is of an info object made at most 72 hours before, and whose user is known; these
  -- are the id and the address that the user of that info object has now, no object changes, and of
  -- the pending tokens this one alone goes.
  pub validate_email_token-Accepted :
      (validate_email_token service token s).0 ≡ ok answer
      → Accepted service token s answer (validate_email_token service token s).1
  unfolding validate_email_token get_identity_validation_info_by_token
  validate_email_token-Accepted h =
      let hashed = validate_session_id service.compute_hash (service.bytes_of token) in
      let (u1, valid, e1, h1) = step_done (guard hashed user_error) _ s answer h in
      let id = s.email_token_map token in
      let set = if id == 0 then false else true in
      let (u2, pending, e2, h2) = step_done (guard set user_error) _ s answer h1 in
      let (info, found, e3, h3) = step_done (get_identity_validation_info id) _ s answer h2 in
      let t = (get_identity_validation_info id s).1 in
      let read = (Reads-get_identity_validation_info id).same s in
      let (o, known, e4, h4) = step_done (db_get_user_by_user_id info.user_id) _ t answer h3 in
      let t2 = (db_get_user_by_user_id info.user_id t).1 in
      let (u, is_some, e5, h5) = step_done (or_raise o user_error) _ t2 answer h4 in
      let w = (or_raise o user_error t2).1 in
      let same_w : SameObjects s w =
        rw (or_raise-store o user_error t2)
          (SameObjects-trans s t t2 read ((Reads-db_get_user_by_user_id info.user_id).same t)) in
      let (early, answers, left) = accept-ok token info u w answer h5 in
      let last = ap (λ p. p.1) (e1 ∙ (e2 ∙ (e3 ∙ (e4 ∙ e5)))) ∙ left in
      record {
        has_hash = guard-ok hashed user_error s u1 valid;
        pending = set-if id (guard-ok set user_error s u2 pending);
        info = info;
        found = found;
        in_time = rw same_w.now at early;
        user = u;
        known = known ∙ ap ok (or_raise-ok o user_error t2 u is_some);
        answers = answers;
        heap = ap (λ x. x.heap) last ∙ same_w.heap;
        others =
            ap (λ x. x.email_token_map) last ∙ ap (λ m. update m token 0) same_w.email_token_map;
      }

  -- A token that ValidateEmailToken has accepted is not accepted again: at the store that it leaves,
  -- the same token is a user error, which changes nothing.
  pub validate_email_token-once :
      (validate_email_token service token s).0 ≡ ok answer
      → let t = (validate_email_token service token s).1 in
        validate_email_token service token t ≡ (err user_error, t)
  validate_email_token-once h =
      let a = validate_email_token-Accepted h in
      unknown_token service token (validate_email_token service token s).1 a.has_hash
        (ap (λ m. m token) a.others ∙ update_self s.email_token_map token 0)
