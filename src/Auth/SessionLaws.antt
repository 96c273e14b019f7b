-- ===== src/Auth/SessionLaws.antt =====
-- Which session ids are valid, and what the session map knows.
use Prim.Native.Nat.{◌/◌, ◌%◌}
use safe_harbor_server.Base.{
  ℕ, zero, suc, ◌+◌, true, false, Option, none, some, List, [], ◌∷◌, ◌++◌, ◌≡◌, ◌≢◌, ◌↔◌, refl, ap,
  sym, ◌∙◌, arith, contains, Bool-cases, inl, inr,
}
use safe_harbor_server.Auth.Sessions.{
  Bytes, Credentials, Sessions, bytes_eq, put, digits, decimal_text, hex_digit, hex, colon, split,
  create_unique_session_id, two_parts, validate_session_id, create_session, invalidate_session_id,
  identify_session, new_session_token,
}

pub bytes_eq_iff : (a b : Bytes) → (bytes_eq a b ≡ true) ↔ (a ≡ b)
unfolding bytes_eq
bytes_eq_iff [] [] = (λ _. refl, λ _. refl)
bytes_eq_iff [] (c ∷ cs) = (λ h. cc, λ h. cc)
bytes_eq_iff (b ∷ bs) [] = (λ h. cc, λ h. cc)
bytes_eq_iff (b ∷ bs) (c ∷ cs) = ground (arith, bytes_eq_iff bs cs)

digits-no_colon :
    (fuel n : ℕ) (acc : Bytes)
    → contains colon acc ≡ false
    → contains colon (digits fuel n acc) ≡ false
unfolding digits
digits-no_colon zero n acc h = h
digits-no_colon (suc fuel) n acc h =
    ground (arith, digits-no_colon fuel (n / 10) ((48 + n % 10) ∷ acc))

hex-no_colon : (bs : Bytes) → contains colon (hex bs) ≡ false
unfolding hex hex_digit
hex-no_colon [] = refl
hex-no_colon (b ∷ bs) = ground (arith, hex-no_colon bs)

split-none : (b : Bytes) → contains colon b ≡ false → split b ≡ (b, [])
unfolding split
split-none [] h = refl
split-none (x ∷ xs) h = ground (arith, split-none xs)

split-append :
    (a b : Bytes)
    → contains colon a ≡ false
    → contains colon b ≡ false
    → split (a ++ colon ∷ b) ≡ (a, b ∷ [])
unfolding split
split-append [] b ha hb = rw (split-none b hb)
split-append (x ∷ xs) b ha hb = ground (arith, split-append xs b)

split-no_colon : (s : Bytes) → contains colon (split s).0 ≡ false
unfolding split
split-no_colon [] = refl
split-no_colon (x ∷ xs) = ground (arith, split-no_colon xs)

split_one : (s : Bytes) → (split s).1 ≡ [] → (split s).0 ≡ s
unfolding split
split_one [] h = refl
split_one (x ∷ xs) h = ground (arith, split_one xs)

split_two : (s b : Bytes) → (split s).1 ≡ b ∷ [] → s ≡ (split s).0 ++ colon ∷ b
unfolding split
split_two [] b h = cc
split_two (x ∷ xs) b h = ground (arith, split_two xs b, split_one xs)

pub identify-put_self :
    (m : Sessions) (k : Bytes) (v : Option Credentials)
    → identify_session (put m k v) k
      ≡ elim v [ none ↦ none | some creds ↦ some (new_session_token k creds.user_id) ]
unfolding identify_session
identify-put_self m k v = let e : bytes_eq k k ≡ true = (bytes_eq_iff k k).1 refl in ground arith

pub identify-put_ne :
    (m : Sessions) (k j : Bytes) (v : Option Credentials)
    → j ≢ k
    → identify_session (put m k v) j ≡ identify_session m j
unfolding identify_session
identify-put_ne m k j v other = elim (Bool-cases (bytes_eq k j)) [
  | inl same ↦ absurd (other (sym ((bytes_eq_iff k j).0 same)))
  | inr differ ↦ ground arith
]

module _ (compute_hash : Bytes → Bytes) where
  validate_parts :
      (a b : Bytes)
      → contains colon a ≡ false
      → contains colon b ≡ false
      → validate_session_id compute_hash (a ++ colon ∷ b) ≡ bytes_eq b (hex (compute_hash a))
  unfolding validate_session_id two_parts
  validate_parts a b ha hb = rw (split-append a b ha hb)

  -- The two parts of a session id that the server makes.
  pub split_created :
      (now : ℕ)
      → split (create_unique_session_id compute_hash now)
        ≡ (decimal_text now, hex (compute_hash (decimal_text now)) ∷ [])
  unfolding create_unique_session_id decimal_text
  split_created now =
      split-append (decimal_text now) (hex (compute_hash (decimal_text now)))
        (digits-no_colon (suc now) now [] refl) (hex-no_colon (compute_hash (decimal_text now)))

  -- A session id that the server makes, at any time, passes the server's check.
  pub validate-create :
      (now : ℕ)
      → validate_session_id compute_hash (create_unique_session_id compute_hash now) ≡ true
  validate-create now =
      let text = decimal_text now in
      let hash = hex (compute_hash text) in
      let parts =
        validate_parts text hash (unfold decimal_text in digits-no_colon (suc now) now [] refl)
          (hex-no_colon (compute_hash text)) in
      unfold create_unique_session_id in parts ∙ (bytes_eq_iff hash hash).1 refl

  valid_two_parts :
      (s a : Bytes) (rest : List Bytes)
      → two_parts compute_hash (a, rest) ≡ true
      → rest ≡ hex (compute_hash a) ∷ []
  unfolding two_parts
  valid_two_parts s a [] h = cc
  valid_two_parts s a (u ∷ []) h =
      ap (λ (x : Bytes). x ∷ []) ((bytes_eq_iff u (hex (compute_hash a))).0 h)
  valid_two_parts s a (u ∷ x ∷ xs) h = cc

  -- A session id is valid exactly if it is some text with no colon, a colon, and the hash of that
  -- text in hexadecimal.
  pub validate_iff :
      (s : Bytes)
      → (validate_session_id compute_hash s ≡ true)
        ↔ ((a : Bytes) × (contains colon a ≡ false) × (s ≡ a ++ colon ∷ hex (compute_hash a)))
  validate_iff s = (
    (λ h.
        let a = (split s).0 in
        let two = valid_two_parts s a (split s).1 (unfold validate_session_id in h) in
        (a, split-no_colon s, split_two s (hex (compute_hash a)) two)),
    λ (a, plain, e). rw e (
        validate_parts a (hex (compute_hash a)) plain (hex-no_colon (compute_hash a))
        ∙ (bytes_eq_iff (hex (compute_hash a)) (hex (compute_hash a))).1 refl),
  )

  -- A new session is found under its id, for the user of the credentials, and every other id is
  -- known as before.
  pub identify-create :
      (creds : Credentials) (now : ℕ) (sessions : Sessions)
      → let (token, sessions') = create_session compute_hash creds now sessions in
        (identify_session sessions' token.unique_session_id ≡ some token)
        × (token.authenticated_userid ≡ creds.user_id)
        × ((k : Bytes)
            → k ≢ token.unique_session_id
            → identify_session sessions' k ≡ identify_session sessions k)
  unfolding create_session
  identify-create creds now sessions =
      let id = create_unique_session_id compute_hash now in
      (
        identify-put_self sessions id (some creds),
        refl,
        λ k other. identify-put_ne sessions id k (some creds) other,
      )

  -- After an id that the server made at some time is invalidated, it is no longer identified, and
  -- other ids are identified as before; but the check of the id, which looks at the hash alone,
  -- still accepts it.
  pub invalidate_lem :
      (now : ℕ) (sessions : Sessions)
      → let id = create_unique_session_id compute_hash now in
        (identify_session (invalidate_session_id id sessions) id ≡ none)
        × ((k : Bytes)
            → k ≢ id
            → identify_session (invalidate_session_id id sessions) k ≡ identify_session sessions k)
        × (validate_session_id compute_hash id ≡ true)
  unfolding invalidate_session_id
  invalidate_lem now sessions =
      let id = create_unique_session_id compute_hash now in
      (
        identify-put_self sessions id none,
        (λ k other. identify-put_ne sessions id k none other),
        validate-create now,
      )
