-- ===== src/Parties/Users.antt =====
-- InMemParty and InMemUser of src/safeharbor/server/InMemory.go, and the hash comparison of
-- src/safeharbor/server/auth.go.
use Prim.Native.Nat.{◌/◌}
use safe_harbor_server.Base.{
  ℕ, ◌-◌, Bool, true, false, none, some, List, [], ◌∷◌, ◌++◌, ◌==◌, ltb, if◌then◌else◌, length,
  drop, contains, get_elem?,
}
use safe_harbor_server.Store.{
  Text, Ptr, Party, User, user, as_group, as_realm, as_user, map_user, map_party, map_repo,
  user_error, server_error, Action, pure, gets, or_crash, ◌>>=◌, ◌>>◌, guard, attempt, mutate,
  new_object, deref, get_object, update_object, get_group, get_repo, get_as, get_acl_entry,
  get_resource, add_user,
}
use safe_harbor_server.Utilities.{Utilities}

unfoldable pub deref_user : Ptr → Action User
unfolding deref
deref_user p = do o ← deref p; or_crash (as_user o)

-- InMemClient.NewInMemParty, but for the id, which `new_object` gives.
unfoldable pub new_party : Text → Text → ℕ → Text → Party
new_party name realm_id now id = record {
  id = id;
  is_active = true;
  name = name;
  creation_time = now;
  realm_id = realm_id;
  acl_entry_ids = [];
}

-- InMemClient.setActive
unfoldable pub set_active : Ptr → Bool → Action (Unit {0})
unfolding update_object
set_active party b = do
  mutate party (map_party (λ p. record p { is_active = b }))
  update_object party

-- The loop of AuthService.compareHashValues, which indexes the second value.
unfoldable pub same_bytes : List ℕ → List ℕ → Bool
same_bytes [] h2 = true
same_bytes (b ∷ h1) [] = false
same_bytes (b ∷ h1) (c ∷ h2) = if b == c then same_bytes h1 h2 else false

-- AuthService.compareHashValues
unfoldable pub compare_hash_values : List ℕ → List ℕ → Bool
unfolding same_bytes
compare_hash_values h1 h2 = if length h1 == length h2 then same_bytes h1 h2 else false

-- The list that InMemUser.addLoginAttempt leaves, at the time `now`.
unfoldable pub attempts_after : ℕ → ℕ → List ℕ → List ℕ
attempts_after max_retained now attempts =
    let num = length attempts in
    drop (if ltb max_retained num then num - max_retained else num) attempts ++ now ∷ []

-- InMemUser.addLoginAttempt, at the second of the clock, which counts nanoseconds; it does not
-- write the user back.
unfoldable pub add_login_attempt : ℕ → Ptr → Action (Unit {0})
unfolding attempts_after
add_login_attempt max_retained u = do
  now ← gets (λ s. s.now)
  mutate u (
      map_user (λ x. record x {
        most_recent_login_attempts =
            attempts_after max_retained (now / 1000000000) x.most_recent_login_attempts;
      }))

-- InMemUser.hasGroupWithId
unfoldable pub has_group_with_id : List Text → Text → Action Bool
unfolding get_group
has_group_with_id group_ids group_id = do
  g ← attempt (get_group group_id)
  elim g [ none ↦ pure false | some _ ↦ pure (contains group_id group_ids) ]

-- InMemUser.addGroupIdDeferredUpdate
unfoldable pub add_group_id_deferred_update : Ptr → Text → Action (Unit {0})
unfolding deref_user has_group_with_id get_object
add_group_id_deferred_update u group_id = do
  x ← deref_user u
  member ← has_group_with_id x.group_ids group_id
  guard (if member then false else true) user_error
  get_as as_group user_error group_id
  mutate u (map_user (λ y. record y { group_ids = y.group_ids ++ group_id ∷ [] }))

-- InMemUser.setUnverifiedEmailAddress
unfoldable pub set_unverified_email_address : Ptr → Text → Action (Unit {0})
unfolding update_object
set_unverified_email_address u email = do
  mutate u (map_user (λ x. record x { email_address = email; email_is_verified = false }))
  update_object u

-- InMemUser.flagEmailAsVerified, which does not look at its argument.
unfoldable pub flag_email_as_verified : Ptr → Text → Action (Unit {0})
unfolding deref_user update_object
flag_email_as_verified u email = do
  x ← deref_user u
  guard (if x.email_address == 0 then false else true) user_error
  mutate u (map_user (λ y. record y { email_is_verified = true }))
  update_object u

-- InMemUser.addEventId, whose error is dropped.
unfoldable pub add_event_id : Ptr → Text → Action (Unit {0})
unfolding update_object
add_event_id u id = do
  mutate u (map_user (λ x. record x { event_ids = x.event_ids ++ id ∷ [] }))
  attempt (update_object u)
  pure tt

-- The loop of getRealmsAdministeredByUser.
unfoldable pub administered : List Text → List Text → Action (List Text)
unfolding get_acl_entry get_resource deref
administered [] found = pure found
administered (id ∷ ids) found = do
  e ← get_acl_entry id
  r ← get_resource e.resource_id
  o ← deref r.id
  elim (as_realm o) [
    | none ↦ administered ids found
    | some realm ↦ (do
      can_write ← or_crash (get_elem? e.permission_mask 2)
      administered ids (if can_write then found ++ realm.id ∷ [] else found))
  ]

-- InMemClient.getRealmsAdministeredByUser
unfoldable pub get_realms_administered_by_user : Text → Action (List Text)
unfolding administered get_object
get_realms_administered_by_user user_obj_id = do
  u ← get_as as_user server_error user_obj_id
  administered u.acl_entry_ids []

-- The salted hash of a password, by SHA-256: AuthService.computeHash.
module _ (compute_hash : Text → List ℕ) where
  -- InMemClient.NewInMemUser
  unfoldable pub new_user : Text → Text → Text → Text → Text → Action Ptr
  unfolding new_party new_object deref_user add_user
  new_user user_id name email pswd realm_id = do
    now ← gets (λ s. s.now)
    p ← new_object (λ id. user (record {
      party = new_party name realm_id now id;
      user_id = user_id;
      default_repo_id = 0;
      email_address = email;
      email_is_verified = false;
      password_hash = compute_hash pswd;
      group_ids = [];
      most_recent_login_attempts = [];
      event_ids = [];
    }))
    u ← deref_user p
    add_user u
    pure p

  -- InMemUser.setPassword, which drops the error of the write.
  unfoldable pub set_password : Ptr → Text → Action (Unit {0})
  unfolding update_object
  set_password u pswd = do
    mutate u (map_user (λ x. record x { password_hash = compute_hash pswd }))
    attempt (update_object u)
    pure tt

  -- InMemUser.validatePassword
  unfoldable pub validate_password : User → Text → Bool
  unfolding compare_hash_values
  validate_password u pswd = compare_hash_values (compute_hash pswd) u.password_hash

module _ (utilities : Utilities) where
  -- InMemUser.setDefaultRepo, which does not write the repo back.
  unfoldable pub set_default_repo : Ptr → Ptr → Action (Unit {0})
  unfolding update_object
  set_default_repo u repo = do
    mutate u (map_user (λ x. record x { default_repo_id = repo }))
    mutate repo (
        map_repo (λ r. record r { default_user_ids = utilities.add_uniquely u r.default_user_ids }))
    update_object u

  -- InMemUser.unsetDefaultRepo
  unfoldable pub unset_default_repo : Ptr → Action (Unit {0})
  unfolding deref_user get_repo update_object
  unset_default_repo u = do
    x ← deref_user u
    if x.default_repo_id == 0 then pure tt else do
      r ← get_repo x.default_repo_id
      mutate r.id (
          map_repo
            (λ y. record y { default_user_ids = utilities.remove_from u y.default_user_ids }))
      mutate u (map_user (λ y. record y { default_repo_id = 0 }))
      update_object r.id
      update_object u
