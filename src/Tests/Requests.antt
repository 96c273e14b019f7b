-- ===== src/Tests/Requests.antt =====
-- Requests of the group's member, with a stand-in for what lies outside the program.
use safe_harbor_server.Base.{true, Option, none, some, List, [], ◌∷◌, ◌≡◌, ◌⊎◌, refl}
use safe_harbor_server.Store.{
  Text, Group, User, ok, Action, user_error, get_group, get_user, reset_transaction_cache, mutate,
  map_realm, ◌>>◌, raise,
}
use safe_harbor_server.Auth.Masks.{write_mask, delete_mask}
use safe_harbor_server.Auth.Sessions.{
  Bytes, SessionToken, Credentials, new_session_token, create_unique_session_id, identify_session,
}
use safe_harbor_server.Handlers.Request.{
  Request, Field, Response, get_required, resource_id, party_id, realm_id, group_id, user_obj_id,
  user_id, result, permission_desc,
}
use safe_harbor_server.Handlers.Gate.{Passed, after_authentication}
use safe_harbor_server.Handlers.Guarded.{
  set_permission_gate, add_permission_gate, rem_permission_gate, deactivate_realm_gate,
  rem_group_user_gate, disable_user_gate,
}
use safe_harbor_server.Handlers.Permissions.{set_permission, add_permission, rem_permission}
use safe_harbor_server.Handlers.Users.{deactivate_realm, disable_user}
use safe_harbor_server.Handlers.Groups.{rem_group_user}
use safe_harbor_server.Handlers.Login.{authenticate}
use safe_harbor_server.Handlers.Entrance.{Verified, authenticate_sessions}
use safe_harbor_server.Handlers.Dispatch.{handle_request}
use safe_harbor_server.Handlers.Transactions.{IsLeft, handle_request-IsLeft}
use safe_harbor_server.Tests.Sample.{sample, server, cookie}

abbrev value_of : Field → Option (List Text)
value_of party_id = some (4 ∷ [])
value_of resource_id = some (2 ∷ [])
value_of realm_id = some (2 ∷ [])
value_of group_id = some (6 ∷ [])
value_of user_obj_id = some (4 ∷ [])
value_of user_id = some (13 ∷ [])
value_of _ = some (1 ∷ [])

abbrev request : Request
request = record { values = value_of; session_ids = none }

set_permission_runs :
    (set_permission server (some cookie) request sample).0
    ≡ ok (permission_desc 10 2 4 (true ∷ true ∷ true ∷ true ∷ true ∷ []))
unfolding set_permission
set_permission_runs = refl

set_permission_gate_example :
    (rid : Text) × ((get_required server request resource_id sample).0 ≡ ok rid)
    × Passed server
        (some cookie)
        request
        write_mask
        rid
        sample
        (after_authentication server (some cookie) request sample)
set_permission_gate_example =
    set_permission_gate server (some cookie) request sample refl
      (permission_desc 10 2 4 (true ∷ true ∷ true ∷ true ∷ true ∷ [])) set_permission_runs

add_permission_runs :
    (add_permission server (some cookie) request sample).0
    ≡ ok (permission_desc 10 2 4 (true ∷ true ∷ true ∷ true ∷ true ∷ []))
unfolding add_permission
add_permission_runs = refl

add_permission_gate_example :
    (rid : Text) × ((get_required server request resource_id sample).0 ≡ ok rid)
    × Passed server
        (some cookie)
        request
        write_mask
        rid
        sample
        (after_authentication server (some cookie) request sample)
add_permission_gate_example =
    add_permission_gate server (some cookie) request sample refl
      (permission_desc 10 2 4 (true ∷ true ∷ true ∷ true ∷ true ∷ [])) add_permission_runs

rem_permission_runs : (rem_permission server (some cookie) request sample).0 ≡ ok (result 200)
unfolding rem_permission
rem_permission_runs = refl

rem_permission_gate_example :
    (rid : Text) × ((get_required server request resource_id sample).0 ≡ ok rid)
    × Passed server
        (some cookie)
        request
        write_mask
        rid
        sample
        (after_authentication server (some cookie) request sample)
rem_permission_gate_example =
    rem_permission_gate server (some cookie) request sample refl (result 200) rem_permission_runs

deactivate_realm_runs : (deactivate_realm server (some cookie) request sample).0 ≡ ok (result 200)
unfolding deactivate_realm
deactivate_realm_runs = refl

deactivate_realm_gate_example :
    (rid : Text) × ((get_required server request realm_id sample).0 ≡ ok rid)
    × Passed server
        (some cookie)
        request
        delete_mask
        rid
        sample
        (after_authentication server (some cookie) request sample)
deactivate_realm_gate_example =
    deactivate_realm_gate server (some cookie) request sample refl (result 200)
      deactivate_realm_runs

rem_group_user_runs : (rem_group_user server (some cookie) request sample).0 ≡ ok (result 200)
unfolding rem_group_user
rem_group_user_runs = refl

rem_group_user_gate_example :
    let t = after_authentication server (some cookie) request sample in
    (id : Text) × (g : Group) × ((get_required server request group_id sample).0 ≡ ok id)
    × ((get_group id t).0 ≡ ok g)
    × Passed server (some cookie) request write_mask g.realm_id sample (get_group id t).1
rem_group_user_gate_example =
    rem_group_user_gate server (some cookie) request sample refl (result 200) rem_group_user_runs

disable_user_runs : (disable_user server (some cookie) request sample).0 ≡ ok (result 200)
unfolding disable_user
disable_user_runs = refl

disable_user_gate_example :
    let t = after_authentication server (some cookie) request sample in
    (id : Text) × (x : User) × ((get_required server request user_obj_id sample).0 ≡ ok id)
    × ((get_user id t).0 ≡ ok x)
    × Passed server (some cookie) request write_mask x.realm_id sample (get_user id t).1
disable_user_gate_example =
    disable_user_gate server (some cookie) request sample refl (result 200) disable_user_runs

abbrev new_id : Bytes
unfolding create_unique_session_id
new_id = create_unique_session_id (λ _. []) 5000000000

abbrev new_token : SessionToken
new_token = new_session_token new_id 13

authenticate_runs :
    identify_session (authenticate server none request sample).1 new_id ≡ some new_token
unfolding identify_session authenticate
authenticate_runs = refl

authenticate_sessions_example :
    (identify_session server.sessions new_id ≡ some new_token)
    ⊎ ((creds : Credentials) × (u : User) × Verified server request sample creds u
        × (new_id ≡ create_unique_session_id server.compute_hash sample.now)
        × (new_token.authenticated_userid ≡ creds.user_id))
authenticate_sessions_example =
    authenticate_sessions server none request sample new_id new_token authenticate_runs

-- A handler that renames the realm, and then fails.
abbrev fails_late : Action Response
fails_late = mutate 2 (map_realm (λ r. record r { org_full_name = 29 })) >> raise user_error

handle_request-IsLeft_example :
    IsLeft
      (fails_late (reset_transaction_cache sample)).1
      (handle_request (some fails_late) sample).store
handle_request-IsLeft_example = handle_request-IsLeft fails_late sample
