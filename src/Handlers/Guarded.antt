-- ===== src/Handlers/Guarded.antt =====
-- The handlers that change something did it for a user who may: each result comes after the gate.
use safe_harbor_server.Base.{Bool, true, Option, some, List, ◌≡◌, arith}
use safe_harbor_server.Store.{Text, Ptr, Store, User, Group, ok, Action, get_group, get_user}
use safe_harbor_server.Auth.Masks.{write_mask, delete_mask}
use safe_harbor_server.Auth.Sessions.{SessionToken}
use safe_harbor_server.Handlers.Request.{
  Server, Request, Response, get_required, resource_id, party_id, realm_id, group_id, user_obj_id,
}
use safe_harbor_server.Handlers.Identity.{authenticate_session, authorize_handler_action}
use safe_harbor_server.Store.Reads.{SameObjects, SameObjects-trans, Reads-get_user, Reads-get_group}
use safe_harbor_server.Handlers.Gate.{
  Passed, after_authentication, bind-ok, authenticate_session-ok, Reads-authenticate_session,
  authorize_handler_action-ok,
}
use safe_harbor_server.Handlers.Permissions.{
  change_permission, set_permission, add_permission, rem_permission, requested_mask,
}
use safe_harbor_server.Handlers.Users.{deactivate_realm, disable_user}
use safe_harbor_server.Handlers.Groups.{rem_group_user}
use safe_harbor_server.Acl.Access.{set_access, add_access}

requested_mask-store :
    (server : Server) (request : Request) (s : Store) → (requested_mask server request s).1 ≡ s
unfolding requested_mask get_required
requested_mask-store server request s = ground arith

module _ (server : Server) (session : Option SessionToken) (request : Request) (s : Store)
    (on : server.authorize ≡ true) where
  -- The gate, once its two checks went well.
  pub passed :
      (token : SessionToken) (t : Store) (mask : List Bool) (rid : Text) (d : Unit {0})
      → (authenticate_session server session request s).0 ≡ ok token
      → SameObjects s t
      → (authorize_handler_action server (some token) mask rid t).0 ≡ ok d
      → Passed server session request mask rid s t
  passed token t mask rid d known same allowed =
      let (presented, valid) = authenticate_session-ok server session request s token known in
      let (u, found, may) = authorize_handler_action-ok server token mask rid t d on allowed in
      record {
        token = token;
        user = u;
        authenticated = known;
        presented = presented;
        valid = valid;
        same = same;
        known = found;
        may = may;
      }

  change_permission_gate :
      (change : Ptr → Ptr → List Bool → Action Ptr) (response : Response)
      → (change_permission change server session request s).0 ≡ ok response
      → (rid : Text) × ((get_required server request resource_id s).0 ≡ ok rid)
        × Passed server session request write_mask rid s
            (after_authentication server session request s)
  unfolding change_permission get_required
  change_permission_gate change response h =
      let (token, known, h1) =
        bind-ok (authenticate_session server session request) _ s response h in
      let t = (authenticate_session server session request s).1 in
      let (pid, p_given, h2) = bind-ok (get_required server request party_id) _ t response h1 in
      let (rid, r_given, h3) = bind-ok (get_required server request resource_id) _ t response h2 in
      let (mask, m_given, h4) = bind-ok (requested_mask server request) _ t response h3 in
      let (d, allowed, h5) =
        bind-ok (authorize_handler_action server (some token) write_mask rid) _ _ response h4 in
      (
        rid,
        r_given,
        passed token t write_mask rid d known
            ((Reads-authenticate_session server session request).same s)
            (rw (requested_mask-store server request t) at allowed),
      )

  -- Where the server authorizes, setPermission returns a result only if the request names a
  -- resource and presents a session with a valid id, whose user, as the store that authenticateSession
  -- leaves knows that user, may write it by the access rules.
  pub set_permission_gate :
      (response : Response)
      → (set_permission server session request s).0 ≡ ok response
      → (rid : Text) × ((get_required server request resource_id s).0 ≡ ok rid)
        × Passed server session request write_mask rid s
            (after_authentication server session request s)
  unfolding set_permission
  set_permission_gate response h = change_permission_gate set_access response h

  -- Where the server authorizes, addPermission returns a result only if the request names a
  -- resource and presents a session with a valid id, whose user, as the store that authenticateSession
  -- leaves knows that user, may write it by the access rules.
  pub add_permission_gate :
      (response : Response)
      → (add_permission server session request s).0 ≡ ok response
      → (rid : Text) × ((get_required server request resource_id s).0 ≡ ok rid)
        × Passed server session request write_mask rid s
            (after_authentication server session request s)
  unfolding add_permission
  add_permission_gate response h = change_permission_gate add_access response h

  -- Where the server authorizes, remPermission returns a result only if the request names a
  -- resource and presents a session with a valid id, whose user, as the store that authenticateSession
  -- leaves knows that user, may write it by the access rules.
  pub rem_permission_gate :
      (response : Response)
      → (rem_permission server session request s).0 ≡ ok response
      → (rid : Text) × ((get_required server request resource_id s).0 ≡ ok rid)
        × Passed server session request write_mask rid s
            (after_authentication server session request s)
  unfolding rem_permission get_required
  rem_permission_gate response h =
      let (token, known, h1) =
        bind-ok (authenticate_session server session request) _ s response h in
      let t = (authenticate_session server session request s).1 in
      let (pid, p_given, h2) = bind-ok (get_required server request party_id) _ t response h1 in
      let (rid, r_given, h3) = bind-ok (get_required server request resource_id) _ t response h2 in
      let (d, allowed, h4) =
        bind-ok (authorize_handler_action server (some token) write_mask rid) _ t response h3 in
      (
        rid,
        r_given,
        passed token t write_mask rid d known
            ((Reads-authenticate_session server session request).same s) allowed,
      )

  -- Where the server authorizes, deactivateRealm returns a result only if the request names a realm
  -- and presents a session with a valid id, whose user, as the store that authenticateSession leaves
  -- knows that user, may delete it by the access rules.
  pub deactivate_realm_gate :
      (response : Response)
      → (deactivate_realm server session request s).0 ≡ ok response
      → (rid : Text) × ((get_required server request realm_id s).0 ≡ ok rid)
        × Passed server session request delete_mask rid s
            (after_authentication server session request s)
  unfolding deactivate_realm get_required
  deactivate_realm_gate response h =
      let (token, known, h1) =
        bind-ok (authenticate_session server session request) _ s response h in
      let t = (authenticate_session server session request s).1 in
      let (rid, r_given, h2) = bind-ok (get_required server request realm_id) _ t response h1 in
      let (d, allowed, h3) =
        bind-ok (authorize_handler_action server (some token) delete_mask rid) _ t response h2 in
      (
        rid,
        r_given,
        passed token t delete_mask rid d known
            ((Reads-authenticate_session server session request).same s) allowed,
      )

  -- Where the server authorizes, remGroupUser returns a result only if the request names a group
  -- that the store that authenticateSession leaves shows, and presents a session with a valid id,
  -- whose user, as the store then knows that user, may write the realm of that group by the access
  -- rules.
  pub rem_group_user_gate :
      (response : Response)
      → (rem_group_user server session request s).0 ≡ ok response
      → let t = after_authentication server session request s in
        (id : Text) × (g : Group) × ((get_required server request group_id s).0 ≡ ok id)
        × ((get_group id t).0 ≡ ok g)
        × Passed server session request write_mask g.realm_id s (get_group id t).1
  unfolding rem_group_user get_required
  rem_group_user_gate response h =
      let (token, known, h1) =
        bind-ok (authenticate_session server session request) _ s response h in
      let t = (authenticate_session server session request s).1 in
      let same = (Reads-authenticate_session server session request).same s in
      let (id, id_given, h2) = bind-ok (get_required server request group_id) _ t response h1 in
      let (uid, u_given, h3) = bind-ok (get_required server request user_obj_id) _ t response h2 in
      let (g, found, h4) = bind-ok (get_group id) _ t response h3 in
      let (d, allowed, h5) =
        bind-ok (authorize_handler_action server (some token) write_mask g.realm_id) _ _ response
          h4 in
      (
        id,
        g,
        id_given,
        found,
        passed token _ write_mask g.realm_id d known
            (SameObjects-trans s t _ same ((Reads-get_group id).same t)) allowed,
      )

  -- Where the server authorizes, disableUser returns a result only if the request names a user that
  -- the store that authenticateSession leaves shows, and presents a session with a valid id, whose
  -- user, as the store then knows that user, may write the realm of the named user by the access
  -- rules.
  pub disable_user_gate :
      (response : Response)
      → (disable_user server session request s).0 ≡ ok response
      → let t = after_authentication server session request s in
        (id : Text) × (x : User) × ((get_required server request user_obj_id s).0 ≡ ok id)
        × ((get_user id t).0 ≡ ok x)
        × Passed server session request write_mask x.realm_id s (get_user id t).1
  unfolding disable_user get_required
  disable_user_gate response h =
      let (token, known, h1) =
        bind-ok (authenticate_session server session request) _ s response h in
      let t = (authenticate_session server session request s).1 in
      let same = (Reads-authenticate_session server session request).same s in
      let (id, id_given, h2) = bind-ok (get_required server request user_obj_id) _ t response h1 in
      let (x, found, h3) = bind-ok (get_user id) _ t response h2 in
      let (d, allowed, h4) =
        bind-ok (authorize_handler_action server (some token) write_mask x.realm_id) _ _ response
          h3 in
      (
        id,
        x,
        id_given,
        found,
        passed token _ write_mask x.realm_id d known
            (SameObjects-trans s t _ same ((Reads-get_user id).same t)) allowed,
      )
