-- ===== src/Handlers/Removal.antt =====
-- The five handlers that delete a resource of a repo, or the repo, on the request of its id: what
-- they have in common is the gate that they pass before they touch an object.
use safe_harbor_server.Base.{true, Option, some, ◌≡◌, inl, inr, ◌⊎◌, refl, ◌∙◌}
use safe_harbor_server.Store.{Text, Store, Result, ok, err, panic, Action, continue, ◌>>=◌, ◌>>◌}
use safe_harbor_server.Auth.Masks.{delete_mask}
use safe_harbor_server.Auth.Sessions.{SessionToken}
use safe_harbor_server.Contents.Remove.{Removal}
use safe_harbor_server.Handlers.Request.{
  Server, Request, Field, repo_id, scan_config_id, flag_id, image_id, dockerfile_id, get_required,
  Response,
}
use safe_harbor_server.Handlers.Identity.{authenticate_session, authorize_handler_action}
use safe_harbor_server.Handlers.Contents.{
  rem_dockerfile, rem_scan_config, rem_flag, rem_docker_image, delete_requested_repo,
}
use safe_harbor_server.Store.Reads.{SameObjects, SameObjects-trans, Reads}
use safe_harbor_server.Handlers.Gate.{
  Passed, after_authentication, Reads-authenticate_session, Reads-get_required,
  Reads-authorize_handler_action,
}
use safe_harbor_server.Handlers.Guarded.{passed}

-- What a request may ask to delete by its id.
pub data Removable : Type 0 where
  a_repo a_dockerfile a_docker_image a_scan_config a_flag : Removable

-- The handler that deletes it, and the parameter that names it.
unfoldable pub handler_of :
    Removal → Removable → Server → Option SessionToken → Request → Action Response
unfolding delete_requested_repo rem_dockerfile rem_docker_image rem_scan_config rem_flag
handler_of outside a_repo = delete_requested_repo outside
handler_of outside a_dockerfile = rem_dockerfile
handler_of outside a_docker_image = rem_docker_image outside
handler_of outside a_scan_config = rem_scan_config
handler_of outside a_flag = rem_flag outside

unfoldable pub field_of : Removable → Field
field_of a_repo = repo_id
field_of a_dockerfile = dockerfile_id
field_of a_docker_image = image_id
field_of a_scan_config = scan_config_id
field_of a_flag = flag_id

-- A step that changes no object ends the work there, or the next one goes on with what it found.
continue-step :
    {A B : Type 0} (f : A → Action B) (r : Result A) (s t : Store)
    → SameObjects s t
    → SameObjects s (continue f (r, t)).1 ⊎ ((a : A) × (r ≡ ok a) × (continue f (r, t) ≡ f a t))
continue-step f (ok a) s t h = inr (a, refl, refl)
continue-step f (err e) s t h = inl h
continue-step f panic s t h = inl h

bind-step :
    {A B : Type 0} (m : Action A) (f : A → Action B) (s : Store)
    → Reads m
    → SameObjects s ((m >>= f) s).1 ⊎ ((a : A) × ((m s).0 ≡ ok a) × ((m >>= f) s ≡ f a (m s).1))
bind-step m f s h = continue-step f (m s).0 s (m s).1 (h.same s)

module _ (server : Server) (session : Option SessionToken) (request : Request) (field : Field)
    (body : Text → Action Response) where
  abbrev gated : Action Response
  gated = do
    token ← authenticate_session server session request
    id ← get_required server request field
    authorize_handler_action server (some token) delete_mask id
    body id

  gated-gate :
      (s : Store)
      → server.authorize ≡ true
      → SameObjects s (gated s).1
        ⊎ ((rid : Text) × ((get_required server request field s).0 ≡ ok rid)
            × Passed server session request delete_mask rid s
                (after_authentication server session request s))
  unfolding get_required
  gated-gate s on =
      let read = Reads-authenticate_session server session request in
      let t = (authenticate_session server session request s).1 in
      elim (bind-step (authenticate_session server session request) _ s read) [
        | inl stopped ↦ inl stopped
        | inr (token, known, e1) ↦
            elim (bind-step (get_required server request field) _ t
              (Reads-get_required server request field)) [
                | inl stopped ↦ inl (rw e1 (SameObjects-trans s t _ (read.same s) stopped))
                | inr (rid, given, e2) ↦
                    elim (bind-step (authorize_handler_action server (some token) delete_mask rid)
                      (λ _. body rid) t
                      (Reads-authorize_handler_action server (some token) delete_mask rid)) [
                        | inl stopped ↦
                            inl (rw (e1 ∙ e2) (SameObjects-trans s t _ (read.same s) stopped))
                        | inr (d, allowed, e3) ↦ inr (
                          rid,
                          given,
                          passed server session request s on token t delete_mask rid d known
                              (read.same s) allowed,
                        )
                      ]
              ]
      ]

-- Where the server authorizes, a request to delete a repo, a dockerfile, an image, a scan config or a
-- flag leaves all objects and users as they were, or it names a resource and presents a session with
-- a valid id, whose user, as the store that authenticateSession leaves knows that user, may delete it
-- by the access rules.
pub removal_gate :
    (outside : Removal) (what : Removable) (server : Server) (session : Option SessionToken)
    (request : Request) (s : Store)
    → server.authorize ≡ true
    → SameObjects s (handler_of outside what server session request s).1
      ⊎ ((rid : Text) × ((get_required server request (field_of what) s).0 ≡ ok rid)
          × Passed server session request delete_mask rid s
              (after_authentication server session request s))
unfolding handler_of field_of
removal_gate outside a_repo server session request s on =
    gated-gate server session request repo_id _ s on
removal_gate outside a_dockerfile server session request s on =
    gated-gate server session request dockerfile_id _ s on
removal_gate outside a_docker_image server session request s on =
    gated-gate server session request image_id _ s on
removal_gate outside a_scan_config server session request s on =
    gated-gate server session request scan_config_id _ s on
removal_gate outside a_flag server session request s on =
    gated-gate server session request flag_id _ s on
