-- ===== src/Handlers/ReadOnly.antt =====
-- The handlers that describe something change nothing, whatever they answer.
use safe_harbor_server.Base.{
  true, false, ◌==◌, refl, Option, some, List, [], ◌∷◌, ◌++◌, get_elem?, if◌then◌else◌,
}
use safe_harbor_server.Store.{
  get_realm_obj_id_by_realm_name, Text, Realm, Flag, as_flag, ◌>>=◌, pure, Action, as_user,
  as_realm, as_repo, as_resource, as_acl_entry, user_error, server_error, get_acl_entry,
  get_resource, get_realm, get_repo,
}
use safe_harbor_server.Store.Reads.{
  Reads-guard, quiet, Reads, Reads-bind, Reads-pure, Reads-attempt, Reads-option, Reads-or_raise,
  Reads-or_crash, Reads-deref, Reads-get_as, Reads-get_user, Reads-get_group,
  Reads-db_get_user_by_user_id,
}
use safe_harbor_server.Parties.Users.{administered, get_realms_administered_by_user}
use safe_harbor_server.Auth.Masks.{read_mask}
use safe_harbor_server.Auth.Sessions.{SessionToken}
use safe_harbor_server.Contents.Find.{get_flag}
use safe_harbor_server.Handlers.Request.{
  Server, Request, Field, get_required, realm_name, realm_id, user_id, group_id, repo_id, flag_id,
  bad_request, Response, user_desc, group_desc, realm_desc, repo_desc, flag_desc, file_response,
  user_descs, group_descs, repo_descs,
}
use safe_harbor_server.Handlers.Identity.{authenticate_session, authorize_handler_action}
use safe_harbor_server.Handlers.Gate.{
  Reads-authenticate_session, Reads-get_required, Reads-authorize_handler_action,
}
use safe_harbor_server.Handlers.Queries.{
  get_realm_by_name, get_my_groups, as_user_desc, describe_each, describe_user, describe_group,
  describe_repo, get_realm_desc, get_realm_users, get_realm_groups, get_realm_repos, get_user_desc,
  get_my_desc, get_group_users, get_group_desc, get_repo_desc, get_flag_desc, get_flag_image,
}

Reads-administered : (ids found : List Text) → Reads (administered ids found)
unfolding administered get_acl_entry get_resource
Reads-administered [] found = Reads-pure found
Reads-administered (id ∷ ids) found = Reads-bind (Reads-get_as as_acl_entry server_error id) λ e.
    Reads-bind (Reads-get_as as_resource user_error e.resource_id) λ r.
      Reads-bind (Reads-deref r.id) λ o.
        Reads-option (as_realm o) (Reads-administered ids found) λ x.
          Reads-bind (Reads-or_crash (get_elem? e.permission_mask 2))
            λ w. Reads-administered ids (if w then found ++ x.id ∷ [] else found)

Reads-as_user_desc : (u : Text) → Reads (as_user_desc u)
unfolding as_user_desc get_realms_administered_by_user
Reads-as_user_desc u =
    Reads-bind
      (Reads-attempt (
        Reads-bind (Reads-get_as as_user server_error u)
          λ x. Reads-administered x.acl_entry_ids []))
      λ ids. Reads-pure (user_desc u)

Reads-describe_each :
    (describe : Text → Action Text) (ids : List Text)
    → ((id : Text) → Reads (describe id))
    → Reads (describe_each describe ids)
unfolding describe_each
Reads-describe_each describe [] h = Reads-pure []
Reads-describe_each describe (id ∷ ids) h =
    Reads-bind (h id) λ x. Reads-bind (Reads-describe_each describe ids h) λ xs. Reads-pure (x ∷ xs)

Reads-describe_user : (id : Text) → Reads (describe_user id)
unfolding describe_user
Reads-describe_user id =
    Reads-bind (Reads-get_user id) λ u. Reads-bind (Reads-as_user_desc u.id) λ d. Reads-pure u.id

Reads-describe_group : (id : Text) → Reads (describe_group id)
unfolding describe_group
Reads-describe_group id = Reads-bind (Reads-get_group id) λ g. Reads-pure g.id

Reads-describe_repo : (id : Text) → Reads (describe_repo id)
unfolding describe_repo get_repo
Reads-describe_repo id = Reads-bind (Reads-get_as as_repo user_error id) λ r. Reads-pure r.id

-- The handlers of this kind.
pub data Query : Type 0 where
  realm_itself realm_users realm_groups realm_repos user_itself myself group_users group_itself :
      Query
  repo_itself flag_itself flag_image realm_by_name my_groups : Query

unfoldable pub query_handler : Query → Server → Option SessionToken → Request → Action Response
unfolding get_realm_desc get_realm_users get_realm_groups get_realm_repos get_user_desc get_my_desc
    get_group_users get_group_desc get_repo_desc get_flag_desc get_flag_image get_realm_by_name
    get_my_groups
query_handler realm_itself = get_realm_desc
query_handler realm_users = get_realm_users
query_handler realm_groups = get_realm_groups
query_handler realm_repos = get_realm_repos
query_handler user_itself = get_user_desc
query_handler myself = get_my_desc
query_handler group_users = get_group_users
query_handler group_itself = get_group_desc
query_handler repo_itself = get_repo_desc
query_handler flag_itself = get_flag_desc
query_handler flag_image = get_flag_image
query_handler realm_by_name = get_realm_by_name
query_handler my_groups = get_my_groups

Reads-get_realm_obj_id : (name : Text) → Reads (get_realm_obj_id_by_realm_name name)
unfolding get_realm_obj_id_by_realm_name
Reads-get_realm_obj_id name = quiet λ s. refl

module _ (server : Server) (session : Option SessionToken) (request : Request) where
  -- The session and the parameter that names what is asked for, and then the rest.
  Reads-asked :
      {f : SessionToken → Text → Action Response} (field : Field)
      → ((token : SessionToken) (id : Text) → Reads (f token id))
      → Reads (
          authenticate_session server session request >>= λ token.
          get_required server request field >>= λ id. f token id)
  Reads-asked field h =
      Reads-bind (Reads-authenticate_session server session request)
        λ token. Reads-bind (Reads-get_required server request field) λ id. h token id

  may_read :
      (token : SessionToken) (id : Text)
      → Reads (authorize_handler_action server (some token) read_mask id)
  may_read token id = Reads-authorize_handler_action server (some token) read_mask id

  -- A query of a realm.
  Reads-realm :
      {f : Realm → Action Response}
      → ((r : Realm) → Reads (f r))
      → Reads (
          authenticate_session server session request >>= λ token.
          get_required server request realm_id >>= λ id.
          authorize_handler_action server (some token) read_mask id >>= λ d. get_realm id >>= f)
  unfolding get_realm
  Reads-realm h = Reads-asked realm_id λ token id.
      Reads-bind (may_read token id) λ d. Reads-bind (Reads-get_as as_realm user_error id) h

  Reads-flag :
      (f : Flag → Response)
      → Reads (
          authenticate_session server session request >>= λ token.
          get_required server request flag_id >>= λ id. get_flag id >>= λ x.
          authorize_handler_action server (some token) read_mask id >>= λ d. pure (f x))
  unfolding get_flag
  Reads-flag f = Reads-asked flag_id λ token id.
      Reads-bind (Reads-get_as as_flag server_error id)
        λ x. Reads-bind (may_read token id) λ d. Reads-pure (f x)

  -- The handlers that describe a user, oneself, a group, its users, one's groups, a realm by its id or
  -- its name, its users, groups and repos, a repo or a flag, or return the image of a flag, leave all
  -- that outlives the request as it was, whatever they answer: only the request's caches may change.
  pub query_handler-Reads : (q : Query) → Reads (query_handler q server session request)
  unfolding query_handler get_realm get_repo
  query_handler-Reads realm_itself = Reads-realm λ r. Reads-pure (realm_desc r.id)
  query_handler-Reads realm_users = Reads-realm λ r.
      Reads-bind (Reads-describe_each describe_user r.user_obj_ids Reads-describe_user)
        λ ids. Reads-pure (user_descs ids)
  query_handler-Reads realm_groups = Reads-realm λ r.
      Reads-bind (Reads-describe_each describe_group r.group_ids Reads-describe_group)
        λ ids. Reads-pure (group_descs ids)
  query_handler-Reads realm_repos = Reads-realm λ r.
      Reads-bind (Reads-describe_each describe_repo r.repo_ids Reads-describe_repo)
        λ ids. Reads-pure (repo_descs ids)
  query_handler-Reads user_itself = Reads-asked user_id λ token id.
      Reads-bind (Reads-db_get_user_by_user_id id) λ found.
        Reads-bind (Reads-or_raise found bad_request) λ u.
          Reads-bind (Reads-get_as as_realm user_error u.realm_id)
            λ r. Reads-bind (may_read token r.id) λ d. Reads-as_user_desc u.id
  query_handler-Reads myself =
      Reads-bind (Reads-authenticate_session server session request) λ token.
        Reads-bind (Reads-db_get_user_by_user_id token.authenticated_userid)
          λ found. Reads-bind (Reads-or_raise found bad_request) λ u. Reads-as_user_desc u.id
  query_handler-Reads group_users = Reads-asked group_id λ token id.
      Reads-bind (Reads-get_group id) λ g. Reads-bind (may_read token g.realm_id) λ d.
        Reads-bind (Reads-describe_each describe_user g.user_obj_ids Reads-describe_user)
          λ ids. Reads-pure (user_descs ids)
  query_handler-Reads group_itself =
      Reads-asked group_id
        λ token id. Reads-bind (Reads-get_group id) λ g. Reads-pure (group_desc g.id)
  query_handler-Reads repo_itself =
      Reads-asked repo_id
        λ token id. Reads-bind (Reads-get_as as_repo user_error id) λ r. Reads-pure (repo_desc r.id)
  query_handler-Reads flag_itself = Reads-flag λ x. flag_desc x.id
  query_handler-Reads flag_image = Reads-flag λ x. file_response x.success_image_path
  query_handler-Reads realm_by_name = Reads-asked realm_name λ token name.
      Reads-bind (Reads-get_realm_obj_id name) λ id.
        Reads-bind (Reads-guard (if id == 0 then false else true) bad_request) λ u.
          Reads-bind (may_read token id)
            λ d. Reads-bind (Reads-get_as as_realm user_error id) λ r. Reads-pure (realm_desc r.id)
  query_handler-Reads my_groups =
      Reads-bind (Reads-authenticate_session server session request) λ token.
        Reads-bind (Reads-db_get_user_by_user_id token.authenticated_userid) λ found.
          Reads-bind (Reads-or_crash found) λ u.
            Reads-bind (Reads-describe_each describe_group u.group_ids Reads-describe_group)
              λ ids. Reads-pure (group_descs ids)
