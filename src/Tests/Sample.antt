-- ===== src/Tests/Sample.antt =====
-- A small store: a realm 2, a user 4 in a group 6, and an entry 8 by which the group may write and
-- delete the realm.
use safe_harbor_server.Base.{
  ℕ, true, false, Option, none, some, List, [], ◌∷◌, ◌++◌, ◌==◌, if◌then◌else◌, contains,
}
use safe_harbor_server.Store.{
  Text, Ptr, Store, User, Group, AclEntry, Resource, Realm, Obj, user, group, realm, acl_entry,
}
use safe_harbor_server.Utilities.{Utilities}
use safe_harbor_server.Auth.Sessions.{SessionToken, new_session_token}
use safe_harbor_server.Parties.Groups.{without_first}
use safe_harbor_server.Handlers.Request.{Server}

abbrev pub alice : User
alice = record {
  party = record {
    id = 4;
    is_active = true;
    name = 11;
    creation_time = 1;
    realm_id = 2;
    acl_entry_ids = [];
  };
  user_id = 13;
  default_repo_id = 0;
  email_address = 15;
  email_is_verified = false;
  password_hash = 1 ∷ [];
  group_ids = 6 ∷ [];
  most_recent_login_attempts = [];
  event_ids = [];
}

abbrev pub writers : Group
writers = record {
  party = record {
    id = 6;
    is_active = true;
    name = 17;
    creation_time = 1;
    realm_id = 2;
    acl_entry_ids = 8 ∷ [];
  };
  description = 19;
  user_obj_ids = 4 ∷ [];
}

abbrev pub home_resource : Resource
home_resource = record {
  id = 2;
  acl_entry_ids = 8 ∷ [];
  name = 21;
  description = 23;
  parent_id = 0;
  creation_time = 1;
}

abbrev pub home : Realm
home = record {
  resource = home_resource;
  admin_user_id = 13;
  org_full_name = 25;
  user_obj_ids = 4 ∷ [];
  group_ids = 6 ∷ [];
  repo_ids = [];
  file_directory = 27;
}

abbrev pub may_write : AclEntry
may_write = record {
  id = 8;
  resource_id = 2;
  party_id = 6;
  permission_mask = false ∷ false ∷ true ∷ false ∷ true ∷ [];
}

abbrev pub objects : Ptr → Option Obj
objects p =
    if p == 2
    then some (realm home)
    else if p == 4
    then some (user alice)
    else if p == 6
    then some (group writers)
    else if p == 8
    then some (acl_entry may_write)
    else none

abbrev pub itself : Text → Ptr
itself id =
    if id == 2 then 2 else if id == 4 then 4 else if id == 6 then 6 else if id == 8 then 8 else 0

abbrev pub sample : Store
sample = record {
  heap = objects;
  objects_cache = λ _. 0;
  users_cache = λ _. 0;
  realm_map_cache = [];
  all_objects = itself;
  all_user_ids = λ t. if t == 13 then 4 else 0;
  realm_map = (21, 2) ∷ [];
  email_token_map = λ _. 0;
  unique_id = 4;
  now = 5000000000;
}

-- A server of one user's session, with a stand-in for what lies outside the program.
abbrev pub without_index : ℕ → List Text → List Text
without_index n [] = []
without_index ℕ.zero (x ∷ xs) = xs
without_index (ℕ.suc n) (x ∷ xs) = x ∷ without_index n xs

abbrev pub lists : Utilities
unfolding without_first
lists = record {
  remove_from = without_first;
  remove_at = without_index;
  add_uniquely = λ k xs. if contains k xs then xs else xs ++ k ∷ [];
}

abbrev pub server : Server
server = record {
  sessions = λ _. none;
  authorize = true;
  max_login_attempts_to_retain = 5;
  compute_hash = λ _. [];
  compute_password_hash = λ _. 1 ∷ [];
  utilities = lists;
  query_unescape = λ t. some t;
  is_allowed = λ _. true;
}

-- "1:" has the hash that the stand-in computes.
abbrev pub cookie : SessionToken
cookie = new_session_token (49 ∷ 58 ∷ []) 13
