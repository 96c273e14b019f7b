-- ===== src/Tests/Access.antt =====
-- The access decision for the group's member.
use safe_harbor_server.Base.{some, true, ◌≡◌, ◌↔◌, refl, inl}
use safe_harbor_server.Store.{ok}
use safe_harbor_server.Store.View.{fetch}
use safe_harbor_server.Auth.Masks.{find_action, write_mask}
use safe_harbor_server.Auth.Access.{user_authorized, authorized}
use safe_harbor_server.Auth.Rules.{UserMay, DocumentedMay}
use safe_harbor_server.Auth.Complete.{IsDecidable, user_authorized_iff}
use safe_harbor_server.Auth.Decision.{user_authorized_sound}
use safe_harbor_server.Auth.Unchanged.{Reads-authorized}
use safe_harbor_server.Store.Reads.{Reads}
use safe_harbor_server.Tests.Sample.{cookie, sample, alice, writers, may_write, home_resource}

sample-IsDecidable : IsDecidable (fetch sample) alice write_mask 2
unfolding fetch find_action
sample-IsDecidable = record {
  action = 2;
  resource = home_resource;
  names = refl;
  found = refl;
  parent = inl refl;
  entries = tt;
  groups = ((writers.party, refl, ((may_write, true, refl, refl), tt)), tt);
}

user_authorized_iff_example :
    (((user_authorized alice write_mask 2 sample).0 ≡ ok true)
      ↔ UserMay (fetch sample) alice write_mask 2)
    × (UserMay (fetch sample) alice write_mask 2 → DocumentedMay (fetch sample) alice write_mask 2)
user_authorized_iff_example = user_authorized_iff alice write_mask 2 sample sample-IsDecidable

may_write_sample : (user_authorized alice write_mask 2 sample).0 ≡ ok true
unfolding user_authorized
may_write_sample = refl

user_authorized_sound_example : UserMay (fetch sample) alice write_mask 2
user_authorized_sound_example = user_authorized_sound alice write_mask 2 sample may_write_sample

Reads-authorized_example : Reads (authorized (some cookie) write_mask 2)
Reads-authorized_example = Reads-authorized (some cookie) write_mask 2
