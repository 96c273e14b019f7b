-- ===== src/Store/Places.antt =====
-- Where an object lies: its id leads to its own struct, directly or through the request's cache.
use safe_harbor_server.Base.{◌+◌, some, ◌≡◌, ◌≢◌, refl, ◌∙◌, ◌==◌, if◌then◌else◌, arith}
use safe_harbor_server.Store.Objects.{Text, Ptr, Obj}
use safe_harbor_server.Store.Monad.{Store, ok, mutate}
use safe_harbor_server.Store.Client.{get_persistent_object, update_object, new_object, decimal}
use safe_harbor_server.Store.View.{fetch}

-- The pointer that the maps hold for an id.
unfoldable pub pointer : Store → Text → Ptr
pointer s id = if s.objects_cache id == 0 then s.all_objects id else s.objects_cache id

pub record IsAt (s : Store) (id : Text) (o : Obj) : Type 0 where
  pub is_set : id ≢ 0
  pub points : pointer s id ≡ id
  pub there : s.heap id ≡ some o

pub fetch_at : (s : Store) (id : Text) (o : Obj) → IsAt s id o → fetch s id ≡ ok o
unfolding fetch pointer
fetch_at s id o h = ground arith

-- Two stores that differ in what the request has cached, and in nothing else that matters.
pub record Quiet (s t : Store) : Type 0 where
  pub heap : t.heap ≡ s.heap
  pub unique_id : t.unique_id ≡ s.unique_id
  pub pointers : (id : Text) → pointer t id ≡ pointer s id

pub Quiet-refl : (s : Store) → Quiet s s
Quiet-refl s = record { heap = refl; unique_id = refl; pointers = λ id. refl }

pub Quiet-trans : (s t u : Store) → Quiet s t → Quiet t u → Quiet s u
Quiet-trans s t u h k = record {
  heap = k.heap ∙ h.heap;
  unique_id = k.unique_id ∙ h.unique_id;
  pointers = λ id. k.pointers id ∙ h.pointers id;
}

pub IsAt-Quiet : (s t : Store) (id : Text) (o : Obj) → Quiet s t → IsAt s id o → IsAt t id o
IsAt-Quiet s t id o q h = record {
  is_set = h.is_set;
  points = q.pointers id ∙ h.points;
  there = rw q.heap h.there;
}

pub get_persistent_object-Quiet : (id : Text) (s : Store) → Quiet s (get_persistent_object id s).1
unfolding get_persistent_object pointer
get_persistent_object-Quiet id s = record {
  heap = ground arith;
  unique_id = ground arith;
  pointers = λ j. ground arith;
}

pub get_persistent_object_at :
    (s : Store) (id : Text) (o : Obj) → IsAt s id o → (get_persistent_object id s).0 ≡ ok id
unfolding get_persistent_object pointer
get_persistent_object_at s id o h = ground arith

-- A write through a pointer, written back, is found there afterwards, and nothing else moves.
pub write-IsAt :
    (s : Store) (id : Text) (o : Obj) (f : Obj → Obj)
    → IsAt s id o
    → let (r, t) = mutate id f s in
      let (q, u) = update_object id t in
      (r ≡ ok tt)
      × (q ≡ ok tt)
      × IsAt u id (f o)
      × (u.unique_id ≡ s.unique_id)
      × ((j : Text) (x : Obj) → j ≢ id → IsAt s j x → IsAt u j x)
unfolding update_object pointer
write-IsAt s id o f h = (
  ground arith,
  ground arith,
  record { is_set = h.is_set; points = ground arith; there = ground arith },
  ground arith,
  λ j x other at_j. record { is_set = at_j.is_set; points = ground arith; there = ground arith },
)

-- A new object, written back, lies under a fresh id, and nothing else moves.
pub new-IsAt :
    (s : Store) (build : Text → Obj)
    → let (r, t) = new_object build s in
      let (q, u) = update_object (decimal (s.unique_id + 1)) t in
      (r ≡ ok (decimal (s.unique_id + 1)))
      × (q ≡ ok tt)
      × IsAt u (decimal (s.unique_id + 1)) (build (decimal (s.unique_id + 1)))
      × ((j : Text) (x : Obj) → j ≢ decimal (s.unique_id + 1) → IsAt s j x → IsAt u j x)
unfolding new_object update_object pointer
new-IsAt s build = (
  ground arith,
  ground arith,
  record { is_set = omega arith; points = ground arith; there = ground arith },
  λ j x other at_j. record { is_set = at_j.is_set; points = ground arith; there = ground arith },
)
