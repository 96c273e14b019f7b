-- ===== src/Parties/Joining.antt =====
-- Joining a group (InMemGroup.addUserId) is written into the group's list and the user's.
use safe_harbor_server.Base.{
  true, false, some, List, [], ◌∷◌, ◌++◌, ◌≡◌, ◌≢◌, refl, sym, ◌∙◌, if◌then◌else◌, contains,
}
use safe_harbor_server.Store.{
  Text, Store, Obj, User, Group, user, group, as_user, as_group, map_user, map_group, user_error,
  attempt, guard, or_crash, mutate, ◌>>◌, deref, get_as, get_user, get_group, update_object,
}
use safe_harbor_server.Store.Places.{IsAt, Quiet, Quiet-refl, Quiet-trans, IsAt-Quiet}
use safe_harbor_server.Store.Runs.{
  Runs, Runs-bind, Runs-pure, Runs-guard, Runs-or_crash, Runs-deref, Wrote,
}
use safe_harbor_server.Store.Steps.{Runs-get_as, Runs-attempt, Runs-mutate, Runs-update}
use safe_harbor_server.Parties.Users.{deref_user, has_group_with_id, add_group_id_deferred_update}
use safe_harbor_server.Parties.Groups.{deref_group, has_user_with_id, add_user_id}

Runs-has_user_with_id :
    (g u : Text) (x : Group) (y : User) (s : Store)
    → IsAt s g (group x)
    → IsAt s u (user y)
    → Runs (has_user_with_id g u) s (contains u x.user_obj_ids) (Quiet s)
unfolding has_user_with_id get_user deref_group
Runs-has_user_with_id g u x y s at_g at_u =
    Runs-bind (attempt (get_user u)) _ s (some y) (contains u x.user_obj_ids) (Quiet s) _
      (Runs-attempt (get_user u) s y (Quiet s)
        (Runs-get_as as_user user_error u (user y) y s at_u refl))
      λ t q.
        Runs-bind (deref_group g) _ t x (contains u x.user_obj_ids) (Quiet s) _
          (Runs-bind (deref g) (λ o. or_crash (as_group o)) t (group x) x (Quiet s) _
            (Runs-deref g (group x) t _ (IsAt-Quiet s t g (group x) q at_g) q)
            λ t1 q1. Runs-or_crash (some x) x t1 _ refl q1)
          λ t1 q1. Runs-pure (contains u x.user_obj_ids) t1 _ q1

Runs-has_group_with_id :
    (ids : List Text) (g : Text) (x : Group) (s : Store)
    → IsAt s g (group x)
    → Runs (has_group_with_id ids g) s (contains g ids) (Quiet s)
unfolding has_group_with_id get_group
Runs-has_group_with_id ids g x s at_g =
    Runs-bind (attempt (get_group g)) _ s (some x) (contains g ids) (Quiet s) _
      (Runs-attempt (get_group g) s x (Quiet s)
        (Runs-get_as as_group user_error g (group x) x s at_g refl))
      λ t q. Runs-pure (contains g ids) t _ q

abbrev joined_user : Text → User → User
joined_user g y = record y { group_ids = y.group_ids ++ g ∷ [] }

abbrev joined_group : Text → Group → Group
joined_group u x = record x { user_obj_ids = x.user_obj_ids ++ u ∷ [] }

Runs-add_group_id :
    (g u : Text) (x : Group) (y : User) (s : Store)
    → IsAt s g (group x)
    → IsAt s u (user y)
    → contains g y.group_ids ≡ false
    → Runs (add_group_id_deferred_update u g) s tt (Wrote s u (user (joined_user g y)))
unfolding add_group_id_deferred_update deref_user
Runs-add_group_id g u x y s at_g at_u absent =
    let R = Wrote s u (user (joined_user g y)) in
    Runs-bind (deref_user u) _ s y tt (Quiet s) R
      (Runs-bind (deref u) (λ o. or_crash (as_user o)) s (user y) y (Quiet s) _
        (Runs-deref u (user y) s _ at_u (Quiet-refl s)) λ t q. Runs-or_crash (some y) y t _ refl q)
      λ t q.
        Runs-bind (has_group_with_id y.group_ids g) _ t (contains g y.group_ids) tt (Quiet t) R
          (Runs-has_group_with_id y.group_ids g x t (IsAt-Quiet s t g (group x) q at_g))
          λ t1 q1.
            let q1' = Quiet-trans s t t1 q q1 in
            Runs-bind (guard (if contains g y.group_ids then false else true) user_error) _ t1 tt tt
              (Quiet s) R (Runs-guard _ _ t1 _ (rw absent refl) q1')
              λ t2 q2.
                Runs-bind (get_as as_group user_error g) _ t2 x tt (Quiet t2) R
                  (Runs-get_as as_group user_error g (group x) x t2
                    (IsAt-Quiet s t2 g (group x) q2 at_g) refl)
                  λ t3 q3.
                    let q3' = Quiet-trans s t2 t3 q2 q3 in
                    let wrote =
                      Runs-mutate u (user y) (map_user (joined_user g)) t3
                        (IsAt-Quiet s t3 u (user y) q3' at_u) in
                    record {
                      result = wrote.result;
                      after = record {
                        here = wrote.after.here;
                        unique_id = wrote.after.unique_id ∙ q3'.unique_id;
                        others = λ j o other at_j.
                            wrote.after.others j o other (IsAt-Quiet s t3 j o q3' at_j);
                      };
                    }

-- What joining leaves: both lists say so, and everything else is where it was.
pub record Joined (g u : Text) (x : Group) (y : User) (s t : Store) : Type 0 where
  pub in_group : IsAt t g (group (joined_group u x))
  pub in_user : IsAt t u (user (joined_user g y))
  pub others : (j : Text) (o : Obj) → j ≢ g → j ≢ u → IsAt s j o → IsAt t j o

module _ (g u : Text) (x : Group) (y : User) (s : Store) (at_g : IsAt s g (group x))
    (at_u : IsAt s u (user y)) (its_id : y.id ≡ u) (apart : g ≢ u)
    (no_member : contains u x.user_obj_ids ≡ false)
    (no_group : contains g y.group_ids ≡ false) where
  -- The writes, once the user is found not to be a member.
  write_both :
      (t : Store)
      → Quiet s t
      → Runs
          (mutate g (map_group (joined_group u))
            >> (add_group_id_deferred_update u g >> (update_object u >> update_object g)))
          t
          tt
          (Joined g u x y s)
  write_both t q =
      let R = Joined g u x y s in
      let G = group (joined_group u x) in
      let U = user (joined_user g y) in
      Runs-bind (mutate g (map_group (joined_group u))) _ t tt tt (Wrote t g G) R
        (Runs-mutate g (group x) (map_group (joined_group u)) t (IsAt-Quiet s t g (group x) q at_g))
        λ t1 w1.
          let at_u1 =
            w1.others u (user y) (λ e. apart (sym e)) (IsAt-Quiet s t u (user y) q at_u) in
          Runs-bind (add_group_id_deferred_update u g) _ t1 tt tt (Wrote t1 u U) R
            (Runs-add_group_id g u (joined_group u x) y t1 w1.here at_u1 no_group)
            λ t2 w2.
              let at_g2 = w2.others g G apart w1.here in
              Runs-bind (update_object u) _ t2 tt tt (Wrote t2 u U) R (Runs-update u U t2 w2.here)
                λ t3 w3.
                  let at_g3 = w3.others g G apart at_g2 in
                  let w4 = Runs-update g G t3 at_g3 in
                  record {
                    result = w4.result;
                    after = record {
                      in_group = w4.after.here;
                      in_user = w4.after.others u U (λ e. apart (sym e)) w3.here;
                      others = λ j o not_g not_u at_j. w4.after.others j o not_g (
                          w3.others j o not_u (
                            w2.others j o not_u (w1.others j o not_g (IsAt-Quiet s t j o q at_j))));
                    };
                  }

  write_named :
      (k : Text)
      → k ≡ u
      → (t : Store) → Quiet s t
      → Runs
          (mutate g (map_group (joined_group u))
            >> (add_group_id_deferred_update k g >> (update_object k >> update_object g)))
          t
          tt
          (Joined g u x y s)
  write_named k e t q = rw e (write_both t q)

  -- A user and a group that lie where their ids lead, and neither of which names the other: addUserId
  -- succeeds, each then names the other last, and every other object that lies where its id leads
  -- stays there as it was.
  pub add_user_id-Joined : Runs (add_user_id g u) s tt (Joined g u x y s)
  unfolding add_user_id get_user
  add_user_id-Joined =
      let R = Joined g u x y s in
      Runs-bind (has_user_with_id g u) _ s (contains u x.user_obj_ids) tt (Quiet s) R
        (Runs-has_user_with_id g u x y s at_g at_u)
        λ t q.
          Runs-bind (guard (if contains u x.user_obj_ids then false else true) user_error) _ t tt tt
            (Quiet s) R (Runs-guard _ _ t _ (rw no_member refl) q)
            λ t1 q1.
              Runs-bind (get_as as_user user_error u) _ t1 y tt (Quiet t1) R
                (Runs-get_as as_user user_error u (user y) y t1 (IsAt-Quiet s t1 u (user y) q1 at_u)
                  refl)
                λ t2 q2. write_named y.id its_id t2 (Quiet-trans s t1 t2 q1 q2)
