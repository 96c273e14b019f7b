-- ===== src/Realms/Deletion.antt =====
-- The loop of InMemRealm.deleteGroup over a group of three.
use safe_harbor_server.Base.{
  ℕ, suc, ◌+◌, ◌-◌, true, false, Option, none, some, List, ◌≡◌, refl, ◌∙◌, contains, get_elem?,
}
use safe_harbor_server.Store.{
  Text, Store, User, Group, user, group, as_user, as_group, map_group, user_error, Fault, Result,
  ok, err, Action, attempt, continue, or_crash, mutate, deref, get_user, update_object, ◌>>=◌,
}
use safe_harbor_server.Store.Places.{IsAt, Quiet, IsAt-Quiet}
use safe_harbor_server.Store.Runs.{Runs, Runs-bind, Runs-pure, Runs-deref, Runs-or_crash, Wrote}
use safe_harbor_server.Store.Steps.{Runs-get_as, Runs-attempt, Runs-mutate, Runs-update}
use safe_harbor_server.Parties.Groups.{deref_group, remove_user, without_first}
use safe_harbor_server.Utilities.{Utilities}
use safe_harbor_server.Realms.Remove.{index_below, shifted, remove_users}

pub bind_ok :
    {A B : Type 0} (m : Action A) (f : A → Action B) (s : Store) (a : A)
    → (m s).0 ≡ ok a
    → ((m >>= f) s).0 ≡ (f a (m s).1).0
bind_ok m f s a h = go (m s).0 (m s).1 h
  where
    go : (r : Result _) (t : Store) → r ≡ ok a → (continue f (r, t)).0 ≡ (f a t).0
    go r t e = rw e refl

pub bind_err :
    {A B : Type 0} (m : Action A) (f : A → Action B) (s : Store) (e : Fault)
    → (m s).0 ≡ err e
    → ((m >>= f) s).0 ≡ err e
bind_err m f s e h = go (m s).0 (m s).1 h
  where
    go : (r : Result _) (t : Store) → r ≡ err e → (continue f (r, t)).0 ≡ err e
    go r t q = rw q refl

abbrev pub left : Text → Group → Group
left u x = record x { user_obj_ids = without_first u x.user_obj_ids }

pub Runs-deref_group :
    (g : Text) (x : Group) (s : Store) → IsAt s g (group x) → Runs (deref_group g) s x (λ t. t ≡ s)
unfolding deref_group
Runs-deref_group g x s at_g =
    Runs-bind (deref g) (λ o. or_crash (as_group o)) s (group x) x (λ t. t ≡ s) _
      (Runs-deref g (group x) s _ at_g refl) λ t e. Runs-or_crash (some x) x t _ refl e

Runs-remove_user :
    (g u : Text) (x : Group) (s : Store)
    → IsAt s g (group x)
    → contains u x.user_obj_ids ≡ true
    → Runs (remove_user g u) s tt (Wrote s g (group (left u x)))
unfolding remove_user without_first
Runs-remove_user g u x s at_g member =
    let G = group (left u x) in
    Runs-bind (deref_group g) _ s x tt (λ t. t ≡ s) (Wrote s g G) (Runs-deref_group g x s at_g)
      λ t e.
        rw (e, member)
          (Runs-bind (mutate g (map_group (left u))) _ s tt tt (Wrote s g G) (Wrote s g G)
            (Runs-mutate g (group x) (map_group (left u)) s at_g)
            λ t1 w1.
              Runs-bind (attempt (update_object g)) _ t1 (some tt) tt (Wrote t1 g G) (Wrote s g G)
                (Runs-attempt (update_object g) t1 tt (Wrote t1 g G) (Runs-update g G t1 w1.here))
                λ t2 w2. Runs-pure tt t2 _ (record {
                  here = w2.here;
                  unique_id = w2.unique_id ∙ w1.unique_id;
                  others = λ j o other at_j. w2.others j o other (w1.others j o other at_j);
                }))

remove_user_fails :
    (g u : Text) (x : Group) (s : Store)
    → IsAt s g (group x)
    → contains u x.user_obj_ids ≡ false
    → (remove_user g u s).0 ≡ err user_error
unfolding remove_user
remove_user_fails g u x s at_g absent =
    let d = Runs-deref_group g x s at_g in bind_ok (deref_group g) _ s x d.result ∙ rw absent refl

module _ (utilities : Utilities) (g : Text) where
  -- The rounds that follow a removal.
  abbrev following : ℕ → ℕ → ℕ → List Text → Option ℕ → Action (Unit {0})
  following rounds i n array none = remove_users utilities rounds (i + 1) n array g
  following rounds i n array (some k) =
      remove_users utilities rounds (i + 1) (n - 1) (shifted n k array) g

  removal_then :
      (rounds i n : ℕ) (array : List Text) (u v : Text) (x : Group) (s t : Store) (k : ℕ)
      → v ≡ u
      → Quiet s t
      → IsAt s g (group x)
      → contains u x.user_obj_ids ≡ true
      → index_below n u array ≡ some k
      → (w : Store) × Wrote s g (group (left u x)) w
        × (((remove_user g v >>= λ _. following rounds i n array (index_below n v array)) t).0
            ≡ (remove_users utilities rounds (i + 1) (n - 1) (shifted n k array) g w).0)
  removal_then rounds i n array u v x s t k same q at_g member found =
      let r = Runs-remove_user g u x t (IsAt-Quiet s t g (group x) q at_g) member in
      let after = r.after in
      (
        (remove_user g u t).1,
        record {
          here = after.here;
          unique_id = after.unique_id ∙ q.unique_id;
          others = λ j o other at_j. after.others j o other (IsAt-Quiet s t j o q at_j);
        },
        rw same (
            bind_ok (remove_user g u) (λ _. following rounds i n array (index_below n u array)) t tt
              r.result
            ∙ rw found refl),
      )

  -- One round of the loop that goes well.
  pub round_then :
      (rounds i n : ℕ) (array : List Text) (u : Text) (x : Group) (y : User) (s : Store) (k : ℕ)
      → get_elem? array i ≡ some u
      → IsAt s u (user y)
      → y.id ≡ u
      → IsAt s g (group x)
      → contains u x.user_obj_ids ≡ true
      → index_below n u array ≡ some k
      → (w : Store) × Wrote s g (group (left u x)) w
        × ((remove_users utilities (suc rounds) i n array g s).0
            ≡ (remove_users utilities rounds (i + 1) (n - 1) (shifted n k array) g w).0)
  unfolding remove_users get_user
  round_then rounds i n array u x y s k read at_u its_id at_g member found =
      let got = Runs-get_as as_user user_error u (user y) y s at_u refl in
      let t = (get_user u s).1 in
      let (w, wrote, rest) =
        removal_then rounds i n array u y.id x s t k its_id got.after at_g member found in
      (w, wrote, rw read (bind_ok (get_user u) _ s y got.result ∙ rest))

  -- A round whose user is no longer in the group.
  pub round_fails :
      (rounds i n : ℕ) (array : List Text) (u : Text) (x : Group) (y : User) (s : Store)
      → get_elem? array i ≡ some u
      → IsAt s u (user y)
      → y.id ≡ u
      → IsAt s g (group x)
      → contains u x.user_obj_ids ≡ false
      → (remove_users utilities (suc rounds) i n array g s).0 ≡ err user_error
  unfolding remove_users get_user
  round_fails rounds i n array u x y s read at_u its_id at_g absent =
      let got = Runs-get_as as_user user_error u (user y) y s at_u refl in
      let t = (get_user u s).1 in
      let failed = remove_user_fails g u x t (IsAt-Quiet s t g (group x) got.after at_g) absent in
      rw read (
        bind_ok (get_user u) _ s y got.result
        ∙ bind_err (remove_user g y.id) _ t user_error (rw its_id failed))
