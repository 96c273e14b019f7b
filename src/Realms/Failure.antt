-- ===== src/Realms/Failure.antt =====
-- InMemRealm.deleteGroup fails for a group of three users.
use safe_harbor_server.Base.{List, [], ◌∷◌, ◌≡◌, ◌≢◌, refl, ◌∙◌, arith}
use safe_harbor_server.Store.{
  Text, Store, Obj, User, Group, Realm, user, group, realm, map_realm, user_error, err, mutate,
  update_object,
}
use safe_harbor_server.Store.Places.{IsAt}
use safe_harbor_server.Store.Steps.{Runs-mutate, Runs-update}
use safe_harbor_server.Utilities.{Utilities}
use safe_harbor_server.Parties.Groups.{without_first, deref_group}
use safe_harbor_server.Realms.Remove.{index_below, shifted, remove_users, delete_group}
use safe_harbor_server.Realms.Deletion.{
  left, bind_ok, bind_err, Runs-deref_group, round_then, round_fails,
}

abbrev three : Text → Text → Text → List Text
three a b c = a ∷ b ∷ c ∷ []

module _ (utilities : Utilities) (r g a b c : Text) (base : Group) (ro : Realm) (ua uc : User)
    (ab : a ≢ b) (ac : a ≢ c) (bc : b ≢ c) (id_a : ua.id ≡ a) (id_c : uc.id ≡ c) where
  abbrev full : Group
  full = record base { user_obj_ids = three a b c }

  -- The third round reads the last user again, whom the second one has removed.
  loop_fails :
      (s : Store)
      → IsAt s g (group full)
      → IsAt s a (user ua)
      → IsAt s c (user uc)
      → (remove_users utilities 3 0 3 (three a b c) g s).0 ≡ err user_error
  unfolding index_below shifted without_first
  loop_fails s at_g at_a at_c =
      let ca : c ≢ g = (λ e. let h = at_c.there in let k = at_g.there in ground arith) in
      let (t, w, e) =
        round_then utilities g 2 0 3 (three a b c) a full ua s 0 refl at_a id_a at_g (ground arith)
          (ground arith) in
      let (t2, w2, e2) =
        round_then utilities g 1 1 2 (b ∷ c ∷ c ∷ []) c (left a full) uc t 1 refl
          (w.others c (user uc) ca at_c) id_c w.here (ground arith) (ground arith) in
      e
      ∙ e2
      ∙ round_fails utilities g 0 2 1 (b ∷ c ∷ c ∷ []) c (left c (left a full)) uc t2 refl
          (w2.others c (user uc) ca (w.others c (user uc) ca at_c)) id_c w2.here (ground arith)

  -- For a group of three different users that lies, as its realm and its first and last user do,
  -- where its id leads, deleteGroup answers with a user error.
  pub delete_group_fails :
      (s : Store)
      → IsAt s r (realm ro)
      → IsAt s g (group full)
      → IsAt s a (user ua)
      → IsAt s c (user uc)
      → (delete_group utilities r g s).0 ≡ err user_error
  unfolding delete_group
  delete_group_fails s at_r at_g at_a at_c =
      let f = λ (x : Realm). record x { group_ids = utilities.remove_from g x.group_ids } in
      let gr : g ≢ r = (λ e. let h = at_g.there in let k = at_r.there in ground arith) in
      let ar : a ≢ r = (λ e. let h = at_a.there in let k = at_r.there in ground arith) in
      let cr : c ≢ r = (λ e. let h = at_c.there in let k = at_r.there in ground arith) in
      let ro1 = map_realm f (realm ro) in
      let t = (mutate r (map_realm f) s).1 in
      let t1 = (update_object r t).1 in
      let w = Runs-mutate r (realm ro) (map_realm f) s at_r in
      let w1 = Runs-update r ro1 t w.after.here in
      let others = λ (j : Text) (o : Obj) (k : j ≢ r) (at_j : IsAt s j o).
        w1.after.others j o k (w.after.others j o k at_j) in
      let at_g1 = others g (group full) gr at_g in
      let got = Runs-deref_group g full t1 at_g1 in
      let loop = loop_fails t1 at_g1 (others a (user ua) ar at_a) (others c (user uc) cr at_c) in
      bind_ok (mutate r (map_realm f)) _ s tt w.result
      ∙ bind_ok (update_object r) _ t tt w1.result
      ∙ bind_ok (deref_group g) _ t1 full got.result
      ∙ bind_err (remove_users utilities 3 0 3 (three a b c) g) _ (deref_group g t1).1 user_error
          (rw got.after loop)
