-- ===== src/Acl/Create.antt =====
-- dbCreateACLEntry links a new entry from the resource and from the party.
use safe_harbor_server.Base.{
  ◌+◌, Bool, true, false, some, List, [], ◌∷◌, ◌++◌, ◌≡◌, ◌≢◌, refl, sym, ◌==◌, if◌then◌else◌,
  arith,
}
use safe_harbor_server.Store.{
  Text, Store, Obj, Party, Resource, acl_entry, as_party, as_resource, map_party, map_resource,
  decimal, server_error, pure, guard, or_raise, ◌>>=◌, get_persistent_object, deref,
}
use safe_harbor_server.Store.Places.{IsAt, Quiet, Quiet-trans, IsAt-Quiet}
use safe_harbor_server.Store.Runs.{
  Runs, Runs-bind, Runs-pure, Runs-guard, Runs-or_raise, Runs-deref, Runs-get, Runs-write,
  Runs-make, Wrote, Made,
}
use safe_harbor_server.Acl.Entries.{
  db_create_acl_entry, new_acl_entry, add_acl_entry, add_acl_entry_for_party,
}

abbrev pub entry_for : Text → Text → List Bool → Text → Obj
entry_for r p mask id =
    acl_entry (record { id = id; resource_id = r; party_id = p; permission_mask = mask })

-- The object with one more ACL entry.
abbrev pub listed_by_resource : Text → Obj → Obj
listed_by_resource id = map_resource (λ r. record r { acl_entry_ids = r.acl_entry_ids ++ id ∷ [] })

abbrev pub listed_by_party : Text → Obj → Obj
listed_by_party id = map_party (λ p. record p { acl_entry_ids = p.acl_entry_ids ++ id ∷ [] })

-- What a new entry leaves: the entry, linked from both sides.
pub record Linked (r p n : Text) (ro po : Obj) (mask : List Bool) (t : Store) : Type 0 where
  pub entry : IsAt t n (entry_for r p mask n)
  pub resource : IsAt t r (listed_by_resource n ro)
  pub party : IsAt t p (listed_by_party n po)

module _ (r p : Text) (ro po : Obj) (res : Resource) (pty : Party) (mask : List Bool)
    (is_resource : as_resource ro ≡ some res) (is_party : as_party po ≡ some pty)
    (apart : r ≢ p) where
  -- The links, once both objects are found.
  link_both :
      (s : Store)
      → let n = decimal (s.unique_id + 1) in
        IsAt s r ro
        → IsAt s p po
        → r ≢ n
        → p ≢ n
        → Runs
            (new_acl_entry r p mask >>= λ e.
              (add_acl_entry r e >>= λ _. (add_acl_entry_for_party p e >>= λ _. pure e)))
            s
            n
            (Linked r p n ro po mask)
  unfolding new_acl_entry add_acl_entry add_acl_entry_for_party
  link_both s at_r at_p rn pn =
      let n = decimal (s.unique_id + 1) in
      Runs-bind (new_acl_entry r p mask) _ s n n (Made s n (entry_for r p mask n)) _
        (Runs-make (entry_for r p mask) s)
        λ t made.
          Runs-bind (add_acl_entry r n) _ t tt n (Wrote t r (listed_by_resource n ro)) _
            (Runs-write r ro (listed_by_resource n) t (made.others r ro rn at_r))
            λ u wrote.
              Runs-bind (add_acl_entry_for_party p n) _ u tt n (Wrote u p (listed_by_party n po)) _
                (Runs-write p po (listed_by_party n) u
                  (wrote.others p po (λ e. apart (sym e)) (made.others p po pn at_p)))
                λ v linked. Runs-pure n v _ (record {
                  entry =
                      linked.others n _ (λ e. pn (sym e))
                        (wrote.others n _ (λ e. rn (sym e)) made.here);
                  resource = linked.others r _ apart wrote.here;
                  party = linked.here;
                })

  -- The second half of dbCreateACLEntry: the party is found, and the links are made.
  find_party_and_link :
      (s t : Store)
      → let n = decimal (s.unique_id + 1) in
        IsAt s r ro
        → IsAt s p po
        → r ≢ n
        → p ≢ n
        → Quiet s t
        → Runs
            (get_persistent_object p >>= λ pp.
              (deref pp >>= λ o.
              (or_raise (as_party o) server_error >>= λ _.
              (new_acl_entry r p mask >>= λ e.
              (add_acl_entry r e >>= λ _. (add_acl_entry_for_party pp e >>= λ _. pure e))))))
            t
            n
            (Linked r p n ro po mask)
  find_party_and_link s t at_r at_p rn pn q =
      let n = decimal (s.unique_id + 1) in
      let R = Linked r p n ro po mask in
      Runs-bind (get_persistent_object p) _ t p n (Quiet t) R
        (Runs-get p po t (IsAt-Quiet s t p po q at_p))
        λ t1 q1.
          let q' = Quiet-trans s t t1 q q1 in
          Runs-bind (deref p) _ t1 po n (Quiet s) R
            (Runs-deref p po t1 _ (IsAt-Quiet s t1 p po q' at_p) q')
            λ t2 q2.
              Runs-bind (or_raise (as_party po) server_error) _ t2 pty n (Quiet s) R
                (Runs-or_raise (as_party po) pty _ t2 _ is_party q2)
                λ t3 q3.
                  let same : decimal (t3.unique_id + 1) ≡ n = ground (arith, q3.unique_id) in
                  rw same at (
                    link_both t3 (IsAt-Quiet s t3 r ro q3 at_r) (IsAt-Quiet s t3 p po q3 at_p)
                      (rw same rn) (rw same pn))

  -- Where a resource and a party lie where their ids lead, apart from each other and from the next
  -- id, dbCreateACLEntry makes an entry under the next id, and the resource and the party are as
  -- before but for listing it last.
  pub db_create_acl_entry_lem :
      (s : Store)
      → let n = decimal (s.unique_id + 1) in
        IsAt s r ro
        → IsAt s p po
        → r ≢ n
        → p ≢ n
        → Runs (db_create_acl_entry r p mask) s n (Linked r p n ro po mask)
  unfolding db_create_acl_entry
  db_create_acl_entry_lem s at_r at_p rn pn =
      let n = decimal (s.unique_id + 1) in
      let R = Linked r p n ro po mask in
      Runs-bind (guard (if r == 0 then false else true) server_error) _ s tt n (λ t. t ≡ s) R
        (Runs-guard _ _ s _ (let k = at_r.is_set in ground arith) refl)
        λ s1 e1.
          Runs-bind (guard (if p == 0 then false else true) server_error) _ s1 tt n (λ t. t ≡ s) R
            (Runs-guard _ _ s1 _ (let k = at_p.is_set in ground arith) e1)
            λ s2 e2.
              Runs-bind (get_persistent_object r) _ s2 r n (Quiet s) R
                (rw e2 (Runs-get r ro s at_r))
                λ s3 q3.
                  Runs-bind (deref r) _ s3 ro n (Quiet s) R
                    (Runs-deref r ro s3 _ (IsAt-Quiet s s3 r ro q3 at_r) q3)
                    λ s4 q4.
                      Runs-bind (or_raise (as_resource ro) server_error) _ s4 res n (Quiet s) R
                        (Runs-or_raise (as_resource ro) res _ s4 _ is_resource q4)
                        λ s5 q5. find_party_and_link s s5 at_r at_p rn pn q5
