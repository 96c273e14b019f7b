-- ===== src/Contents/Refusal.antt =====
-- InMemRepo.deleteFlag refuses a flag in use.
use safe_harbor_server.Base.{List, ◌∷◌, ◌≡◌, refl, sym}
use mathlib.Core.Path.{subst}
use safe_harbor_server.Store.{
  Text, Store, user_error, server_error, err, Flag, ScanConfig, flag, scan_config, as_flag,
  as_scan_config, raise,
}
use safe_harbor_server.Utilities.{Utilities}
use safe_harbor_server.Store.Places.{IsAt, Quiet, Quiet-trans, IsAt-Quiet}
use safe_harbor_server.Store.Steps.{Runs-get_as}
use safe_harbor_server.Contents.Find.{deref_as, get_scan_config}
use safe_harbor_server.Contents.Remove.{Removal, refuse_if_used, delete_flag}
use safe_harbor_server.Contents.Names.{Runs-deref_as}
use safe_harbor_server.Contents.Adding.{Runs-fails, fails-first}

module _ (utilities : Utilities) (outside : Removal) where
  refused :
      (c : Text) (cs : List Text) (y : ScanConfig) (s : Store)
      → IsAt s c (scan_config y)
      → ((refuse_if_used utilities outside (c ∷ cs) s).0 ≡ err user_error)
        × Quiet s (refuse_if_used utilities outside (c ∷ cs) s).1
  unfolding refuse_if_used get_scan_config
  refused c cs y s at_c =
      Runs-fails (get_scan_config c) (λ _. raise user_error) s y user_error
        (Runs-get_as as_scan_config server_error c (scan_config y) y s at_c refl) λ t q. (refl, q)

  -- A flag that a scan config uses is not deleted: where the flag lies at f and its first scan config
  -- under its id, deleteFlag gives a user error and changes nothing but the request's cache.
  pub delete_flag-used :
      (r f c : Text) (cs : List Text) (x : Flag) (y : ScanConfig) (s : Store)
      → IsAt s f (flag x)
      → x.used_by_scan_config_ids ≡ c ∷ cs
      → IsAt s c (scan_config y)
      → ((delete_flag utilities outside r f s).0 ≡ err user_error)
        × Quiet s (delete_flag utilities outside r f s).1
  unfolding delete_flag
  delete_flag-used r f c cs x y s at_f used at_c =
      Runs-fails (deref_as as_flag f) _ s x user_error
        (Runs-deref_as as_flag f (flag x) x s at_f refl)
        λ t q.
          let stop =
            subst
              (λ ids.
                ((refuse_if_used utilities outside ids t).0 ≡ err user_error)
                × Quiet t (refuse_if_used utilities outside ids t).1)
              (sym used) (refused c cs y t (IsAt-Quiet s t c (scan_config y) q at_c)) in
          let both =
            fails-first (refuse_if_used utilities outside x.used_by_scan_config_ids) _ t user_error
              stop in
          (both.0, Quiet-trans s t _ q both.1)
