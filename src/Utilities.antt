-- ===== src/Utilities.antt =====
-- What the package `utilities`, a submodule that is not part of the repository, provides on lists of
-- strings: a parameter of the functions that call it. These are functions of the list alone: that
-- RemoveFrom or RemoveAt might shift the array of the list that they are given is left out, and a loop
-- of the source over such a list goes here over the list as it was when the loop began.
use safe_harbor_server.Base.{ℕ, List}
use safe_harbor_server.Store.{Text}

pub record Utilities : Type 0 where
  pub remove_from : Text → List Text → List Text
  pub remove_at : ℕ → List Text → List Text
  pub add_uniquely : Text → List Text → List Text
