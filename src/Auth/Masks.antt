-- ===== src/Auth/Masks.antt =====
-- The permission masks of src/safeharbor/apitypes/APITypes.go, and the checks that
-- src/safeharbor/server/auth.go makes on a mask.
use safe_harbor_server.Base.{
  ℕ, ◌+◌, Bool, true, false, Option, none, some, List, [], ◌∷◌, ◌==◌, if◌then◌else◌,
}

-- The constants CanCreateIn, CanRead, CanWrite, CanExecute and CanDelete.
abbrev pub can_create_in : ℕ
can_create_in = 0

abbrev pub can_read : ℕ
can_read = 1

abbrev pub can_write : ℕ
can_write = 2

abbrev pub can_execute : ℕ
can_execute = 3

abbrev pub can_delete : ℕ
can_delete = 4

abbrev pub create_in_mask : List Bool
create_in_mask = true ∷ false ∷ false ∷ false ∷ false ∷ []

abbrev pub read_mask : List Bool
read_mask = false ∷ true ∷ false ∷ false ∷ false ∷ []

abbrev pub write_mask : List Bool
write_mask = false ∷ false ∷ true ∷ false ∷ false ∷ []

abbrev pub execute_mask : List Bool
execute_mask = false ∷ false ∷ false ∷ true ∷ false ∷ []

abbrev pub delete_mask : List Bool
delete_mask = false ∷ false ∷ false ∷ false ∷ true ∷ []

-- The loop of partyHasAccess over the action mask: the position of the field that is set, if there
-- is one, and no result where a second field is set. `found` is `action`, where none is -1.
unfoldable pub find_action : ℕ → Option ℕ → List Bool → Option (Option ℕ)
find_action i found [] = some found
find_action i found (false ∷ mask) = find_action (i + 1) found mask
find_action i none (true ∷ mask) = find_action (i + 1) (some i) mask
find_action i (some a) (true ∷ mask) = none

-- The loop of `authorized` over the action mask: false where a second field is set.
unfoldable pub at_most_one : ℕ → List Bool → Bool
at_most_one n_true [] = true
at_most_one n_true (false ∷ mask) = at_most_one n_true mask
at_most_one n_true (true ∷ mask) =
    let rest = at_most_one (n_true + 1) mask in if n_true == 1 then false else rest
