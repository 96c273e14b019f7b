-- ===== src/Parties/Logins.antt =====
-- The login attempts that a user object retains (InMemUser.addLoginAttempt).
use native.Mathlib.Nat.{le_refl}
use safe_harbor_server.Base.{
  ℕ, zero, suc, ◌+◌, ◌-◌, ◌≤◌, ◌<◌, false, List, [], ◌∷◌, ◌≡◌, refl, arith, leb, length, drop,
  length-append, length-drop,
}
use safe_harbor_server.Parties.Users.{attempts_after}

drop-all : (n : ℕ) (xs : List ℕ) → length xs ≤ n → drop n xs ≡ []
drop-all zero [] h = refl
drop-all zero (x ∷ xs) h = absurd (omega arith)
drop-all (suc n) [] h = refl
drop-all (suc n) (x ∷ xs) h = drop-all n xs (omega arith)

-- After one more attempt, max + 1 attempts are retained if there were more than max, and otherwise
-- only the new one, whatever was there.
pub length-attempts_after :
    (max now : ℕ) (attempts : List ℕ)
    → (max < length attempts → length (attempts_after max now attempts) ≡ max + 1)
      × (length attempts ≤ max → attempts_after max now attempts ≡ now ∷ [])
unfolding attempts_after
length-attempts_after max now attempts = (
  λ h. ground (
    arith,
    length-append (drop (length attempts - max) attempts) (now ∷ []),
    length-drop (length attempts - max) attempts,
  ),
  λ h. ground (arith, drop-all (length attempts) attempts (le_refl _)),
)

-- The attempts after a sequence of logins.
unfoldable pub after_logins : ℕ → List ℕ → List ℕ → List ℕ
unfolding attempts_after
after_logins max [] attempts = attempts
after_logins max (now ∷ times) attempts = after_logins max times (attempts_after max now attempts)

one_after_logins :
    (max : ℕ) (times : List ℕ) (t : ℕ) → 1 ≤ max → length (after_logins max times (t ∷ [])) ≡ 1
unfolding after_logins
one_after_logins max [] t h = refl
one_after_logins max (now ∷ times) t h =
    rw ((length-attempts_after max now (t ∷ [])).1 h) (one_after_logins max times now h)

-- From a list without attempts on, however many logins there are, the number of retained attempts
-- is below the maximum, where that is 2 or more: the condition on the number in the guard of
-- `authenticate` is false.
pub logins_never_counted :
    (max : ℕ) (times : List ℕ) → 2 ≤ max → leb max (length (after_logins max times [])) ≡ false
unfolding after_logins
logins_never_counted max [] h = ground arith
logins_never_counted max (now ∷ times) h =
    rw ((length-attempts_after max now []).1 (omega arith))
      (ground (arith, one_after_logins max times now (omega arith)))
