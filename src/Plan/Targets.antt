-- ===== src/Plan/Targets.antt =====
-- Which account a backup is written with.
use backup_server.Base.{
  ℕ, suc, ◌≡◌, refl, String, true, some, List, [], ◌∷◌, get_elem?, ok, Bool-cases, inl, inr,
}
use backup_server.Base.Bytes.{Bytes}
use backup_server.Plan.{Account, fits, first_fitting, named_or_fail, valid_integration_name}

given : (s n : Bytes) → named_or_fail s ≡ ok n → s ≡ n
given [] n h = cc
given (c ∷ s) n h = cc

-- What the loop finds, if it finds a name.
found_account :
    (l : List Account) (location : String) (asked n : Bytes)
    → named_or_fail (first_fitting location asked l) ≡ ok n
    → (i : ℕ) × (a : Account) × (get_elem? l i ≡ some a)
      × (a.name ≡ n)
      × (fits location asked a ≡ true)
unfolding first_fitting
found_account [] location asked n = λ h. cc
found_account (x ∷ l) location asked n = elim (Bool-cases (fits location asked x)) [
  | inl y ↦ rw y (λ h. (0, x, refl, given x.name n h, y))
  | inr m ↦ rw m (λ h.
      let (i, a, at, same, fit) = found_account l location asked n h in (suc i, a, at, same, fit))
]

-- The name that the check of an account gives is that of one of the listed accounts, which is of
-- the type of the location and has the name asked for or, for the space, contains it.
pub chosen_account :
    (accounts : List Account) (location : String) (asked n : Bytes)
    → valid_integration_name (some accounts) location asked ≡ ok n
    → (i : ℕ) × (a : Account) × (get_elem? accounts i ≡ some a)
      × (a.name ≡ n)
      × (fits location asked a ≡ true)
unfolding valid_integration_name
chosen_account accounts location asked n h = found_account accounts location asked n h
