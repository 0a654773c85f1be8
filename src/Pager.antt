-- ===== src/Pager.antt =====
-- `GenericPager` of pkg/handlers/helper.go, with its int64 arithmetic. `none` is a panic.
pub mod Slice
pub mod Cover
mod Tests
use backup_server.Base.{
  ℕ, zero, suc, ◌+◌, ◌-◌, ◌/◌, ◌^◌, Bool, Option, none, some, List, [], ◌∷◌, length, get_elem?, ltb,
  leb, if◌then◌else◌,
}
use backup_server.Base.Int.{ℤ, pos, negsuc}

-- The sum of two numbers below 2^63, as an int64.
unfoldable pub add_64 : ℕ → ℕ → ℤ
add_64 a b = if ltb (a + b) (2 ^ 63) then pos (a + b) else negsuc (2 ^ 64 - (a + b) - 1)

abbrev pub negate : ℕ → ℤ
negate zero = pos 0
negate (suc n) = negsuc n

-- Go's division, which rounds towards zero.
unfoldable pub div_64 : ℤ → ℕ → ℤ
div_64 (pos n) l = pos (n / l)
div_64 (negsuc n) l = negate (suc n / l)

-- if limit <= 0 { limit = 5 }
unfoldable pub page_limit : ℤ → ℕ
page_limit (pos zero) = 5
page_limit (pos (suc n)) = suc n
page_limit (negsuc n) = 5

-- if offset < 0 { offset = 0 }
unfoldable pub page_offset : ℤ → ℕ
page_offset (pos n) = n
page_offset (negsuc n) = 0

abbrev pub cons_some {ℓ} : {A : Type ℓ} → A → Option (List A) → Option (List A)
cons_some x none = none
cons_some x (some xs) = some (x ∷ xs)

-- The loop that copies `n` items from index `i` on. Reading behind the list panics.
unfoldable pub copy {ℓ} : {A : Type ℓ} → ℕ → ℕ → List A → Option (List A)
copy zero i items = some []
copy (suc n) i items =
    let rest = copy n (suc i) items in
    elim (get_elem? items i) [ none ↦ none | some x ↦ cons_some x rest ]

pub record Page {ℓ} (A : Type ℓ) : Type ℓ where
  pub items : List A
  pub current : ℤ
  pub pages : ℤ

-- The end index is cut to the total. A sum that wraps is negative and is not cut; the slice then
-- has more than 2^62 items, and making it panics.
unfoldable pub page_items {ℓ} : {A : Type ℓ} → ℕ → ℕ → List A → Option (List A)
page_items l o items = if leb (length items) o then some [] else elim (add_64 o l) [
  | negsuc n ↦ none
  | pos e ↦ copy ((if ltb (length items) e then length items else e) - o) o items
]

abbrev pub one_if_zero : ℤ → ℤ
one_if_zero (pos zero) = pos 1
one_if_zero n = n

unfoldable pub total_pages : ℕ → ℕ → ℤ
total_pages total l = one_if_zero (div_64 (add_64 total (l - 1)) l)

abbrev pub with_items {ℓ} : {A : Type ℓ} → ℤ → ℤ → Option (List A) → Option (Page A)
with_items current pages none = none
with_items current pages (some items) =
    some (record { items = items; current = current; pages = pages })

unfoldable pub generic_pager {ℓ} : {A : Type ℓ} → ℤ → ℤ → List A → Option (Page A)
generic_pager limit offset items =
    let l = page_limit limit in
    let o = page_offset offset in
    with_items (add_64 (o / l) 1) (total_pages (length items) l) (page_items l o items)
