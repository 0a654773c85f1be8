-- ===== src/Pager/Cover.antt =====
-- Walking through the pages, and the offsets and limits that make the pager panic.
use backup_server.Base.{
  ℕ, zero, suc, ◌+◌, ◌*◌, ◌/◌, ◌^◌, ◌<◌, ◌≤◌, ◌≡◌, ◌≢◌, ◌↔◌, refl, sym, Option, none, some, List,
  [], ◌++◌, length, take, drop, ltb, if◌then◌else◌, arith, ltb→lt, Bool-cases, inl, inr, ◌==◌,
  take-add, drop-add, take_all, ◌∙◌,
}
use native.Mathlib.Nat.{div-add-mod, mod-lt}
use backup_server.Base.Int.{ℤ, pos}
use backup_server.Pager.{
  page_limit, page_offset, Page, page_items, total_pages, with_items, generic_pager,
}
use backup_server.Pager.Slice.{generic_pager_lem, total_pages_lem, page_items-some, page_items-none}

pos-injective : (m n : ℕ) → pos m ≡ pos n → m ≡ n
pos-injective m n e = cc

quotient_bounds :
    (s l t : ℕ) → s ≡ t + l → (t ≤ (s / suc l) * suc l) × ((s / suc l) * suc l ≤ t + suc l)
quotient_bounds s l t h =
    (grind (arith, div-add-mod s (suc l), mod-lt), grind (arith, div-add-mod s (suc l)))

-- As many pages as the pager counts hold the list, and the last one is not empty if it is needed.
page_count :
    (t l n : ℕ)
    → n ≡ (if t == 0 then 1 else (t + l) / suc l)
    → (t ≤ n * suc l) × (n * suc l ≤ t + suc l)
page_count zero l n e = (omega arith, ground arith)
page_count (suc t) l n e =
    let m : n ≡ (suc t + l) / suc l = ground arith in
    rw m (quotient_bounds (suc t + l) l (suc t) (omega arith))

module _ {ℓ} {A : Type ℓ} where
  abbrev pub items_of : Option (Page A) → List A
  items_of none = []
  items_of (some p) = p.items

  -- The items of `n` pages in a row: each offset is the last one plus the limit.
  unfoldable pub walk : ℕ → ℕ → ℕ → List A → List A
  walk zero l o items = []
  walk (suc n) l o items = items_of (generic_pager (pos l) (pos o) items) ++ walk n l (o + l) items

  walk_lem :
      (n l o : ℕ) (items : List A)
      → o + n * suc l < 2 ^ 63
      → length items + suc l < 2 ^ 63
      → walk n (suc l) o items ≡ take (n * suc l) (drop o items)
  unfolding walk
  walk_lem zero l o items h k = let none_taken : 0 * suc l ≡ 0 = omega arith in rw none_taken
  walk_lem (suc n) l o items h k =
      let more : suc n * suc l ≡ suc l + n * suc l = grind arith in
      rw
        (
          more,
          take-add,
          generic_pager_lem l o items (omega arith) k,
          walk_lem n l (o + suc l) items (omega arith) k,
          drop-add o (suc l) items,
        )
        refl

  -- The pages that the pager counts for a positive limit, one after the other from the first, are
  -- the whole list, when the length and twice the limit together do not overflow.
  pub walk_all :
      (n l : ℕ) (items : List A)
      → length items + suc l + suc l < 2 ^ 63
      → total_pages (length items) (suc l) ≡ pos n
      → walk n (suc l) 0 items ≡ items
  walk_all n l items h e =
      let (enough, fits) =
        page_count (length items) l n
          (pos-injective _ _ (sym e ∙ total_pages_lem (length items) l (omega arith))) in
      walk_lem n l 0 items (omega (arith, fits)) (omega arith) ∙ take_all (n * suc l) items enough

  with_items-none : (c p : ℤ) (o : Option (List A)) → with_items c p o ≡ none → o ≡ none
  with_items-none c p none h = refl
  with_items-none c p (some items) h = cc

  -- For a positive limit and an offset below 2^63 the pager panics exactly when the offset lies in
  -- the list and the end of the page overflows.
  pub pager_panics :
      (l o : ℕ) (items : List A)
      → o < 2 ^ 63
      → suc l < 2 ^ 63
      → (generic_pager (pos (suc l)) (pos o) items ≡ none)
        ↔ ((o < length items) × (2 ^ 63 ≤ o + suc l))
  unfolding generic_pager page_limit page_offset
  pager_panics l o items h k = elim (Bool-cases (ltb (o + suc l) (2 ^ 63))) [
    | inl small ↦
        let made : page_items (suc l) o items ≢ none =
          page_items-some (suc l) o items (ltb→lt _ _ small) in
        (
          λ e. absurd (made (with_items-none _ _ _ e)),
          λ both. absurd (omega (arith, both.1, ltb→lt _ _ small)),
        )
    | inr wraps ↦
        let over : 2 ^ 63 ≤ o + suc l = ground arith in
        let (to, from) = page_items-none (suc l) o items over in
        (λ e. (to (with_items-none _ _ _ e), over), λ both. rw (from both.0))
  ]
