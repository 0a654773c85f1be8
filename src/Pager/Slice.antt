-- ===== src/Pager/Slice.antt =====
-- One page: which items it has, which number, and when making it panics.
use backup_server.Base.{
  ℕ, zero, suc, ◌+◌, ◌-◌, ◌/◌, ◌^◌, ◌<◌, ◌≤◌, ◌≡◌, ◌≢◌, ◌↔◌, refl, ap, false, none, some, List, [],
  ◌∷◌, length, take, drop, get_elem?, ltb, leb, if◌then◌else◌, arith, lt→ltb, leb→le, Bool-cases,
  inl, inr, length-drop, ◌==◌, sym, tests, drop_all, take_all, take-nil,
}
use backup_server.Base.Int.{pos, negsuc}
use backup_server.Pager.{
  add_64, div_64, page_limit, page_offset, copy, cons_some, page_items, total_pages, one_if_zero,
  generic_pager,
}

module _ {ℓ} {A : Type ℓ} where
  copy-cons : (n i : ℕ) (x : A) (items : List A) → copy n (suc i) (x ∷ items) ≡ copy n i items
  unfolding copy
  copy-cons zero i x items = refl
  copy-cons (suc n) i x items =
      ap (λ c. elim (get_elem? items i) [ none ↦ none | some y ↦ cons_some y c ])
        (copy-cons n (suc i) x items)

  copy_first :
      (n : ℕ) (x : A) (items : List A)
      → copy (suc n) zero (x ∷ items) ≡ cons_some x (copy n zero items)
  unfolding copy
  copy_first n x items = rw copy-cons

  -- The copying loop takes a segment of the list.
  pub copy-eq-take-drop :
      (n i : ℕ) (items : List A)
      → n + i ≤ length items
      → copy n i items ≡ some (take n (drop i items))
  copy-eq-take-drop zero i items h = unfold copy in refl
  copy-eq-take-drop (suc n) i [] h = absurd (omega arith)
  copy-eq-take-drop (suc n) zero (x ∷ items) h =
      rw (copy_first n x items, copy-eq-take-drop n zero items (omega arith))
  copy-eq-take-drop (suc n) (suc i) (x ∷ items) h =
      rw copy-cons (copy-eq-take-drop (suc n) i items (omega arith))

  -- A page up to the end of the list is what is left of it.
  cut_page :
      (l o : ℕ) (items : List A)
      → o ≤ length items
      → copy ((if ltb (length items) (o + l) then length items else o + l) - o) o items
        ≡ some (take l (drop o items))
  cut_page l o items within = elim (Bool-cases (ltb (length items) (o + l))) [
    | inl short ↦
        rw
          (
            short,
            copy-eq-take-drop (length items - o) o items (omega arith),
            take_all (length items - o) (drop o items) (omega (arith, length-drop o items)),
          )
          (ap some (sym (take_all l (drop o items) (omega (tests, length-drop o items)))))
    | inr long ↦
        let same : o + l - o ≡ l = omega arith in
        let fits : l + o ≤ length items = ground arith in
        rw (long, same) (copy-eq-take-drop l o items fits)
  ]

pub add_64_small : (a b : ℕ) → a + b < 2 ^ 63 → add_64 a b ≡ pos (a + b)
unfolding add_64
add_64_small a b h = rw (lt→ltb (a + b) (2 ^ 63) h)

pub add_64_wraps : (a b : ℕ) → 2 ^ 63 ≤ a + b → add_64 a b ≡ negsuc (2 ^ 64 - (a + b) - 1)
unfolding add_64
add_64_wraps a b h = ground arith

quotient_pos : (t l : ℕ) → 0 < t → 0 < (t + l) / suc l
quotient_pos t l h = grind arith

quotient_le : (o l : ℕ) → o / suc l ≤ o
quotient_le o l = grind arith

quotient_zero : (l : ℕ) → (0 + l) / suc l ≡ 0
quotient_zero l = grind arith

one_if_zero_pos : (q : ℕ) → 0 < q → one_if_zero (pos q) ≡ pos q
one_if_zero_pos zero h = absurd (omega arith)
one_if_zero_pos (suc q) h = refl

pub total_pages_lem :
    (t l : ℕ)
    → t + suc l < 2 ^ 63
    → total_pages t (suc l) ≡ pos (if t == 0 then 1 else (t + l) / suc l)
unfolding total_pages div_64
total_pages_lem zero l h =
    let less : suc l - 1 ≡ l = omega arith in
    rw (less, add_64_small 0 l (omega arith), quotient_zero)
total_pages_lem (suc t) l h =
    let less : suc l - 1 ≡ l = omega arith in
    let positive : (suc t == 0) ≡ false = ground arith in
    rw (less, add_64_small (suc t) l (omega arith), positive)
      (one_if_zero_pos _ (quotient_pos (suc t) l (omega arith)))

module _ {ℓ} {A : Type ℓ} where
  page_items_lem :
      (l o : ℕ) (items : List A)
      → o + l < 2 ^ 63
      → page_items l o items ≡ some (take l (drop o items))
  unfolding page_items
  page_items_lem l o items h = elim (Bool-cases (leb (length items) o)) [
    | inl beyond ↦ rw (beyond, drop_all o items (leb→le _ _ beyond), take-nil)
    | inr within ↦ rw (within, add_64_small o l h) (cut_page l o items (ground arith))
  ]

  -- Making a page panics only where its end wraps.
  pub page_items-some : (l o : ℕ) (items : List A) → o + l < 2 ^ 63 → page_items l o items ≢ none
  page_items-some l o items h k = let e = page_items_lem l o items h in cc

  pub page_items-none :
      (l o : ℕ) (items : List A)
      → 2 ^ 63 ≤ o + l
      → (page_items l o items ≡ none) ↔ (o < length items)
  unfolding page_items
  page_items-none l o items h = rw (add_64_wraps o l h) (ground arith)

  -- A limit and an offset that do not overflow give the page of the list that they name, with its
  -- number and the number of pages, rounded up and at least 1.
  pub generic_pager_lem :
      (l o : ℕ) (items : List A)
      → o + suc l < 2 ^ 63
      → length items + suc l < 2 ^ 63
      → generic_pager (pos (suc l)) (pos o) items
        ≡ some (record {
          items = take (suc l) (drop o items);
          current = pos (o / suc l + 1);
          pages = pos (if length items == 0 then 1 else (length items + l) / suc l);
        })
  unfolding generic_pager page_limit page_offset
  generic_pager_lem l o items h k = rw (
    page_items_lem (suc l) o items h,
    total_pages_lem (length items) l k,
    add_64_small (o / suc l) 1 (omega (arith, quotient_le o l)),
  )
