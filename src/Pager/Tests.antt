-- ===== src/Pager/Tests.antt =====
-- The pager at concrete inputs.
use backup_server.Base.{
  ℕ, ◌+◌, ◌/◌, ◌≡◌, refl, some, List, [], ◌∷◌, length, arith, ◌==◌, take, drop, if◌then◌else◌,
}
use backup_server.Base.Int.{pos, negsuc}
use backup_server.Pager.{
  copy, add_64, div_64, page_items, total_pages, page_limit, page_offset, generic_pager,
}
use backup_server.Pager.Slice.{generic_pager_lem}
use backup_server.Pager.Cover.{walk, walk_all}

abbrev seven : List ℕ
seven = 1 ∷ 2 ∷ 3 ∷ 4 ∷ 5 ∷ 6 ∷ 7 ∷ []

last_page :
    generic_pager (pos 3) (pos 6) seven
    ≡ some (record { items = 7 ∷ []; current = pos 3; pages = pos 3 })
unfolding generic_pager page_items total_pages page_limit page_offset copy add_64 div_64
last_page = refl

default_limit :
    generic_pager (pos 0) (negsuc 3) seven
    ≡ some (record { items = 1 ∷ 2 ∷ 3 ∷ 4 ∷ 5 ∷ []; current = pos 1; pages = pos 2 })
unfolding generic_pager page_items total_pages page_limit page_offset copy add_64 div_64
default_limit = refl

generic_pager_lem_example :
    generic_pager (pos 3) (pos 6) seven
    ≡ some (record {
      items = take 3 (drop 6 seven);
      current = pos (6 / 3 + 1);
      pages = pos (if length seven == 0 then 1 else (length seven + 2) / 3);
    })
generic_pager_lem_example = generic_pager_lem 2 6 seven (omega arith) (omega arith)

walk_all_example : walk 3 3 0 seven ≡ seven
unfolding total_pages add_64 div_64
walk_all_example = walk_all 3 2 seven (omega arith) refl
