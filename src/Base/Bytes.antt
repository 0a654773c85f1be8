-- ===== src/Base/Bytes.antt =====
-- The functions of Go's `strings` package that the program calls, over bytes.
pub mod Laws
use Prim.Native.Char.{code}
use Prim.Native.Nat.{ℕ}
use Prim.Native.String.{String}
use mathlib.Core.Bool.{Bool, true, false, ◌&&◌}
use mathlib.Core.List.{List, [], ◌∷◌, ◌++◌}
use mathlib.Core.Path.{◌≡◌, refl}
use mathlib.Core.Option.{Option, none, some}
use backup_server.Base.Tests.{◌==◌, if◌then◌else◌}

abbrev pub Bytes : Type 0
Bytes = List ℕ

-- The code points of a literal: its bytes, as the program's literals are ASCII.
abbrev pub codes : String → Bytes
codes String.[] = []
codes (String.◌∷◌ c s) = code c ∷ codes s

-- s == t
abbrev pub bytes_eq : Bytes → Bytes → Bool
bytes_eq [] [] = true
bytes_eq (x ∷ xs) (y ∷ ys) = (x == y) && bytes_eq xs ys
bytes_eq _ _ = false

-- What is left of `s` behind the prefix `p`, if it has that prefix.
unfoldable pub strip_prefix : Bytes → Bytes → Option Bytes
strip_prefix [] s = some s
strip_prefix (x ∷ p) [] = none
strip_prefix (x ∷ p) (y ∷ s) = let rest = strip_prefix p s in if x == y then rest else none

abbrev pub is_some {ℓ} : {A : Type ℓ} → Option A → Bool
is_some none = false
is_some (some a) = true

-- HasPrefix(s, p)
unfoldable pub has_prefix : Bytes → Bytes → Bool
unfolding strip_prefix
has_prefix s p = is_some (strip_prefix p s)

-- TrimPrefix(s, p)
unfoldable pub trim_prefix : Bytes → Bytes → Bytes
unfolding strip_prefix
trim_prefix s p = elim (strip_prefix p s) [ none ↦ s | some rest ↦ rest ]

abbrev or_else {ℓ} : {A : Type ℓ} → Option A → Option A → Option A
or_else none b = b
or_else (some a) b = some a

abbrev push {ℓ κ} : {A : Type ℓ} {B : Type κ} → A → Option (List A × B) → Option (List A × B)
push c none = none
push c (some (a, b)) = some (c ∷ a, b)

-- The text before and the text behind the first `sep`: s[:i] and s[i + len(sep):] for
-- i = Index(s, sep), and `none` where Index is -1.
unfoldable pub cut : Bytes → Bytes → Option (Bytes × Bytes)
unfolding strip_prefix
cut [] sep = elim (strip_prefix sep []) [ none ↦ none | some rest ↦ some ([], rest) ]
cut (c ∷ s) sep =
    let later = push c (cut s sep) in
    elim (strip_prefix sep (c ∷ s)) [ none ↦ later | some rest ↦ some ([], rest) ]

-- Contains(s, sub)
unfoldable pub contains : Bytes → Bytes → Bool
unfolding cut
contains s sub = is_some (cut s sub)

abbrev extend : ℕ → List Bytes → List Bytes
extend c [] = (c ∷ []) ∷ []
extend c (p ∷ ps) = (c ∷ p) ∷ ps

-- Split(s, sep) with a separator of one byte.
unfoldable pub split : Bytes → ℕ → List Bytes
split [] sep = [] ∷ []
split (c ∷ s) sep = let rest = split s sep in if c == sep then [] ∷ rest else extend c rest

-- Join(parts, sep) with a separator of one byte.
unfoldable pub join : List Bytes → ℕ → Bytes
join [] sep = []
join (p ∷ []) sep = p
join (p ∷ q ∷ ps) sep = p ++ sep ∷ join (q ∷ ps) sep

abbrev snoc_trim : ℕ → ℕ → Bytes → Bytes
snoc_trim sep c [] = if c == sep then [] else c ∷ []
snoc_trim sep c (d ∷ s) = c ∷ d ∷ s

-- TrimRight(s, sep) with a cutset of one byte.
unfoldable pub trim_right : Bytes → ℕ → Bytes
trim_right [] sep = []
trim_right (c ∷ s) sep = snoc_trim sep c (trim_right s sep)

-- TrimLeft(s, sep) with a cutset of one byte.
unfoldable pub trim_left : Bytes → ℕ → Bytes
trim_left [] sep = []
trim_left (c ∷ s) sep = let rest = trim_left s sep in if c == sep then rest else c ∷ s

split_example : split (codes "a//b") b'/' ≡ codes "a" ∷ [] ∷ codes "b" ∷ []
unfolding split
split_example = refl

cut_example : cut (codes "x-k-y") (codes "-k-") ≡ some (codes "x", codes "y")
unfolding cut
cut_example = refl

trim_right_example : trim_right (codes "/a/b//") b'/' ≡ codes "/a/b"
unfolding trim_right
trim_right_example = refl
