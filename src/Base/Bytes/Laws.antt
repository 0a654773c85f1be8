-- ===== src/Base/Bytes/Laws.antt =====
-- Laws of the text functions.
use Prim.Native.Nat.{ℕ}
use mathlib.Core.Bool.{Bool, true, not, ◌&&◌}
use mathlib.Core.List.{List, [], ◌∷◌, ◌++◌}
use mathlib.Core.Logic.{◌≢◌, ◌↔◌, inl, inr}
use mathlib.Core.Option.{some}
use mathlib.Core.Path.{◌≡◌, refl, ap}
use native.Mathlib.Omega.{arith}
use backup_server.Base.Tests.{◌==◌, Bool-cases, Option-cases, ==_refl, ==_iff}
use backup_server.Base.Lists.{All}
use backup_server.Base.Bytes.{
  Bytes, bytes_eq, strip_prefix, has_prefix, trim_prefix, cut, split, join, extend,
}

pub bytes_eq→eq : (s t : Bytes) → bytes_eq s t ≡ true → s ≡ t
bytes_eq→eq [] [] h = refl
bytes_eq→eq [] (y ∷ t) h = cc
bytes_eq→eq (x ∷ s) [] h = cc
bytes_eq→eq (x ∷ s) (y ∷ t) h = ground (arith, bytes_eq→eq s t)

pub bytes_eq_refl : (s : Bytes) → bytes_eq s s ≡ true
bytes_eq_refl [] = refl
bytes_eq_refl (x ∷ s) = ground (arith, bytes_eq_refl s)

pub bytes_eq_iff : (s t : Bytes) → (bytes_eq s t ≡ true) ↔ (s ≡ t)
bytes_eq_iff s t = (bytes_eq→eq s t, λ e. rw e (bytes_eq_refl t))

pub strip_prefix-append : (p s : Bytes) → strip_prefix p (p ++ s) ≡ some s
unfolding strip_prefix
strip_prefix-append [] s = refl
strip_prefix-append (x ∷ p) s = rw ==_refl (strip_prefix-append p s)

pub strip_prefix_sound : (p s r : Bytes) → strip_prefix p s ≡ some r → s ≡ p ++ r
unfolding strip_prefix
strip_prefix_sound [] s r h = cc
strip_prefix_sound (x ∷ p) [] r h = cc
strip_prefix_sound (x ∷ p) (y ∷ s) r h = ground (arith, strip_prefix_sound p s r)

pub trim_prefix-append : (p s : Bytes) → trim_prefix (p ++ s) p ≡ s
unfolding trim_prefix
trim_prefix-append p s = rw (strip_prefix-append, trim_prefix)

pub has_prefix-append : (p s : Bytes) → has_prefix (p ++ s) p ≡ true
unfolding has_prefix
has_prefix-append p s = rw strip_prefix-append

pub has_prefix_sound : (s p : Bytes) → has_prefix s p ≡ true → s ≡ p ++ trim_prefix s p
unfolding has_prefix trim_prefix
has_prefix_sound s p h = elim (Option-cases (strip_prefix p s)) [
  | inl e ↦ cc
  | inr found ↦ rw (found.1, trim_prefix) (strip_prefix_sound p s found.0 found.1)
]

-- The text is what stands before, the separator, and what stands behind.
pub cut_sound : (s sep a b : Bytes) → cut s sep ≡ some (a, b) → s ≡ a ++ sep ++ b
unfolding cut
cut_sound [] sep a b h = ground (arith, strip_prefix_sound sep [] b)
cut_sound (c ∷ s) sep [] b h = ground (arith, strip_prefix_sound sep (c ∷ s) b)
cut_sound (c ∷ s) sep (d ∷ a) b h =
    ground (arith, strip_prefix_sound sep (c ∷ s) b, cut_sound s sep a b)

pub split-ne-nil : (s : Bytes) (sep : ℕ) → split s sep ≢ []
unfolding split
split-ne-nil [] sep h = cc
split-ne-nil (c ∷ s) sep h = ground (arith)

join-extend : (c : ℕ) (ps : List Bytes) (sep : ℕ) → join (extend c ps) sep ≡ c ∷ join ps sep
unfolding join
join-extend c [] sep = refl
join-extend c (p ∷ []) sep = refl
join-extend c (p ∷ q ∷ ps) sep = refl

join-nil_cons : (ps : List Bytes) (sep : ℕ) → ps ≢ [] → join ([] ∷ ps) sep ≡ sep ∷ join ps sep
unfolding join
join-nil_cons [] sep h = absurd (h refl)
join-nil_cons (p ∷ ps) sep h = refl

-- Joining the parts gives the text back.
pub join-split : (s : Bytes) (sep : ℕ) → join (split s sep) sep ≡ s
unfolding split
join-split [] sep = unfold join in refl
join-split (c ∷ s) sep = elim (Bool-cases (c == sep)) [
  | inl e ↦
      rw e
        (rw (join-nil_cons (split s sep) sep (split-ne-nil s sep), join-split s sep) (ground arith))
  | inr n ↦ rw n (rw (join-extend, join-split s sep) refl)
]

-- Parts that hold no separator.
abbrev pub Lacks : ℕ → Bytes → Type 0
Lacks sep = All (λ c. c ≢ sep)

pub split_lacking : (s : Bytes) (sep : ℕ) → Lacks sep s → split s sep ≡ s ∷ []
unfolding split
split_lacking [] sep h = refl
split_lacking (c ∷ s) sep h = ground (arith, split_lacking s sep h.1)

pub split-append :
    (p s : Bytes) (sep : ℕ) → Lacks sep p → split (p ++ sep ∷ s) sep ≡ p ∷ split s sep
unfolding split
split-append [] s sep h = rw ==_refl refl
split-append (c ∷ p) s sep h = ground (arith, split-append p s sep h.1)

-- Splitting what was joined from parts that hold no separator gives the parts back.
pub split-join :
    (p : Bytes) (ps : List Bytes) (sep : ℕ)
    → All (Lacks sep) (p ∷ ps)
    → split (join (p ∷ ps) sep) sep ≡ p ∷ ps
unfolding join
split-join p [] sep h = split_lacking p sep h.0
split-join p (q ∷ ps) sep h =
    rw (split-append p (join (q ∷ ps) sep) sep h.0) (ap (λ t. p ∷ t) (split-join q ps sep h.1))

pub split-join_some :
    (ps : List Bytes) (sep : ℕ) → ps ≢ [] → All (Lacks sep) ps → split (join ps sep) sep ≡ ps
split-join_some [] sep h l = absurd (h refl)
split-join_some (p ∷ ps) sep h l = split-join p ps sep l

pub split_some : (s : Bytes) (sep : ℕ) → split s sep ≢ []
split_some = split-ne-nil

-- For a text that is written out, `refl` shows what it lacks.
abbrev pub lacks : ℕ → Bytes → Bool
lacks sep [] = true
lacks sep (c ∷ s) = not (c == sep) && lacks sep s

pub lacks-Lacks : (s : Bytes) (sep : ℕ) → lacks sep s ≡ true → Lacks sep s
lacks-Lacks [] sep h = tt
lacks-Lacks (c ∷ s) sep h = (ground arith, lacks-Lacks s sep (ground arith))

-- Cutting at a separator of one byte that does not stand before it.
pub cut-append : (a b : Bytes) (sep : ℕ) → Lacks sep a → cut (a ++ sep ∷ b) (sep ∷ []) ≡ some (a, b)
unfolding cut strip_prefix
cut-append [] b sep h = ground (arith, ==_refl sep)
cut-append (c ∷ a) b sep h = ground (arith, cut-append a b sep h.1, ==_iff sep c)

extend-snoc : (c : ℕ) (l : List Bytes) → l ≢ [] → extend c (l ++ [] ∷ []) ≡ extend c l ++ [] ∷ []
extend-snoc c [] h = absurd (h refl)
extend-snoc c (x ∷ l) h = refl

-- A separator at the end adds an empty part.
pub split-snoc : (s : Bytes) (sep : ℕ) → split (s ++ sep ∷ []) sep ≡ split s sep ++ [] ∷ []
unfolding split
split-snoc [] sep = rw ==_refl refl
split-snoc (c ∷ s) sep = elim (Bool-cases (c == sep)) [
  | inl y ↦ rw (y, split-snoc s sep) refl
  | inr n ↦ rw (n, split-snoc s sep) (extend-snoc c (split s sep) (split_some s sep))
]
