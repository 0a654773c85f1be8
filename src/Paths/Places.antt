-- ===== src/Paths/Places.antt =====
-- Which directory a path leads to, and what is left of it there.
use backup_server.Base.{
  ◌≡◌, ◌≢◌, ◌∙◌, ◌⊎◌, inl, inr, refl, sym, ap, subst, true, false, [], ◌∷◌, ◌++◌, append-nil,
  append_assoc, ◌==◌, Bool-cases,
}
use backup_server.Base.Bytes.{Bytes, codes, has_prefix, trim_prefix}
use backup_server.Base.Bytes.Laws.{has_prefix-append, has_prefix_sound, trim_prefix-append}
use backup_server.Paths.{
  Roots, with_slash, external_prefix, cache_prefix, trim_path_prefix, real_path, path_join,
}

-- A text is left as it is, or a slash is put behind it.
abbrev pub Slashed : Bytes → Bytes → Type 0
Slashed s t = (t ≡ s) ⊎ (t ≡ s ++ codes "/")

Slashed-cons : (c : _) (s t : Bytes) → Slashed s t → Slashed (c ∷ s) (c ∷ t)
Slashed-cons c s t (inl e) = inl (ap (λ u. c ∷ u) e)
Slashed-cons c s t (inr e) = inr (ap (λ u. c ∷ u) e)

with_slash-Slashed : (s : Bytes) → Slashed s (with_slash s)
with_slash-Slashed [] = inr refl
with_slash-Slashed (c ∷ []) = elim (Bool-cases (c == b'/')) [
  | inl y ↦ inl (rw y refl)
  | inr n ↦ inr (rw n refl)
]
with_slash-Slashed (c ∷ d ∷ s) =
    Slashed-cons c (d ∷ s) (with_slash (d ∷ s)) (with_slash-Slashed (d ∷ s))

with_slash-append :
    (a : Bytes) (c : _) (s : Bytes) → with_slash (a ++ c ∷ s) ≡ a ++ with_slash (c ∷ s)
with_slash-append [] c s = refl
with_slash-append (x ∷ []) c s = refl
with_slash-append (x ∷ y ∷ a) c s = ap (λ t. x ∷ t) (with_slash-append (y ∷ a) c s)

-- What is left behind a directory.
abbrev left : Bytes → Bytes
left [] = []
left (c ∷ s) = with_slash (c ∷ s)

left-Slashed : (s : Bytes) → Slashed s (left s)
left-Slashed [] = inl refl
left-Slashed (c ∷ s) = with_slash-Slashed (c ∷ s)

with_slash-below : (d s : Bytes) → with_slash (d ++ b'/' ∷ s) ≡ (d ++ codes "/") ++ left s
with_slash-below d [] = with_slash-append d b'/' [] ∙ sym (append-nil (d ++ codes "/"))
with_slash-below d (c ∷ s) =
    with_slash-append d b'/' (c ∷ s) ∙ sym (append_assoc d (codes "/") (with_slash (c ∷ s)))

-- The path, with a slash behind it, does not go on from a directory.
abbrev pub NotUnder : Bytes → Bytes → Type 0
NotUnder p d = (t : Bytes) → p ++ codes "/" ≢ d ++ b'/' ∷ t

Slashed-prefix :
    (p q x t : Bytes) → Slashed p q → q ≡ x ++ t → (u : Bytes) × (p ++ codes "/" ≡ x ++ u)
Slashed-prefix p q x t (inl e) h =
    (t ++ codes "/", ap (λ s. s ++ codes "/") (sym e ∙ h) ∙ append_assoc x t (codes "/"))
Slashed-prefix p q x t (inr e) h = (t, sym e ∙ h)

NotUnder-has_prefix :
    (p d : Bytes) → NotUnder p d → has_prefix (with_slash p) (d ++ codes "/") ≡ false
NotUnder-has_prefix p d h = elim (Bool-cases (has_prefix (with_slash p) (d ++ codes "/"))) [
  | inr n ↦ n
  | inl y ↦
      (let found = has_prefix_sound (with_slash p) (d ++ codes "/") y in
        let (u, same) =
          Slashed-prefix p (with_slash p) (d ++ codes "/") _ (with_slash-Slashed p) found in
        absurd (h u (same ∙ append_assoc d (codes "/") u)))
]

-- The directory that a path leads to, and what is left of the path there.
pub data Leads (r : Roots) (p root s : Bytes) : Type 0 where
  shared :
      p ≡ codes "/Files/External/" ++ (r.node ++ b'/' ∷ s)
      → root ≡ codes "/shares"
      → Leads r p root s
  cached : p ≡ codes "/Cache/" ++ (r.node ++ b'/' ∷ s) → root ≡ r.appcache → Leads r p root s
  owned :
      NotUnder p (codes "/Files/External/" ++ r.node)
      → p ≡ codes "/Files/" ++ s
      → root ≡ r.userspace
      → Leads r p root s
  elsewhere :
      NotUnder p (codes "/Files/External/" ++ r.node)
      → NotUnder p (codes "/Cache/" ++ r.node)
      → NotUnder p (codes "/Files")
      → p ≡ s
      → root ≡ r.userspace
      → Leads r p root s

has-below : (q x t : Bytes) → q ≡ x ++ t → has_prefix q x ≡ true
has-below q x t e = ap (λ s. has_prefix s x) e ∙ has_prefix-append x t

trim-below : (q x t : Bytes) → q ≡ x ++ t → trim_prefix q x ≡ t
trim-below q x t e = ap (λ s. trim_prefix s x) e ∙ trim_prefix-append x t

slashed_below : (p d s : Bytes) → p ≡ d ++ b'/' ∷ s → with_slash p ≡ (d ++ codes "/") ++ left s
slashed_below p d s e = ap with_slash e ∙ with_slash-below d s

no_external : (node t : Bytes) → has_prefix (codes "/Cache/" ++ t) (external_prefix node) ≡ false
unfolding has_prefix
no_external node t = refl

no_cache : (node t : Bytes) → has_prefix (codes "/Files/" ++ t) (cache_prefix node) ≡ false
unfolding has_prefix
no_cache node t = refl

-- The file system's path is that of what is left, perhaps with a slash behind it.
pub real_path-Leads :
    (r : Roots) (p root s : Bytes)
    → Leads r p root s
    → (rest : Bytes) × Slashed s rest × (real_path r p ≡ path_join root rest)
unfolding real_path
real_path-Leads r p root s (shared e k) =
    let w = slashed_below p (codes "/Files/External/" ++ r.node) s e in
    let yes = has-below (with_slash p) (external_prefix r.node) (left s) w in
    let trimmed = trim-below (with_slash p) (external_prefix r.node) (left s) w in
    (left s, left-Slashed s, rw (real_path, trim_path_prefix, yes, trimmed, k) refl)
real_path-Leads r p root s (cached e k) =
    let w = slashed_below p (codes "/Cache/" ++ r.node) s e in
    let no : has_prefix (with_slash p) (external_prefix r.node) ≡ false =
      ap (λ q. has_prefix q (external_prefix r.node)) w ∙ no_external r.node _ in
    let yes = has-below (with_slash p) (cache_prefix r.node) (left s) w in
    let trimmed = trim-below (with_slash p) (cache_prefix r.node) (left s) w in
    (left s, left-Slashed s, rw (real_path, trim_path_prefix, no, yes, trimmed, k) refl)
real_path-Leads r p root s (owned n e k) =
    let w = slashed_below p (codes "/Files") s e in
    let no = NotUnder-has_prefix p (codes "/Files/External/" ++ r.node) n in
    let not_cache : has_prefix (with_slash p) (cache_prefix r.node) ≡ false =
      ap (λ q. has_prefix q (cache_prefix r.node)) w ∙ no_cache r.node _ in
    let yes = has-below (with_slash p) (codes "/Files/") (left s) w in
    let trimmed = trim-below (with_slash p) (codes "/Files/") (left s) w in
    (left s, left-Slashed s, rw (real_path, trim_path_prefix, no, not_cache, yes, trimmed, k) refl)
real_path-Leads r p root s (elsewhere n c f e k) =
    let no = NotUnder-has_prefix p (codes "/Files/External/" ++ r.node) n in
    let not_cache = NotUnder-has_prefix p (codes "/Cache/" ++ r.node) c in
    let not_files = NotUnder-has_prefix p (codes "/Files") f in
    (
      with_slash p,
      subst (λ x. Slashed x (with_slash p)) e (with_slash-Slashed p),
      rw (real_path, trim_path_prefix, no, not_cache, not_files, k) refl,
    )
