-- ===== src/Paths/Inside.antt =====
-- Paths without a step up stay below the directory that holds them.
use backup_server.Base.{
  ◌≡◌, All-append, ◌∙◌, refl, sym, ap, true, false, List, [], ◌∷◌, ◌++◌, if◌then◌else◌, All,
  append-nil, append_assoc, Bool-cases, inl, inr,
}
use backup_server.Base.Bytes.{Bytes, bytes_eq, split, join}
use backup_server.Base.Bytes.Laws.{Lacks, split-append, split-join, split-snoc}
use backup_server.Paths.Places.{Slashed, Leads, real_path-Leads}
use backup_server.Paths.{Roots, real_path, path_join, clean, walk, rev_onto, is_skipped, dots}

-- The elements that are no step: neither empty nor the dot.
abbrev pub plain : List Bytes → List Bytes
plain [] = []
plain (c ∷ l) = if is_skipped c then plain l else c ∷ plain l

abbrev pub NoUp : List Bytes → Type 0
NoUp = All (λ c. bytes_eq c dots ≡ false)

walk-plain : (l stack : List Bytes) → NoUp l → walk true stack l ≡ rev_onto (plain l) stack
unfolding walk
walk-plain [] stack h = refl
walk-plain (c ∷ l) stack h = elim (Bool-cases (is_skipped c)) [
  | inl y ↦ rw y (walk-plain l stack h.1)
  | inr n ↦ rw (n, h.0) (walk-plain l (c ∷ stack) h.1)
]

rev_onto-rev_onto :
    (l stack out : List Bytes) → rev_onto (rev_onto l stack) out ≡ rev_onto stack (l ++ out)
rev_onto-rev_onto [] stack out = refl
rev_onto-rev_onto (c ∷ l) stack out = rev_onto-rev_onto l (c ∷ stack) out

-- The elements of a directory: names that are no steps.
abbrev pub IsName : Bytes → Type 0
IsName c = Lacks b'/' c × (is_skipped c ≡ false) × (bytes_eq c dots ≡ false)

split_below :
    (c : Bytes) (cs : List Bytes) (s : Bytes)
    → All IsName (c ∷ cs)
    → split (join (c ∷ cs) b'/' ++ b'/' ∷ s) b'/' ≡ c ∷ cs ++ split s b'/'
unfolding join
split_below c [] s h = split-append c s b'/' h.0.0
split_below c (d ∷ cs) s h =
    rw (append_assoc, split-append c _ b'/' h.0.0) (ap (λ l. c ∷ l) (split_below d cs s h.1))

plain_below : (cs l : List Bytes) → All IsName cs → plain (cs ++ l) ≡ cs ++ plain l
plain_below [] l h = refl
plain_below (c ∷ cs) l h = rw h.0.1 (ap (λ m. c ∷ m) (plain_below cs l h.1))

NoUp-below : (cs l : List Bytes) → All IsName cs → NoUp l → NoUp (cs ++ l)
NoUp-below [] l h k = k
NoUp-below (c ∷ cs) l h k = (h.0.2, NoUp-below cs l h.1 k)

lacking : (cs : List Bytes) → All IsName cs → All (Lacks b'/') cs
lacking [] h = tt
lacking (c ∷ cs) h = (h.0.0, lacking cs h.1)

clean_parts :
    (names l : List Bytes) (s : Bytes)
    → All IsName names
    → NoUp l
    → split s b'/' ≡ names ++ l
    → clean (b'/' ∷ s) ≡ b'/' ∷ join (names ++ plain l) b'/'
unfolding clean
clean_parts names l s h k e =
    let parts : split (b'/' ∷ s) b'/' ≡ [] ∷ (names ++ l) =
      split-append [] s b'/' tt ∙ ap (λ m. [] ∷ m) e in
    let walked : walk true [] ([] ∷ (names ++ l)) ≡ rev_onto (names ++ plain l) [] =
      walk-plain ([] ∷ (names ++ l)) [] (refl, NoUp-below names l h k)
      ∙ ap (λ m. rev_onto m []) (plain_below names l h) in
    rw (parts, walked, rev_onto-rev_onto (names ++ plain l) [] [], append-nil) refl

-- The directory of these names, joined with a path.
join_below :
    (c : Bytes) (cs : List Bytes) (s : Bytes)
    → All IsName (c ∷ cs)
    → NoUp (split s b'/')
    → path_join (b'/' ∷ join (c ∷ cs) b'/') s ≡ b'/' ∷ join ((c ∷ cs) ++ plain (split s b'/')) b'/'
unfolding path_join
join_below c cs [] h k =
    unfold split in
    clean_parts (c ∷ cs) [] (join (c ∷ cs) b'/') h tt
      (split-join c cs b'/' (lacking (c ∷ cs) h) ∙ sym (append-nil (c ∷ cs)))
join_below c cs (d ∷ s) h k =
    clean_parts (c ∷ cs) (split (d ∷ s) b'/') (join (c ∷ cs) b'/' ++ b'/' ∷ d ∷ s) h k
      (split_below c cs (d ∷ s) h)

plain_snoc : (l : List Bytes) → plain (l ++ [] ∷ []) ≡ plain l
plain_snoc [] = refl
plain_snoc (c ∷ l) = elim (Bool-cases (is_skipped c)) [
  | inl y ↦ rw y (plain_snoc l)
  | inr n ↦ rw n (ap (λ m. c ∷ m) (plain_snoc l))
]

-- A slash at the end changes nothing of the elements.
slashed :
    (s t : Bytes)
    → Slashed s t
    → NoUp (split s b'/')
    → (plain (split t b'/') ≡ plain (split s b'/')) × NoUp (split t b'/')
slashed s t (inl e) h = rw e (refl, h)
slashed s t (inr e) h =
    rw (e, split-snoc s b'/')
      (
        plain_snoc (split s b'/'),
        All-append (λ x. bytes_eq x dots ≡ false) (split s b'/') ([] ∷ []) h (refl, tt),
      )

-- Where a path leads, below the shares, the caches or the user's directory, is the directory with
-- what the path names there, its empty elements and its dots left out: a path without a step up
-- does not leave the directory. The directory is taken to be written as an absolute path without
-- steps. A path leads to the shares behind /Files/External/ and the node, to the caches behind
-- /Cache/ and the node, and else to the user's directory, behind /Files/ or as a whole.
pub real_path_inside :
    (r : Roots) (p root s : Bytes) (c : Bytes) (cs : List Bytes)
    → Leads r p root s
    → root ≡ b'/' ∷ join (c ∷ cs) b'/'
    → All IsName (c ∷ cs)
    → NoUp (split s b'/')
    → real_path r p ≡ b'/' ∷ join ((c ∷ cs) ++ plain (split s b'/')) b'/'
real_path_inside r p root s c cs leads written names no_up =
    let (rest, kept, joined) = real_path-Leads r p root s leads in
    let (same, no_step) = slashed s rest kept no_up in
    joined
    ∙ ap (λ d. path_join d rest) written
    ∙ join_below c cs rest names no_step
    ∙ ap (λ l. b'/' ∷ join ((c ∷ cs) ++ l) b'/') same
