-- ===== src/BackupUrl/Split.antt =====
-- Names and ids are split at the right place.
use backup_server.Base.{
  and-true, ℕ, ◌≡◌, ◌≢◌, refl, sym, true, false, ◌&&◌, Option, none, some, [], ◌∷◌, ◌++◌, ◌==◌, ◌<◌,
  length, arith, Bool-cases, inl, inr, All, ==_iff,
}
use backup_server.Base.Bytes.{Bytes, trim_right}
use backup_server.Base.Bytes.Laws.{Lacks, lacks-Lacks}
use backup_server.BackupUrl.Names.{
  id_pattern, is_hex, fits_char, fits, is_id, push, name_and_id, split_path,
}

fits-length : (p s : Bytes) → fits p s ≡ true → length s ≡ length p
unfolding fits
fits-length [] [] h = refl
fits-length [] (c ∷ s) h = cc
fits-length (p ∷ ps) [] h = cc
fits-length (p ∷ ps) (c ∷ s) h = ground (arith, fits-length ps s)

id-length : (s : Bytes) → is_id s ≡ true → length s ≡ 36
unfolding is_id
id-length s h = fits-length id_pattern s h

length-longer : (n s : Bytes) (c : ℕ) → length s ≡ 36 → 36 < length (n ++ c ∷ s)
length-longer [] s c h = ground arith
length-longer (d ∷ n) s c h = ground (arith, length-longer n s c h)

-- Text that is longer than an id is none.
longer_no_id : (n s : Bytes) (c : ℕ) → is_id s ≡ true → is_id (n ++ c ∷ s) ≡ false
longer_no_id n s c h = elim (Bool-cases (is_id (n ++ c ∷ s))) [
  | inr e ↦ e
  | inl e ↦ ground (arith, id-length s h, id-length (n ++ c ∷ s) e, length-longer n s c)
]

abbrev pub OneLine : Bytes → Type 0
OneLine = All (λ c. c ≢ 10)

no_break : (c : ℕ) → c ≢ 10 → (c == 10) ≡ false
no_break c h = ground arith

name_and_id-append :
    (n s : Bytes) → OneLine n → is_id s ≡ true → name_and_id (n ++ b'-' ∷ s) ≡ some (n, s)
unfolding name_and_id
name_and_id-append [] s h k = rw k refl
name_and_id-append (c ∷ n) s h k =
    let goes : (c == 10) ≡ false = no_break c h.0 in
    elim (Bool-cases (c == b'-')) [
      | inl e ↦ rw (e, longer_no_id n s b'-' k, goes, name_and_id-append n s h.1 k) refl
      | inr e ↦ rw (e, goes, name_and_id-append n s h.1 k) refl
    ]

hex-no_slash : (c : ℕ) → is_hex c ≡ true → c ≢ b'/'
hex-no_slash c h = ground arith

char-no_slash : (p c : ℕ) → p ≢ b'/' → fits_char p c ≡ true → c ≢ b'/'
char-no_slash p c h k = elim (Bool-cases (p == b'x')) [
  | inl e ↦ hex-no_slash c (rw e at k)
  | inr e ↦ ground arith
]

fits-parts :
    (p c : ℕ) (ps s : Bytes)
    → fits (p ∷ ps) (c ∷ s) ≡ true
    → (fits_char p c ≡ true) × (fits ps s ≡ true)
unfolding fits
fits-parts p c ps s h = and-true (fits_char p c) (fits ps s) h

fits-Lacks : (p s : Bytes) → Lacks b'/' p → fits p s ≡ true → Lacks b'/' s
fits-Lacks [] [] l h = tt
fits-Lacks [] (c ∷ s) l h = unfold fits in cc
fits-Lacks (p ∷ ps) [] l h = tt
fits-Lacks (p ∷ ps) (c ∷ s) l h =
    let (now, later) = fits-parts p c ps s h in
    (char-no_slash p c l.0 now, fits-Lacks ps s l.1 later)

id-Lacks : (s : Bytes) → is_id s ≡ true → Lacks b'/' s
unfolding is_id
id-Lacks s h = fits-Lacks id_pattern s (lacks-Lacks id_pattern b'/' refl) h

trim-Lacks : (s : Bytes) → Lacks b'/' s → trim_right s b'/' ≡ s
unfolding trim_right
trim-Lacks [] l = refl
trim-Lacks (c ∷ []) l = ground arith
trim-Lacks (c ∷ d ∷ s) l = rw (trim-Lacks (d ∷ s) l.1) refl

trim-append :
    (n : Bytes) (c : ℕ) (s : Bytes) → Lacks b'/' (c ∷ s) → trim_right (n ++ c ∷ s) b'/' ≡ n ++ c ∷ s
unfolding trim_right
trim-append [] c s l = trim-Lacks (c ∷ s) l
trim-append (d ∷ []) c s l = rw (trim-Lacks (c ∷ s) l) refl
trim-append (d ∷ e ∷ n) c s l = rw (trim-append (e ∷ n) c s l) refl

-- The last element of a path, made of a name, a dash and an id, is split into the name and the id,
-- also where the name holds dashes, or ids; the name is one without a line break.
pub split_path-join :
    (n s : Bytes) → OneLine n → is_id s ≡ true → split_path (n ++ b'-' ∷ s) ≡ some (n, s)
unfolding split_path
split_path-join n s h k =
    rw (trim-append n b'-' s (λ e. cc, id-Lacks s k)) (name_and_id-append n s h k)

no_pair : {B : Type 0} (n s : Bytes) → ◌≡◌ {A = Option (Bytes × Bytes)} none (some (n, s)) → B
no_pair n s h = cc

push_sound :
    (c : ℕ) (x : Option (Bytes × Bytes)) (n s : Bytes)
    → push c x ≡ some (n, s)
    → (m : Bytes) × (n ≡ c ∷ m) × (x ≡ some (m, s))
push_sound c none n s h = cc
push_sound c (some (m, s')) n s h = (m, cc, cc)

name_and_id_sound :
    (t n s : Bytes) → name_and_id t ≡ some (n, s) → (t ≡ n ++ b'-' ∷ s) × (is_id s ≡ true)
unfolding name_and_id
name_and_id_sound [] n s h = cc
name_and_id_sound (c ∷ t) n s h = elim (Bool-cases ((c == b'-') && is_id t)) [
  | inl e ↦
      (let (dash, id) = and-true (c == b'-') (is_id t) e in
        let h1 : some ([], t) ≡ some (n, s) = (rw e at h) in
        let n_nil : n ≡ [] = cc in
        let same : t ≡ s = cc in
        let c_dash : c ≡ b'-' = (==_iff c b'-').0 dash in
        (rw (n_nil, sym same, c_dash) refl, rw (sym same) id))
  | inr e ↦ elim (Bool-cases (c == 10)) [
    | inl b ↦ no_pair n s (rw (e, b) at h)
    | inr b ↦
        (let h1 : push c (name_and_id t) ≡ some (n, s) = (rw (e, b) at h) in
          let (m, at, found) = push_sound c (name_and_id t) n s h1 in
          let (whole, id) = name_and_id_sound t m s found in (rw (at, whole) refl, id))
  ]
]

-- What is split from a text is a name and an id that the text, without its slashes at the end,
-- is made of.
pub split_path_sound :
    (t n s : Bytes)
    → split_path t ≡ some (n, s)
    → (trim_right t b'/' ≡ n ++ b'-' ∷ s) × (is_id s ≡ true)
unfolding split_path
split_path_sound t n s h = name_and_id_sound (trim_right t b'/') n s h
