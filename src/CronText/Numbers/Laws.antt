-- ===== src/CronText/Numbers/Laws.antt =====
-- Numbers written and read back.
use backup_server.Base.{
  ℕ, zero, suc, ◌+◌, ◌-◌, ◌*◌, ◌/◌, ◌%◌, ◌<◌, ◌≤◌, ◌≡◌, ◌≢◌, refl, sym, true, false, Option, none,
  some, [], ◌∷◌, ◌++◌, ltb, if◌then◌else◌, arith, Bool-cases, Option-cases, ◌==◌, inl, inr,
}
use backup_server.Base.Bytes.{Bytes}
use backup_server.Base.Bytes.Laws.{Lacks}
use backup_server.Base.Int.{ℤ, pos, negsuc}
use backup_server.CronText.Numbers.{is_digit, digits, number, positive, negative, atoi, show, itoa}

abbrev and_then : Option ℕ → ℕ → Option ℕ
and_then none c = none
and_then (some n) c = if is_digit c then some (n * 10 + (c - b'0')) else none

digits-snoc : (s : Bytes) (c n : ℕ) → digits (s ++ c ∷ []) n ≡ and_then (digits s n) c
unfolding digits
digits-snoc [] c n = refl
digits-snoc (d ∷ s) c n = elim (Bool-cases (is_digit d)) [
  | inl e ↦ rw e (digits-snoc s c (n * 10 + (d - b'0')))
  | inr e ↦ rw e refl
]

digit_value : (d : ℕ) → d < 10 → (is_digit (b'0' + d) ≡ true) × (b'0' + d - b'0' ≡ d)
digit_value d h = (ground arith, omega arith)

pub digits-show : (fuel n : ℕ) → n < fuel → digits (show fuel n) 0 ≡ some n
unfolding show
digits-show zero n h = absurd (omega arith)
digits-show (suc fuel) n h = elim (Bool-cases (ltb n 10)) [
  | inl small ↦ rw small (
      unfold digits in
      rw ((digit_value n (ground arith)).0, (digit_value n (ground arith)).1) (ground arith))
  | inr large ↦
      let big : 10 ≤ n = ground arith in
      let below : n % 10 < 10 = omega arith in
      let value : n / 10 * 10 + n % 10 ≡ n = omega arith in
      rw (
        large,
        digits-snoc,
        digits-show fuel (n / 10) (omega arith),
        (digit_value (n % 10) below).0,
        (digit_value (n % 10) below).1,
        value,
      )
]

pub digits-Lacks :
    (s : Bytes) (n k sep : ℕ) → digits s n ≡ some k → is_digit sep ≡ false → Lacks sep s
unfolding digits
digits-Lacks [] n k sep h below = tt
digits-Lacks (c ∷ s) n k sep h below = elim (Bool-cases (is_digit c)) [
  | inl e ↦ (λ same. ground arith, digits-Lacks s (n * 10 + (c - b'0')) k sep (ground arith) below)
  | inr e ↦ ground arith
]

number-Lacks : (s : Bytes) (k sep : ℕ) → number s ≡ some k → is_digit sep ≡ false → Lacks sep s
number-Lacks [] k sep h below = tt
number-Lacks (c ∷ s) k sep h below = digits-Lacks (c ∷ s) 0 k sep h below

positive-Lacks :
    (s : Bytes) (z : ℤ) (sep : ℕ) → positive (number s) ≡ some z → sep < b'+' → Lacks sep s
positive-Lacks s z sep h below = elim (Option-cases (number s)) [
  | inl e ↦ cc
  | inr e ↦ number-Lacks s e.0 sep e.1 (ground arith)
]

negative-Lacks :
    (s : Bytes) (z : ℤ) (sep : ℕ) → negative (number s) ≡ some z → sep < b'+' → Lacks sep s
negative-Lacks s z sep h below = elim (Option-cases (number s)) [
  | inl e ↦ cc
  | inr e ↦ number-Lacks s e.0 sep e.1 (ground arith)
]

-- A text that is a number holds no other sign than a leading plus or minus.
pub atoi-Lacks : (s : Bytes) (z : ℤ) (sep : ℕ) → atoi s ≡ some z → sep < b'+' → Lacks sep s
unfolding atoi
atoi-Lacks [] z sep h below = tt
atoi-Lacks (c ∷ s) z sep h below = elim (Bool-cases (c == b'-')) [
  | inl minus ↦ (λ same. ground arith, negative-Lacks s z sep (ground arith) below)
  | inr n ↦ elim (Bool-cases (c == b'+')) [
    | inl plus ↦ (λ same. ground arith, positive-Lacks s z sep (ground arith) below)
    | inr m ↦ positive-Lacks (c ∷ s) z sep (ground arith) below
  ]
]

pub itoa-Lacks : (z : ℤ) (sep : ℕ) → is_digit sep ≡ false → sep ≢ b'-' → Lacks sep (itoa z)
unfolding itoa
itoa-Lacks (pos n) sep h k =
    digits-Lacks (show (suc n) n) 0 n sep (digits-show (suc n) n (omega arith)) h
itoa-Lacks (negsuc n) sep h k = (
  λ same. k (sym same),
  digits-Lacks (show (suc (suc n)) (suc n)) 0 (suc n) sep
      (digits-show (suc (suc n)) (suc n) (omega arith)) h,
)
