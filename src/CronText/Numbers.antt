-- ===== src/CronText/Numbers.antt =====
-- strconv.Atoi and strconv.Itoa as pkg/util/util.go calls them, with an int of 64 bits.
pub mod Laws
use backup_server.Base.{
  ℕ, zero, suc, ◌+◌, ◌-◌, ◌*◌, ◌/◌, ◌%◌, ◌^◌, Bool, ◌&&◌, Option, none, some, List, [], ◌∷◌, ◌++◌,
  ◌==◌, ltb, leb, if◌then◌else◌,
}
use backup_server.Base.Bytes.{Bytes}
use backup_server.Base.Int.{ℤ, pos, negsuc}

abbrev pub is_digit : ℕ → Bool
is_digit c = leb b'0' c && leb c b'9'

-- The value of a text of digits, behind digits of value `n`.
unfoldable pub digits : Bytes → ℕ → Option ℕ
digits [] n = some n
digits (c ∷ s) n = let rest = digits s (n * 10 + (c - b'0')) in if is_digit c then rest else none

abbrev pub positive : Option ℕ → Option ℤ
positive none = none
positive (some n) = if ltb n (2 ^ 63) then some (pos n) else none

abbrev pub negative : Option ℕ → Option ℤ
negative none = none
negative (some zero) = some (pos 0)
negative (some (suc n)) = if ltb n (2 ^ 63) then some (negsuc n) else none

-- No digit at all is no number.
abbrev pub number : Bytes → Option ℕ
number [] = none
number (c ∷ s) = digits (c ∷ s) 0

-- Atoi(s), and `none` where it reports an error.
unfoldable pub atoi : Bytes → Option ℤ
atoi [] = none
atoi (c ∷ s) =
    if c == b'-'
    then negative (number s)
    else if c == b'+'
    then positive (number s)
    else positive (number (c ∷ s))

-- The decimal digits of `n`, where the fuel exceeds `n`.
unfoldable pub show : ℕ → ℕ → Bytes
show zero n = []
show (suc fuel) n =
    let front = show fuel (n / 10) in
    if ltb n 10 then (b'0' + n) ∷ [] else front ++ (b'0' + n % 10) ∷ []

-- Itoa(n)
unfoldable pub itoa : ℤ → Bytes
itoa (pos n) = show (suc n) n
itoa (negsuc n) = b'-' ∷ show (suc (suc n)) (suc n)
