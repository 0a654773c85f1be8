-- ===== src/BackupUrl/Names.antt =====
-- The name and the id of a backup in the last element of a path: `SplitPath` of
-- pkg/util/string/string.go. A regular expression says what is split.
use backup_server.Base.{
  ℕ, Bool, true, false, ◌&&◌, ◌||◌, Option, none, some, [], ◌∷◌, ◌==◌, leb, if◌then◌else◌,
}
use backup_server.Base.Bytes.{Bytes, codes, trim_right}

-- [0-9a-fA-F]
abbrev pub is_hex : ℕ → Bool
is_hex c = leb b'0' c && leb c b'9' || (leb b'a' c && leb c b'f' || leb b'A' c && leb c b'F')

-- The part of the expression for an id: an x stands for a digit.
abbrev pub id_pattern : Bytes
id_pattern = codes "xxxxxxxx-xxxx-xxxx-xxxx-xxxxxxxxxxxx"

abbrev pub fits_char : ℕ → ℕ → Bool
fits_char p c = if p == b'x' then is_hex c else c == p

-- Whether the whole text fits.
unfoldable pub fits : Bytes → Bytes → Bool
fits [] [] = true
fits [] (c ∷ s) = false
fits (p ∷ ps) [] = false
fits (p ∷ ps) (c ∷ s) = fits_char p c && fits ps s

unfoldable pub is_id : Bytes → Bool
unfolding fits
is_id s = fits id_pattern s

abbrev pub push : ℕ → Option (Bytes × Bytes) → Option (Bytes × Bytes)
push c none = none
push c (some (name, id)) = some (c ∷ name, id)

-- The shortest name before a dash and an id; a name has no line break, which `.` does not match.
unfoldable pub name_and_id : Bytes → Option (Bytes × Bytes)
unfolding is_id
name_and_id [] = none
name_and_id (c ∷ s) =
    let later = name_and_id s in
    if (c == b'-') && is_id s then some ([], s) else if c == 10 then none else push c later

-- SplitPath; `none` is its error.
unfoldable pub split_path : Bytes → Option (Bytes × Bytes)
unfolding name_and_id
split_path s = name_and_id (trim_right s b'/')
