-- ===== src/Api/Texts.antt =====
-- What is cut off the texts of a request: TrimSpace of Go, for texts in ASCII, and `TrimLineBreak` of
-- pkg/util/util.go.
use backup_server.Base.{ℕ, Bool, ◌||◌, ◌&&◌, [], ◌∷◌, ◌==◌, leb, if◌then◌else◌}
use backup_server.Base.Bytes.{Bytes}

abbrev pub is_blank : ℕ → Bool
is_blank c = c == 32 || leb 9 c && leb c 13

abbrev trim_start : Bytes → Bytes
trim_start [] = []
trim_start (c ∷ s) = let rest = trim_start s in if is_blank c then rest else c ∷ s

abbrev keep : ℕ → Bytes → Bytes
keep c [] = if is_blank c then [] else c ∷ []
keep c (d ∷ s) = c ∷ d ∷ s

abbrev trim_end : Bytes → Bytes
trim_end [] = []
trim_end (c ∷ s) = keep c (trim_end s)

-- TrimSpace
abbrev pub trim_space : Bytes → Bytes
trim_space s = trim_end (trim_start s)

abbrev is_break : ℕ → Bool
is_break c = c == 10 || c == 13

abbrev keep_break : ℕ → Bytes → Bytes
keep_break c [] = if is_break c then [] else c ∷ []
keep_break c (d ∷ s) = c ∷ d ∷ s

-- TrimLineBreak
abbrev pub trim_line_break : Bytes → Bytes
trim_line_break [] = []
trim_line_break (c ∷ s) = keep_break c (trim_line_break s)
