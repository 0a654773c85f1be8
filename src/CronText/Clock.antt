-- ===== src/CronText/Clock.antt =====
-- Which times of day `ParseToCron` accepts.
use backup_server.Base.{
  ℕ, ◌≤◌, ◌≡◌, ◌≢◌, refl, sym, ◌∙◌, ap, String, true, some, [], ◌∷◌, ◌++◌, leb, ok, arith,
}
use backup_server.Base.Bytes.{Bytes, split}
use backup_server.Base.Int.{ℤ, pos}
use backup_server.CronText.Numbers.{atoi}
use backup_server.CronText.Numbers.Laws.{atoi-Lacks}
use backup_server.CronText.{two_parts, cron_line, some_line, parse_to_cron}
use backup_server.CronText.Fields.{
  Known, cron_fields, line-join, cron_fields-Lacks, cron_fields-join,
}

parse_to_cron-time :
    (f : String) (times a b : Bytes) (h m : ℕ) (w d : ℤ)
    → split times b':' ≡ a ∷ b ∷ []
    → atoi a ≡ some (pos h)
    → atoi b ≡ some (pos m)
    → h ≤ 24
    → m ≤ 59
    → parse_to_cron f times w d ≡ some_line (cron_line f (b ++ b' ' ∷ a) (pos m) w d)
unfolding parse_to_cron
parse_to_cron-time f times a b h m w d parts ha hb hh hm =
    let fits : leb h 24 ≡ true = ground arith in
    let fit : leb m 59 ≡ true = ground arith in rw (parts, two_parts, ha, hb, fits, fit)

line_fields :
    (f : String) (a b : Bytes) (h m : ℕ) (w d : ℤ)
    → atoi a ≡ some (pos h)
    → atoi b ≡ some (pos m)
    → Known f
    → split (cron_line f (b ++ b' ' ∷ a) (pos m) w d) b' ' ≡ cron_fields f a b (pos m) w d
line_fields f a b h m w d ha hb k =
    let lacks =
      cron_fields-Lacks f a b (pos m) w d (atoi-Lacks a (pos h) b' ' ha (omega arith))
        (atoi-Lacks b (pos m) b' ' hb (omega arith)) k in
    ap (λ s. split s b' ') (line-join f a b (pos m) w d k)
    ∙ cron_fields-join f a b (pos m) w d lacks

not_single : (f : String) (h m : Bytes) (z w d : ℤ) → cron_fields f h m z w d ≢ [] ∷ []
not_single f h m z w d e = ground arith

some_line-some : (s : Bytes) → s ≢ [] → some_line s ≡ ok s
some_line-some [] h = absurd (h refl)
some_line-some (c ∷ s) h = refl

-- A time of day of two numbers, up to 24 and up to 59, is accepted at every known frequency, and
-- its line has that minute and that hour in its fields as they are written. The hours of cron end
-- at 23.
pub accepts_time :
    (f : String) (times a b : Bytes) (h m : ℕ) (w d : ℤ)
    → split times b':' ≡ a ∷ b ∷ []
    → atoi a ≡ some (pos h)
    → atoi b ≡ some (pos m)
    → Known f
    → h ≤ 24
    → m ≤ 59
    → (cron : Bytes) × (parse_to_cron f times w d ≡ ok cron)
      × (split cron b' ' ≡ cron_fields f a b (pos m) w d)
accepts_time f times a b h m w d parts ha hb k hh hm =
    let line = cron_line f (b ++ b' ' ∷ a) (pos m) w d in
    let fields = line_fields f a b h m w d ha hb k in
    let filled : line ≢ [] = λ e.
      not_single f a b (pos m) w d (sym fields ∙ ap (λ s. split s b' ') e ∙ unfold split in refl) in
    (
      line,
      parse_to_cron-time f times a b h m w d parts ha hb hh hm ∙ some_line-some line filled,
      fields,
    )
