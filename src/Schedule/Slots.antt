-- ===== src/Schedule/Slots.antt =====
-- A concrete cron that keeps what the library documents: its state is a list of slots and its ids
-- count them.
use backup_server.Base.{
  ℕ, ◌+◌, ◌<◌, ◌≡◌, ◌≢◌, refl, String, Bool, true, false, not, ◌&&◌, Option, none, some, List, [],
  ◌∷◌, ◌==◌, if◌then◌else◌, count, All, All-mono, Pairwise, length, arith, Bool-cases, inl, inr,
}
use backup_server.Base.Bytes.{Bytes}
use backup_server.Schedule.{Entry, Cron, IsCron}

abbrev is_empty : Bytes → Bool
is_empty [] = true
is_empty (c ∷ s) = false

abbrev pub Slots : Type 0
Slots = List (Option (String × Bytes))

abbrev slot : ℕ → Option (String × Bytes) → List Entry → List Entry
slot i none l = l
slot i (some (n, s)) l = record { id = i; name = n; schedule = s } ∷ l

unfoldable pub listed : Slots → List Entry
listed [] = []
listed (x ∷ l) = slot (length l) x (listed l)

unfoldable pub emptied : Slots → ℕ → Slots
emptied [] i = []
emptied (x ∷ l) i = let rest = emptied l i in if length l == i then none ∷ rest else x ∷ rest

abbrev pub accepts : Slots → Bytes → String → Option Slots
accepts l schedule n = if is_empty schedule then none else some (some (n, schedule) ∷ l)

abbrev pub slots_cron : Cron
slots_cron = record { State = Slots; entries = listed; drop_entry = emptied; add_job = accepts }

listed-below : (l : Slots) → All (λ e. e.id < length l) (listed l)
unfolding listed
listed-below [] = tt
listed-below (none ∷ l) = All-mono (λ e h. omega arith) (listed l) (listed-below l)
listed-below (some (n, s) ∷ l) =
    (omega arith, All-mono (λ e h. omega arith) (listed l) (listed-below l))

listed_unique : (l : Slots) → Pairwise (λ e f. e.id ≢ f.id) (listed l)
unfolding listed
listed_unique [] = tt
listed_unique (none ∷ l) = listed_unique l
listed_unique (some (n, s) ∷ l) =
    (All-mono (λ e h k. omega arith) (listed l) (listed-below l), listed_unique l)

length-emptied : (l : Slots) (i : ℕ) → length (emptied l i) ≡ length l
unfolding emptied
length-emptied [] i = refl
length-emptied (x ∷ l) i = ground (arith, length-emptied l i)

emptied-removes :
    (l : Slots) (i : ℕ) (p : Entry → Bool)
    → count p (listed (emptied l i)) ≡ count (λ e. p e && not (e.id == i)) (listed l)
unfolding listed emptied count
emptied-removes [] i p = refl
emptied-removes (none ∷ l) i p = elim (Bool-cases (length l == i)) [
  | inl e ↦ rw e (emptied-removes l i p)
  | inr e ↦ rw e (emptied-removes l i p)
]
emptied-removes (some (n, s) ∷ l) i p = elim (Bool-cases (length l == i)) [
  | inl e ↦ rw e (ground (arith, emptied-removes l i p))
  | inr e ↦ rw (e, length-emptied l i) (ground (arith, emptied-removes l i p))
]

accepts-adds :
    (l t : Slots) (schedule : Bytes) (n : String)
    → accepts l schedule n ≡ some t
    → (i : ℕ) × ((p : Entry → Bool)
        → count p (listed t)
          ≡ count p (listed l)
            + (if p (record { id = i; name = n; schedule = schedule }) then 1 else 0))
unfolding listed count
accepts-adds l t schedule n h = elim (Bool-cases (is_empty schedule)) [
  | inl e ↦ ground arith
  | inr e ↦ (
    length l,
    λ p. let same : t ≡ some (n, schedule) ∷ l = ground arith in rw same (ground arith),
  )
]

pub slots_cron-IsCron : IsCron slots_cron
slots_cron-IsCron = record {
  unique = listed_unique;
  removes = emptied-removes;
  adds = accepts-adds;
}
