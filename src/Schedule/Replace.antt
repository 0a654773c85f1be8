-- ===== src/Schedule/Replace.antt =====
-- What a call leaves of the schedule: which entries go, which stay, which one is new.
use backup_server.Base.{
  ℕ, ◌+◌, ◌≡◌, ◌≢◌, refl, ap, ◌∙◌, String, str_eq, Bool, false, not, ◌&&◌, ◌||◌, List, [], ◌∷◌,
  ◌==◌, if◌then◌else◌, count, count-congr, count-ext, Pairwise, All, All-mono, All-zip, arith,
  Bool-cases, Option-cases, inl, inr, ==_iff, ==_refl,
}
use backup_server.Base.Bytes.{Bytes}
use backup_server.Schedule.{
  Entry, Cron, IsCron, Outcome, scheduled, refused, remove_named, remove_from_schedule,
  create_schedule,
}

-- Does one of the listed entries carry this name and this id?
unfoldable goes : String → List Entry → ℕ → Bool
goes b [] i = false
goes b (e ∷ es) i = (str_eq e.name b && (e.id == i)) || goes b es i

other_id :
    (b : String) (e : Entry) (es : List Entry) → All (λ f. e.id ≢ f.id) es → goes b es e.id ≡ false
unfolding goes
other_id b e [] h = refl
other_id b e (f ∷ es) h = ground (arith, h.0, other_id b e es h.1, ==_iff f.id e.id)

goes_self :
    (b : String) (l : List Entry)
    → Pairwise (λ e f. e.id ≢ f.id) l
    → All (λ e. goes b l e.id ≡ str_eq e.name b) l
unfolding goes
goes_self b [] h = tt
goes_self b (e ∷ es) h = (
  ground (arith, other_id b e es h.0, ==_refl e.id),
  All-zip {P = λ f. e.id ≢ f.id} {Q = λ f. goes b es f.id ≡ str_eq f.name b}
      (λ f ne same. ground (arith, ne, same, ==_iff e.id f.id)) es h.0 (goes_self b es h.1),
)

module _ (c : Cron) where
  -- What the two outcomes of scheduling a backup leave.
  abbrev pub Promised : String → Bytes → c.State → Outcome c.State → Type 0
  Promised b schedule s (scheduled t) =
      (i : ℕ) × ((p : Entry → Bool)
        → count p (c.entries t)
          ≡ count (λ e. p e && not (str_eq e.name b)) (c.entries s)
            + (if p (record { id = i; name = b; schedule = schedule }) then 1 else 0))
  Promised b schedule s (refused t) =
      (p : Entry → Bool)
      → count p (c.entries t) ≡ count (λ e. p e && not (str_eq e.name b)) (c.entries s)

module _ (c : Cron) (v : IsCron c) where
  removed_ids :
      (b : String) (l : List Entry) (s : c.State) (p : Entry → Bool)
      → count p (c.entries (remove_named c b l s))
        ≡ count (λ e. p e && not (goes b l e.id)) (c.entries s)
  unfolding remove_named goes
  removed_ids b [] s p = count-ext _ _ (c.entries s) (λ e. ground arith)
  removed_ids b (e ∷ l) s p = elim (Bool-cases (str_eq e.name b)) [
    | inl named ↦ rw named (
        removed_ids b l (c.drop_entry s e.id) p
        ∙ v.removes s e.id (λ f. p f && not (goes b l f.id))
        ∙ count-ext _ _ (c.entries s) (λ f. ground (arith, ==_iff f.id e.id, ==_iff e.id f.id)))
    | inr other ↦ rw other (removed_ids b l s p)
  ]

  -- Removing a backup from the schedule takes away exactly its entries. The cron library is taken to
  -- do what it documents.
  pub remove_from_schedule_lem :
      (b : String) (s : c.State) (p : Entry → Bool)
      → count p (c.entries (remove_from_schedule c b s))
        ≡ count (λ e. p e && not (str_eq e.name b)) (c.entries s)
  unfolding remove_from_schedule
  remove_from_schedule_lem b s p =
      removed_ids b (c.entries s) s p
      ∙ count-congr _ _ (c.entries s)
          (All-mono (λ e same. rw same) (c.entries s) (goes_self b (c.entries s) (v.unique s)))

  -- Scheduling a backup: an accepted schedule stands in exactly one new entry, a refused one in
  -- none. The old entries of the backup are gone in both cases, and all others are kept. The cron
  -- library is taken to do what it documents.
  pub create_schedule_lem :
      (b : String) (schedule : Bytes) (s : c.State)
      → Promised c b schedule s (create_schedule c b schedule s)
  unfolding create_schedule
  create_schedule_lem b schedule s =
      let t = remove_from_schedule c b s in
      let kept = remove_from_schedule_lem b s in
      elim (Option-cases (c.add_job (remove_named c b (c.entries s) s) schedule b)) [
        | inl e ↦ rw (e, Promised) (unfold remove_from_schedule in kept)
        | inr e ↦
            let new = v.adds (remove_named c b (c.entries s) s) e.0 schedule b e.1 in
            rw (e.1, Promised)
              (
                new.0,
                λ p.
                    new.1 p
                    ∙ ap
                        (λ n.
                          n
                          + (if p (record { id = new.0; name = b; schedule = schedule })
                              then 1
                              else 0))
                        (unfold remove_from_schedule in kept p),
              )
      ]
