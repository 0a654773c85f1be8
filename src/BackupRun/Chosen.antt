-- ===== src/BackupRun/Chosen.antt =====
-- Which token a backup to a cloud uses, and what is stored of it.
use backup_server.Base.{
  ◌≡◌, ◌≢◌, ◌↔◌, ◌⊎◌, inl, inr, ◌∙◌, refl, sym, ap, str_eq, Bool, true, false, ◌||◌, Option, none,
  some, List, [], ◌∷◌, if◌then◌else◌, arith, Bool-cases, Option-cases,
}
use backup_server.Base.Bytes.{Bytes}
use backup_server.Base.Bytes.Laws.{bytes_eq→eq}
use backup_server.Tokens.{CloudToken}
use backup_server.BackupRun.Cloud.{
  Location, Integration, Search, found, absent, follows_nil, first_token, tokens_of, Choice, chosen,
  panicked, named, placed, by_name, get_integration_cloud, build_location,
}

first_token-found :
    (p : CloudToken → Bool) (l : List (Option CloudToken)) (t : CloudToken)
    → first_token p l ≡ found t
    → p t ≡ true
unfolding first_token
first_token-found p [] t = λ h. cc
first_token-found p (none ∷ l) t = λ h. cc
first_token-found p (some u ∷ l) t = elim (Bool-cases (p u)) [
  | inl y ↦ rw y (λ h. let same : u ≡ t = cc in ap p (sym same) ∙ y)
  | inr n ↦ rw n (first_token-found p l t)
]

-- What a choice promises: the token has the configured name, and nothing is stored of it, or it is
-- for the configured endpoint, and its name is stored with that endpoint.
abbrev pub Promises : Location → Choice → CloudToken → Integration → Type 0
Promises l c t i =
    c ≡ chosen t i
    → ((named l t ≡ true) × (build_location l i ≡ none))
      ⊎ ((t.endpoint ≡ l.endpoint)
          × (build_location l i ≡ (
              if str_eq l.kind "space" || str_eq l.kind "filesystem"
              then none
              else some (l.kind, t.access_key, l.endpoint))))

by_name-Promises :
    (l : Location) (i : Integration) (ts : List (Option CloudToken)) (r s : Search) (t : CloudToken)
    (j : Integration)
    → first_token (named l) ts ≡ r
    → first_token (placed l) ts ≡ s
    → Promises l (by_name i r s) t j
unfolding build_location
by_name-Promises l i ts (found u) s t j e f = λ h.
    let token : u ≡ t = cc in
    let state : record i { changed = false } ≡ j = cc in
    inl (ap (named l) (sym token) ∙ first_token-found (named l) ts u e, rw (← state) refl)
by_name-Promises l i ts absent (found u) t j e f = λ h.
    let token : u ≡ t = cc in
    let state : record { changed = true; name = u.access_key; endpoint = u.endpoint } ≡ j = cc in
    let there = bytes_eq→eq u.endpoint l.endpoint (first_token-found (placed l) ts u f) in
    inr (ap (λ (x : CloudToken). x.endpoint) (sym token) ∙ there, rw (← state, ← token, there) refl)
by_name-Promises l i ts absent absent t j e f = λ h. cc
by_name-Promises l i ts absent follows_nil t j e f = λ h. cc
by_name-Promises l i ts follows_nil s t j e f = λ h. cc

-- A token that a backup to a cloud uses has the configured name, and then the stored location does
-- not change, or it is one for the configured endpoint, and then the name that is stored with this
-- endpoint is that of the token, except for the space and the file system.
pub chosen_is_stored :
    (accounts : List Bytes) (token_of : Bytes → Option CloudToken) (l : Location)
    (i j : Integration) (t : CloudToken)
    → Promises l (get_integration_cloud (some accounts) token_of l i) t j
unfolding get_integration_cloud tokens_of
chosen_is_stored [] token_of l i j t = λ h. cc
chosen_is_stored (a ∷ rest) token_of l i j t =
    let ts = token_of a ∷ tokens_of token_of rest in by_name-Promises l i ts _ _ t j refl refl

-- An account whose token the service does not give stands before every account whose token has the
-- configured name.
abbrev pub FailsFirst : (Bytes → Option CloudToken) → Location → List Bytes → Type 0
FailsFirst token_of l [] = ⊥
FailsFirst token_of l (a ∷ rest) =
    (token_of a ≡ none)
    ⊎ ((t : CloudToken) × (token_of a ≡ some t) × (named l t ≡ false) × FailsFirst token_of l rest)

fails-nil :
    (token_of : Bytes → Option CloudToken) (l : Location) (rest : List Bytes)
    → FailsFirst token_of l rest
    → first_token (named l) (tokens_of token_of rest) ≡ follows_nil
unfolding first_token tokens_of
fails-nil token_of l [] h = absurd h
fails-nil token_of l (a ∷ rest) (inl e) = rw e refl
fails-nil token_of l (a ∷ rest) (inr (t, e, n, r)) = rw (e, n) (fails-nil token_of l rest r)

nil-fails :
    (token_of : Bytes → Option CloudToken) (l : Location) (rest : List Bytes)
    → first_token (named l) (tokens_of token_of rest) ≡ follows_nil
    → FailsFirst token_of l rest
unfolding first_token tokens_of
nil-fails token_of l [] = λ h. cc
nil-fails token_of l (a ∷ rest) = elim (Option-cases (token_of a)) [
  | inl e ↦ λ h. inl e
  | inr u ↦ elim (Bool-cases (named l u.0)) [
    | inl y ↦ rw (u.1, y) (λ h. cc)
    | inr n ↦ rw (u.1, n) (λ h. inr (u.0, refl, n, nil-fails token_of l rest h))
  ]
]

choice-panics :
    (r s : Search)
    → (s ≡ follows_nil → r ≢ absent)
    → (l : Location) (i : Integration) → (by_name i r s ≡ panicked) ↔ (r ≡ follows_nil)
choice-panics (found t) s only l i = ((λ h. cc), (λ h. cc))
choice-panics absent (found t) only l i = ((λ h. cc), (λ h. cc))
choice-panics absent absent only l i = ((λ h. cc), (λ h. cc))
choice-panics absent follows_nil only l i = ((λ h. absurd (only refl refl)), (λ h. cc))
choice-panics follows_nil s only l i = ((λ h. refl), (λ h. refl))

-- A loop that finds nothing has passed no nil pointer, so no other one meets one.
no_nil :
    (p q : CloudToken → Bool) (l : List (Option CloudToken))
    → first_token q l ≡ follows_nil
    → first_token p l ≢ absent
unfolding first_token
no_nil p q [] h = λ e. cc
no_nil p q (none ∷ l) h = λ e. cc
no_nil p q (some u ∷ l) h = ground (arith, no_nil p q l)

-- The choice of a token follows a nil pointer exactly when an account whose token the service does
-- not give stands before every account whose token has the configured name.
pub choice_panics :
    (accounts : List Bytes) (token_of : Bytes → Option CloudToken) (l : Location) (i : Integration)
    → (get_integration_cloud (some accounts) token_of l i ≡ panicked)
      ↔ FailsFirst token_of l accounts
unfolding get_integration_cloud tokens_of
choice_panics [] token_of l i = ((λ h. cc), (λ h. absurd h))
choice_panics (a ∷ rest) token_of l i =
    let ts = token_of a ∷ tokens_of token_of rest in
    let (to, from) =
      choice-panics (first_token (named l) ts) (first_token (placed l) ts)
        (no_nil (named l) (placed l) ts) l i in
    (λ h. nil-fails token_of l (a ∷ rest) (to h), λ f. from (fails-nil token_of l (a ∷ rest) f))
