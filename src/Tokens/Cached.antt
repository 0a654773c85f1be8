-- ===== src/Tokens/Cached.antt =====
-- What the cache of tokens gives.
use backup_server.Base.{
  ℕ, ◌≡◌, ◌∙◌, refl, sym, ap, String, false, Option, none, some, Dict, get, get-put, Result, ok,
  Bool-cases, Option-cases, inl, inr,
}
use text.Mathlib.TextPositions.{eq_refl}
use backup_server.Tokens.{SpaceToken, TokenError, is_expired, fetch, get_integration_space_token}

-- A token that is in the cache and not expired is given without a question.
pub served :
    (now : ℕ) (name : String) (answer : Option SpaceToken) (cache : Dict SpaceToken)
    (t : SpaceToken)
    → get cache name ≡ some t
    → is_expired now t ≡ false
    → get_integration_space_token now name answer cache ≡ (ok t, cache)
unfolding get_integration_space_token
served now name answer cache t f e = rw (f, get_integration_space_token, e) refl

-- What a call that gives a token promises: the token is not expired and stands in the cache.
abbrev Holds : ℕ → String → Result TokenError SpaceToken × Dict SpaceToken → SpaceToken → Type 0
Holds now name r t = r.0 ≡ ok t → (is_expired now t ≡ false) × (get r.1 name ≡ some t)

fetch-Holds :
    (now : ℕ) (name : String) (answer : Option SpaceToken) (cache : Dict SpaceToken)
    (t : SpaceToken)
    → Holds now name (fetch now name answer cache) t
unfolding fetch
fetch-Holds now name none cache t = λ h. cc
fetch-Holds now name (some u) cache t = elim (Bool-cases (is_expired now u)) [
  | inl y ↦ rw y (λ h. cc)
  | inr n ↦ rw n (λ h.
      let same : u ≡ t = cc in
      (ap (is_expired now) (sym same) ∙ n, rw (get-put, eq_refl) (ap some same)))
]

call-Holds :
    (now : ℕ) (name : String) (answer : Option SpaceToken) (cache : Dict SpaceToken)
    (t : SpaceToken)
    → Holds now name (get_integration_space_token now name answer cache) t
unfolding get_integration_space_token
call-Holds now name answer cache t = elim (Option-cases (get cache name)) [
  | inl e ↦ rw (e, get_integration_space_token) (fetch-Holds now name answer cache t)
  | inr x ↦ elim (Bool-cases (is_expired now x.0)) [
    | inl y ↦ rw (x.1, y, get_integration_space_token) (fetch-Holds now name answer cache t)
    | inr n ↦
        rw (x.1, n, get_integration_space_token)
          (λ h. let same : x.0 ≡ t = cc in (ap (is_expired now) (sym same) ∙ n, x.1 ∙ ap some same))
  ]
]

-- A token that is given is not expired, and until it expires it is given again, whatever the
-- service answers then.
pub token_lasts :
    (now later : ℕ) (name : String) (answer another : Option SpaceToken) (cache : Dict SpaceToken)
    (t : SpaceToken)
    → (get_integration_space_token now name answer cache).0 ≡ ok t
    → is_expired later t ≡ false
    → (is_expired now t ≡ false)
      × (get_integration_space_token later name another
            (get_integration_space_token now name answer cache).1
          ≡ (ok t, (get_integration_space_token now name answer cache).1))
token_lasts now later name answer another cache t h e =
    let (fresh, kept) = call-Holds now name answer cache t h in
    (
      fresh,
      served later name another (get_integration_space_token now name answer cache).1 t kept e,
    )
