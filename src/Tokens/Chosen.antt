-- ===== src/Tokens/Chosen.antt =====
-- Which account's token is chosen.
use backup_server.Base.{
  ℕ, zero, suc, ◌≡◌, ◌∙◌, sym, ap, Bool, true, Option, none, some, List, [], ◌∷◌, get_elem?, Result,
  ok, bind-ok, Bool-cases, Option-cases, Result-cases, inl, inr,
}
use backup_server.Base.Bytes.{Bytes}
use backup_server.Repo.{Url}
use backup_server.Tokens.{
  ListedAccount, CloudToken, TokenError, same_store, of_location, choose, some_token,
  get_integration_cloud_account,
}

some_token-ok : (x : Option CloudToken) (t : CloudToken) → some_token x ≡ ok t → x ≡ some t
some_token-ok none t = λ h. cc
some_token-ok (some u) t = λ h. cc

module _ (token_of : Bytes → Option CloudToken) (same : CloudToken → Result TokenError Bool)
    (location : Bytes) where
  -- This account is one of the location, and its token is for the store that is asked for.
  pub record ForStore (a : ListedAccount) : Type 0 where
    pub chosen : of_location location a ≡ true
    pub token : CloudToken
    pub given : token_of a.name ≡ some token
    pub matches : same token ≡ ok true

  choose_of_store :
      (l : List ListedAccount) (last : Option CloudToken) (t : CloudToken) (i : ℕ)
      (a : ListedAccount)
      → get_elem? l i ≡ some a
      → ForStore a
      → choose token_of same location l last ≡ ok (some t)
      → same t ≡ ok true
  unfolding choose
  choose_of_store [] last t i a at m = λ h. cc
  choose_of_store (x ∷ l) last t zero a at m =
      let same_account : x ≡ a = cc in
      rw (same_account, m.chosen, m.given, m.matches)
        (λ h. let same_token : m.token ≡ t = cc in ap same (sym same_token) ∙ m.matches)
  choose_of_store (x ∷ l) last t (suc i) a at m = elim (Bool-cases (of_location location x)) [
    | inr n ↦ rw n (choose_of_store l last t i a at m)
    | inl y ↦ elim (Option-cases (token_of x.name)) [
      | inl e ↦ rw (y, e) (λ h. cc)
      | inr u ↦ elim (Result-cases (same u.0)) [
        | inr e ↦ rw (y, u.1, e.1) (λ h. cc)
        | inl b ↦ elim (Bool-cases b.0) [
          | inr n ↦ rw (y, u.1, b.1, n) (choose_of_store l (some u.0) t i a at m)
          | inl z ↦
              rw (y, u.1, b.1, z)
                (λ h. let same_token : u.0 ≡ t = cc in ap same (sym same_token) ∙ b.1 ∙ ap ok z)
        ]
      ]
    ]
  ]

-- A token that is given although an account of the location has a token for the store that is
-- asked for is itself a token for that store.
pub chosen_is_of_store :
    (accounts : List ListedAccount) (token_of : Bytes → Option CloudToken)
    (parse : Bytes → Option Url) (location endpoint : Bytes) (t : CloudToken) (i : ℕ)
    (a : ListedAccount)
    → get_elem? accounts i ≡ some a
    → ForStore token_of (same_store parse location endpoint) location a
    → get_integration_cloud_account (some accounts) token_of parse location endpoint ≡ ok t
    → same_store parse location endpoint t ≡ ok true
unfolding get_integration_cloud_account
chosen_is_of_store accounts token_of parse location endpoint t i a at m h =
    let same = same_store parse location endpoint in
    let (x, e, f) = bind-ok (choose token_of same location accounts none) some_token t h in
    choose_of_store token_of same location accounts none t i a at m
      (e ∙ ap ok (some_token-ok x t f))
