-- ===== src/ApiTokens/Life.antt =====
-- A token from its creation to its expiry or its revocation.
use infram.Prelude.{
  ℕ, ◌≡◌, ◌+◌, ◌*◌, refl, inl, inr, Bool, true, none, some, List, [], ◌∷◌, ◌++◌, ◌==◌, ==_refl,
  if◌then◌else◌, leb, ◌||◌, arith, Bool-cases, find_one, destroy, ok,
}
use infram.SignIn.{Account}
use infram.ApiTokens.{
  ApiToken, Tokens, new_token, has_hash, revoke_api_token, create_api_token, resolve_api_token,
}

found_last :
    (p : ApiToken → Bool) (rows : List ApiToken) (row : ApiToken)
    → find_one p rows ≡ none
    → p row ≡ true
    → find_one p (rows ++ row ∷ []) ≡ some row
unfolding find_one
found_last p [] row h y = ground arith
found_last p (x ∷ rows) row h y = ground (arith, found_last p rows row)

none_left :
    (p q : ApiToken → Bool) (rows : List ApiToken) (row : ApiToken)
    → find_one p rows ≡ none
    → q row ≡ true
    → find_one p (destroy q (rows ++ row ∷ [])) ≡ none
unfolding find_one destroy
none_left p q [] row h y = ground arith
none_left p q (x ∷ rows) row h y = ground (arith, none_left p q rows row)

-- A token whose hash and identifier are new signs its account in until it expires, if the account
-- is there and not disabled, and not afterwards; and it can be revoked, whereupon it signs nobody in
-- at any time.
pub resolve_api_token-create_api_token :
    (hash_token : ℕ → ℕ) (fresh account name scope days token now later : ℕ) (v : Tokens)
    (a : Account)
    → find_one (has_hash (hash_token token)) v.rows ≡ none
    → find_one (λ r. r.id == fresh) v.rows ≡ none
    → find_one (λ b. b.id == account) v.accounts ≡ some a
    → ((resolve_api_token hash_token token later
          (create_api_token hash_token fresh account name scope days token now v)).1
        ≡ (if leb (now + days * 24 * 3600 * 1000) later || a.disabled
            then none
            else some (new_token fresh account name scope days (hash_token token) now, a)))
      × ((w : Tokens) × (revoke_api_token fresh none
              (create_api_token hash_token fresh account name scope days token now v)
            ≡ ok w)
          × ((resolve_api_token hash_token token later w).1 ≡ none))
unfolding resolve_api_token create_api_token revoke_api_token
resolve_api_token-create_api_token hash_token fresh account name scope days token now later v a
      unused new there =
    let hashed = hash_token token in
    let row = new_token fresh account name scope days hashed now in
    let found = found_last (has_hash hashed) v.rows row unused (==_refl hashed) in
    let named = found_last (λ r. r.id == fresh) v.rows row new (==_refl fresh) in
    (
      elim (Bool-cases (leb (now + days * 24 * 3600 * 1000) later)) [
        | inl y ↦ rw (resolve_api_token, found, y) refl
        | inr ne ↦ elim (Bool-cases a.disabled) [
          | inl y ↦ rw (resolve_api_token, found, ne, there, y) refl
          | inr ne' ↦ rw (resolve_api_token, found, ne, there, ne') refl
        ]
      ],
      (
        record (create_api_token hash_token fresh account name scope days token now v) {
          rows = destroy (λ r. r.id == fresh) (v.rows ++ row ∷ []);
        },
        rw (revoke_api_token, named) refl,
        rw
            (
              resolve_api_token,
              none_left (has_hash hashed) (λ r. r.id == fresh) v.rows row unused (==_refl fresh),
            )
            refl,
      ),
    )
