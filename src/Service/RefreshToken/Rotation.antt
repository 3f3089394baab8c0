-- ===== src/Service/RefreshToken/Rotation.antt =====
-- The live refresh tokens of an account for a client, and what the calls make of them.
use mono_sso.Prelude.{
  String, ◌≡◌, refl, ◌∙◌, ◌⊎◌, inl, inr, true, false, ◌&&◌, none, List, [], ◌∷◌, map, arith, length,
  length-append, head?, select, select-append, Option-cases, Bool-cases, eq_iff, ◌==◌, nat_eq,
  string_eq, ◌≤◌,
}
use mono_sso.Prelude.Int.{ℤ}
use mono_sso.Datastore.{Db, TokenRow}
use mono_sso.Service.State.{State, Call, Platform}
use mono_sso.Service.RefreshToken.{
  NewRefreshTokenRequest, new_refresh_token, is_token_of, is_current, replace_token, new_token_row,
  delete_token, expiry, NewRefreshTokenResponse,
}
use mono_sso.Service.RefreshToken.Checks.{
  Outcome, reused, created, new_refresh_token-Outcome, new_refresh_token_atomic,
}

-- The live refresh tokens of an account for a client.
abbrev pub live_tokens : String → String → Db → List TokenRow
live_tokens account client db = select (is_token_of account client) db.tokens

-- No account has two live refresh tokens for one client.
pub record IsSingle (db : Db) : Type 0 where
  pub at_most_one : (account client : String) → length (live_tokens account client db) ≤ 1

module _ (account client : String) (now : ℤ) where
  -- The UPDATE deletes all of the pair's tokens, and none of another pair's.
  delete_token_hit :
      (r : TokenRow) → is_token_of account client (delete_token account client now r) ≡ false
  unfolding delete_token
  delete_token_hit r = ground arith

  pub delete_token_miss :
      (a c : String) (r : TokenRow)
      → (a == account && c == client) ≡ false
      → is_token_of a c (delete_token account client now r) ≡ is_token_of a c r
  unfolding delete_token
  delete_token_miss a c r h = ground (
    arith,
    eq_iff a account,
    eq_iff c client,
    eq_iff r.account_id a,
    eq_iff r.account_id account,
    eq_iff r.client_id c,
    eq_iff r.client_id client,
  )

  delete_token-select_hit :
      (rows : List TokenRow)
      → select (is_token_of account client) (map (delete_token account client now) rows) ≡ []
  delete_token-select_hit [] = refl
  delete_token-select_hit (r ∷ rows) = rw (delete_token_hit r) (delete_token-select_hit rows)

  delete_token-select_miss :
      (a c : String) (rows : List TokenRow)
      → (a == account && c == client) ≡ false
      → length (select (is_token_of a c) (map (delete_token account client now) rows))
        ≡ length (select (is_token_of a c) rows)
  delete_token-select_miss a c [] h = refl
  delete_token-select_miss a c (r ∷ rows) h =
      rw (delete_token_miss a c r h) (ground (arith, delete_token-select_miss a c rows h))

-- The new token is the only live one of its pair.
pub live_tokens-replace :
    (call : Call) (req : NewRefreshTokenRequest) (id : String) (expires_at : ℤ) (db : Db)
    → live_tokens req.subject req.client_id (replace_token call req id expires_at db)
      ≡ new_token_row call req id expires_at ∷ []
unfolding replace_token
live_tokens-replace call req id expires_at db =
    select-append (is_token_of req.subject req.client_id)
      (map (delete_token req.subject req.client_id call.database_now) db.tokens)
      (new_token_row call req id expires_at ∷ [])
    ∙ rw (delete_token-select_hit req.subject req.client_id call.database_now db.tokens)
        (new_only call req id expires_at)
  where
    new_only :
        (call : Call) (req : NewRefreshTokenRequest) (id : String) (expires_at : ℤ)
        → select (is_token_of req.subject req.client_id) (new_token_row call req id expires_at ∷ [])
          ≡ new_token_row call req id expires_at ∷ []
    new_only call req id expires_at =
        ground (arith, eq_iff req.subject req.subject, eq_iff req.client_id req.client_id)

-- The tokens of another pair stay as many as they were.
live_tokens-replace_others :
    (call : Call) (req : NewRefreshTokenRequest) (id : String) (expires_at : ℤ) (db : Db)
    (a c : String)
    → (a == req.subject && c == req.client_id) ≡ false
    → length (live_tokens a c (replace_token call req id expires_at db))
      ≡ length (live_tokens a c db)
unfolding replace_token
live_tokens-replace_others call req id expires_at db a c other =
    rw
      (select-append (is_token_of a c)
        (map (delete_token req.subject req.client_id call.database_now) db.tokens)
        (new_token_row call req id expires_at ∷ []))
      (ground (
        arith,
        length-append
            (select (is_token_of a c)
              (map (delete_token req.subject req.client_id call.database_now) db.tokens))
            (select (is_token_of a c) (new_token_row call req id expires_at ∷ [])),
        delete_token-select_miss req.subject req.client_id call.database_now a c db.tokens other,
        eq_iff a req.subject,
        eq_iff c req.client_id,
        eq_iff req.subject a,
        eq_iff req.client_id c,
      ))

replace_token-IsSingle :
    (call : Call) (req : NewRefreshTokenRequest) (id : String) (expires_at : ℤ) (db : Db)
    → IsSingle db
    → IsSingle (replace_token call req id expires_at db)
replace_token-IsSingle call req id expires_at db single = record {
  at_most_one = λ a c. elim (Bool-cases (a == req.subject && c == req.client_id)) [
    | inl same ↦
        let e : a ≡ req.subject = ground (arith, eq_iff a req.subject) in
        let f : c ≡ req.client_id = ground (arith, eq_iff c req.client_id) in
        rw (e, f, live_tokens-replace call req id expires_at db) (omega arith)
    | inr other ↦
        rw (live_tokens-replace_others call req id expires_at db a c other) (single.at_most_one a c)
  ];
}

Outcome-IsSingle :
    (platform : Platform) (call : Call) (req : NewRefreshTokenRequest) (s : State)
    (r : NewRefreshTokenResponse × State)
    → Outcome platform call req s r
    → IsSingle s.db
    → IsSingle r.1.db
Outcome-IsSingle platform call req s r (reused row keep found e same) single = rw same single
Outcome-IsSingle platform call req s r (created id fresh way e same) single =
    rw same (replace_token-IsSingle call req id (expiry platform call req) s.db single)

-- Whatever its result, `NewRefreshToken` keeps at most one live refresh token for each account and
-- client.
pub new_refresh_token-IsSingle :
    (platform : Platform) (call : Call) (req : NewRefreshTokenRequest) (s : State)
    → IsSingle s.db
    → IsSingle (new_refresh_token platform call req s).1.db
new_refresh_token-IsSingle platform call req s single =
    elim (Option-cases (new_refresh_token platform call req s).0.status) [
      | inl e ↦
          Outcome-IsSingle platform call req s _ (new_refresh_token-Outcome platform call req s e)
            single
      | inr (status, e) ↦ rw (new_refresh_token_atomic platform call req s e) single
    ]

-- A new token rotates out the others: when the call did not reuse a token, the live refresh tokens
-- of the subject for the client are that one.
pub new_refresh_token_rotates :
    (platform : Platform) (call : Call) (req : NewRefreshTokenRequest) (s : State)
    → (new_refresh_token platform call req s).0.status ≡ none
    → (req.force_new ≡ true)
      ⊎ (head? (select (is_current req.subject req.client_id call.database_now) s.db.tokens) ≡ none)
    → let (res, s') = new_refresh_token platform call req s in
      live_tokens req.subject req.client_id s'.db
      ≡ new_token_row call req res.refresh_token_id res.expires_at ∷ []
new_refresh_token_rotates platform call req s h way =
    rotated _ (new_refresh_token-Outcome platform call req s h)
  where
    rotated :
        (r : NewRefreshTokenResponse × State)
        → Outcome platform call req s r
        → live_tokens req.subject req.client_id r.1.db
          ≡ new_token_row call req r.0.refresh_token_id r.0.expires_at ∷ []
    rotated r (reused row keep found e same) = absurd (ground arith)
    rotated r (created id fresh _ e same) =
        rw (same, e) (live_tokens-replace call req id (expiry platform call req) s.db)
