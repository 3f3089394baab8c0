-- ===== src/Service/RefreshToken/Refinement.antt =====
-- The token table as what each account holds for each client, and `NewRefreshToken` as a transition
-- of it.
use mono_sso.Prelude.{
  String, Bool, ◌≡◌, refl, sym, ◌∙◌, ap, ◌⊎◌, inl, inr, true, false, ◌&&◌, Option, none, some, List,
  [], ◌∷◌, map, arith, head?, select, select-append, Option-cases, Bool-cases, eq_iff, ◌==◌, nat_eq,
  string_eq, if◌then◌else◌,
}
use mathlib.Core.List.{append-nil}
use mono_sso.Prelude.Int.{ℤ, ltb_ℤ}
use mono_sso.Constants.{ResponseStatus}
use mono_sso.Datastore.{Db, TokenRow}
use mono_sso.Service.State.{State, Call, Platform}
use mono_sso.Service.RefreshToken.{
  NewRefreshTokenRequest, NewRefreshTokenResponse, new_refresh_token, is_token_of,
  select_refresh_token, is_current, replace_token, new_token_row, delete_token, expiry,
}
use mono_sso.Service.RefreshToken.Checks.{
  Outcome, reused, created, new_refresh_token-Outcome, new_refresh_token_atomic,
}
use mono_sso.Service.RefreshToken.Rotation.{live_tokens, live_tokens-replace, delete_token_miss}
use mono_sso.Service.RefreshToken.Reuse.{current-select}

-- What the specification knows of a token.
pub record LiveToken : Type 0 where
  pub id : String
  pub expires_at : ℤ

-- The token that an account holds for a client.
abbrev pub Held : Type 0
Held = String → String → Option LiveToken

abbrev pub held_of : TokenRow → LiveToken
held_of r = record { id = r.id; expires_at = r.expires_at }

abbrev pub listed : Option LiveToken → List LiveToken
listed none = []
listed (some t) = t ∷ []

-- The live tokens of the table are the ones that are held.
pub record Represents (held : Held) (db : Db) : Type 0 where
  pub rows :
      (account client : String)
      → map held_of (live_tokens account client db) ≡ listed (held account client)

abbrev pub hold : String → String → LiveToken → Held → Held
hold account client token held a c = if a == account && c == client then some token else held a c

abbrev is_fresh : ℤ → Option LiveToken → Bool
is_fresh now none = false
is_fresh now (some token) = ltb_ℤ now token.expires_at

-- The specification: a request is refused and changes nothing; or it gets the token that is held,
-- which has not run out; or there is no such token or a new one is asked for, and the new one takes
-- the place of what was held.
pub data Answers (now : ℤ) (req : NewRefreshTokenRequest) (held : Held)
    : NewRefreshTokenResponse → Held → Type 0 where
  refuses :
      {res : NewRefreshTokenResponse} (status : ResponseStatus)
      → res.status ≡ some status
      → Answers now req held res held
  hands_out :
      {res : NewRefreshTokenResponse} (token : LiveToken)
      → req.force_new ≡ false
      → held req.subject req.client_id ≡ some token
      → is_fresh now (some token) ≡ true
      → res ≡ record { status = none; refresh_token_id = token.id; expires_at = token.expires_at }
      → Answers now req held res held
  rotates :
      {res : NewRefreshTokenResponse} (token : LiveToken)
      → (req.force_new ≡ true) ⊎ (is_fresh now (held req.subject req.client_id) ≡ false)
      → res ≡ record { status = none; refresh_token_id = token.id; expires_at = token.expires_at }
      → Answers now req held res (hold req.subject req.client_id token held)

module _ (account client : String) (now : ℤ) (a c : String)
    (other : (a == account && c == client) ≡ false) where
  delete_token_keeps :
      (r : TokenRow) → is_token_of a c r ≡ true → delete_token account client now r ≡ r
  unfolding delete_token
  delete_token_keeps r t = ground (
    arith,
    eq_iff a account,
    eq_iff c client,
    eq_iff r.account_id a,
    eq_iff r.account_id account,
    eq_iff r.client_id c,
    eq_iff r.client_id client,
  )

  delete_token-select_others :
      (rows : List TokenRow)
      → select (is_token_of a c) (map (delete_token account client now) rows)
        ≡ select (is_token_of a c) rows
  delete_token-select_others [] = refl
  delete_token-select_others (r ∷ rows) = elim (Bool-cases (is_token_of a c r)) [
    | inl t ↦ rw (delete_token_keeps r t, t, delete_token-select_others rows)
    | inr f ↦
        rw (delete_token_miss account client now a c r other, f, delete_token-select_others rows)
  ]

live_tokens-replace_rows :
    (call : Call) (req : NewRefreshTokenRequest) (id : String) (expires_at : ℤ) (db : Db)
    (a c : String)
    → (a == req.subject && c == req.client_id) ≡ false
    → live_tokens a c (replace_token call req id expires_at db) ≡ live_tokens a c db
unfolding replace_token
live_tokens-replace_rows call req id expires_at db a c other =
    select-append (is_token_of a c)
      (map (delete_token req.subject req.client_id call.database_now) db.tokens)
      (new_token_row call req id expires_at ∷ [])
    ∙ rw
        (delete_token-select_others req.subject req.client_id call.database_now a c other db.tokens)
        (rw (new_other call req id expires_at a c other) (append-nil _))
  where
    new_other :
        (call : Call) (req : NewRefreshTokenRequest) (id : String) (expires_at : ℤ) (a c : String)
        → (a == req.subject && c == req.client_id) ≡ false
        → select (is_token_of a c) (new_token_row call req id expires_at ∷ []) ≡ []
    new_other call req id expires_at a c other = ground (
      arith,
      eq_iff a req.subject,
      eq_iff c req.client_id,
      eq_iff req.subject a,
      eq_iff req.client_id c,
    )

replace_token-Represents :
    (call : Call) (req : NewRefreshTokenRequest) (id : String) (expires_at : ℤ) (db : Db)
    (held : Held)
    → Represents held db
    → Represents
        (hold req.subject req.client_id (record { id = id; expires_at = expires_at }) held)
        (replace_token call req id expires_at db)
unfolding new_token_row
replace_token-Represents call req id expires_at db held same = record {
  rows = λ a c. elim (Bool-cases (a == req.subject && c == req.client_id)) [
    | inl hit ↦
        let e : a ≡ req.subject = ground (arith, eq_iff a req.subject) in
        let f : c ≡ req.client_id = ground (arith, eq_iff c req.client_id) in
        rw (hit, e, f, live_tokens-replace call req id expires_at db) refl
    | inr other ↦
        rw (other, live_tokens-replace_rows call req id expires_at db a c other) (same.rows a c)
  ];
}

-- A token in the table that has not run out is the one that is held.
current-Represents :
    (account client : String) (now : ℤ) (held : Held) (db : Db) (row : TokenRow)
    → Represents held db
    → head? (select (is_current account client now) db.tokens) ≡ some row
    → (held account client ≡ some (held_of row)) × (ltb_ℤ now row.expires_at ≡ true)
current-Represents account client now held db row same found =
    first now row (live_tokens account client db) (held account client) (same.rows account client)
      (ap head? (sym (current-select account client now db.tokens)) ∙ found)
  where
    first :
        (now : ℤ) (row : TokenRow) (rows : List TokenRow) (token : Option LiveToken)
        → map held_of rows ≡ listed token
        → head? (select (λ r. ltb_ℤ now r.expires_at) rows) ≡ some row
        → (token ≡ some (held_of row)) × (ltb_ℤ now row.expires_at ≡ true)
    first now row [] token e h = cc
    first now row (r ∷ []) none e h = cc
    first now row (r ∷ []) (some t) e h = ground arith
    first now row (r ∷ r' ∷ rows) none e h = cc
    first now row (r ∷ r' ∷ rows) (some t) e h = cc

missing-Represents :
    (account client : String) (now : ℤ) (held : Held) (db : Db)
    → Represents held db
    → head? (select (is_current account client now) db.tokens) ≡ none
    → is_fresh now (held account client) ≡ false
missing-Represents account client now held db same missing =
    none_fresh now (live_tokens account client db) (held account client) (same.rows account client)
      (ap head? (sym (current-select account client now db.tokens)) ∙ missing)
  where
    none_fresh :
        (now : ℤ) (rows : List TokenRow) (token : Option LiveToken)
        → map held_of rows ≡ listed token
        → head? (select (λ r. ltb_ℤ now r.expires_at) rows) ≡ none
        → is_fresh now token ≡ false
    none_fresh now rows none e h = refl
    none_fresh now [] (some t) e h = cc
    none_fresh now (r ∷ rows) (some t) e h = ground arith

module _ (platform : Platform) (call : Call) (req : NewRefreshTokenRequest) (s : State)
    (held : Held) (represented : Represents held s.db) where
  -- The response and the state are what the specification allows.
  abbrev pub Simulates : NewRefreshTokenResponse × State → Type 0
  Simulates r =
      (held' : Held) × Answers call.database_now req held (r.0) held' × Represents held' r.1.db

  abbrev current : Option TokenRow
  current = head? (select (is_current req.subject req.client_id call.database_now) s.db.tokens)

  rotation-Simulates :
      (r : NewRefreshTokenResponse × State)
      → Outcome platform call req s r
      → (req.force_new ≡ true) ⊎ (current ≡ none)
      → Simulates r
  rotation-Simulates r (reused row keep found e same) way = absurd (ground arith)
  rotation-Simulates r (created id fresh _ e same) way = (
    hold req.subject req.client_id (record { id = id; expires_at = expiry platform call req }) held,
    rotates (record { id = id; expires_at = expiry platform call req }) (stale way) e,
    rw same (replace_token-Represents call req id (expiry platform call req) s.db held represented),
  )
    where
      stale :
          (req.force_new ≡ true) ⊎ (current ≡ none)
          → (req.force_new ≡ true)
            ⊎ (is_fresh call.database_now (held req.subject req.client_id) ≡ false)
      stale (inl forced) = inl forced
      stale (inr missing) = inr (
          missing-Represents req.subject req.client_id call.database_now held s.db represented
            missing)

  reuse-Simulates :
      (row : TokenRow)
      → req.force_new ≡ false
      → current ≡ some row
      → (new_refresh_token platform call req s).0.status ≡ none
      → Simulates (new_refresh_token platform call req s)
  unfolding new_refresh_token select_refresh_token
  reuse-Simulates row keep found h =
      let (token, fresh) =
        current-Represents req.subject req.client_id call.database_now held s.db row represented
          found in
      let same : (new_refresh_token platform call req s).1 ≡ s = ground arith in
      (held, hands_out (held_of row) keep token fresh (ground arith), rw same represented)

  -- `NewRefreshToken` refines the specification: where a map of accounts and clients to at most one
  -- token represents the token table, the response is one that the specification allows for the
  -- map, and the map that the specification then comes to represents the table that the call
  -- leaves; whatever statement of the call fails.
  pub new_refresh_token_refines :
      (held' : Held) × Answers call.database_now req held
        (new_refresh_token platform call req s).0
        held'
      × Represents held' (new_refresh_token platform call req s).1.db
  new_refresh_token_refines = elim (Option-cases (new_refresh_token platform call req s).0.status) [
    | inr (status, e) ↦
        (held, refuses status e, rw (new_refresh_token_atomic platform call req s e) represented)
    | inl h ↦ elim (Bool-cases req.force_new) [
      | inl forced ↦
          rotation-Simulates _ (new_refresh_token-Outcome platform call req s h) (inl forced)
      | inr keep ↦ elim (Option-cases current) [
        | inl missing ↦
            rotation-Simulates _ (new_refresh_token-Outcome platform call req s h) (inr missing)
        | inr (row, found) ↦ reuse-Simulates row keep found h
      ]
    ]
  ]
