-- ===== src/Cache/Purge.antt =====
-- pkg/cache/purge.go: `PurgeClientCache` and `PurgeSubjectCache`.
pub mod Laws
use Prim.Native.Char.{Char}
use mono_sso.Prelude.{
  ℕ, ◌-◌, ◌%◌, String, len, Bool, true, false, not, Option, none, some, List, [], ◌∷◌, ltb, ◌==◌,
  nat_eq, string_eq, if◌then◌else◌,
}
use mono_sso.Prelude.Int.{ℤ, pos, negsuc, ◌+ℤ◌}
use mono_sso.Cache.Redis.{Redis}
use mono_sso.Cache.Ids.{Part, str, rune, create_id}

-- The 32 bits of a two's complement number, and the number that they stand for.
abbrev bits32 : ℤ → ℕ
bits32 (pos n) = n % 4294967296
bits32 (negsuc n) = 4294967295 - n % 4294967296

-- Go's conversion to int32, which is also what an int32 sum wraps to.
unfoldable pub to_int32 : ℤ → ℤ
to_int32 z = if ltb (bits32 z) 2147483648 then pos (bits32 z) else negsuc (4294967295 - bits32 z)

module _ (redis : Redis) where
  open redis use {Store, keys, del}

  -- The results of a purge: the count, whether there is an error, and the store.
  pub record Purged : Type 0 where
    pub count : ℤ
    pub is_error : Bool
    pub store : Store

  -- One round of a purge: KEYS, and DEL of what it finds.
  pub data Round : Type 0 where
    broken : Store → Round
    nothing : Round
    deleted : ℕ → Store → Round

  abbrev pub del_found : Store → List String → Round
  del_found s [] = nothing
  del_found s (k ∷ ks) =
      let (n, s') = del s (k ∷ ks) in elim n [ none ↦ broken s' | some n ↦ deleted n s' ]

  unfoldable pub round : Store → Option String → Round
  round s none = broken s
  round s (some pattern) = elim (keys s pattern) [ none ↦ broken s | some ks ↦ del_found s ks ]

  abbrev pub code_pattern : String → String → Option String
  code_pattern prefix client = create_id prefix (str ":authc:*:" ∷ str client ∷ str ":*" ∷ [])

  abbrev pub client_token_pattern : String → String → Option String
  client_token_pattern prefix client = create_id prefix (str ":tkn:" ∷ str client ∷ str ":*" ∷ [])

  after_tokens : Store → Round → Purged
  after_tokens s (broken s') = record { count = pos 0; is_error = true; store = s' }
  after_tokens s nothing = record { count = pos 0; is_error = false; store = s }
  after_tokens s (deleted n s') = record { count = to_int32 (pos n); is_error = false; store = s' }

  after_codes : String → String → Store → Round → Purged
  unfolding after_tokens
  after_codes prefix client s (broken s') = record { count = pos 0; is_error = true; store = s' }
  after_codes prefix client s (deleted n s') = record {
    count = to_int32 (pos n);
    is_error = false;
    store = s';
  }
  after_codes prefix client s nothing =
      after_tokens s (round s (client_token_pattern prefix client))

  unfoldable pub purge_client_cache : String → Store → String → Purged
  unfolding after_codes
  purge_client_cache prefix s client =
      after_codes prefix client s (round s (code_pattern prefix client))

  -- `sessionID`, `"*"` for the empty one.
  abbrev pub session_or_any : String → String
  session_or_any session = if len session == 0 then "*" else session

  abbrev pub session_pattern : String → String → String → Option String
  session_pattern prefix session subject =
      create_id prefix (str ":sess:" ∷ str session ∷ str ":" ∷ str subject ∷ str "*" ∷ [])

  abbrev pub subject_token_pattern : String → String → Option String
  subject_token_pattern prefix subject =
      create_id prefix (str ":tkn:*:" ∷ str subject ∷ str ":*" ∷ [])

  abbrev pub activation_pattern : String → String → Option String
  activation_pattern prefix session = create_id prefix (str ":act:" ∷ str session ∷ str ":*" ∷ [])

  -- A round of `PurgeSubjectCache`, whose count goes on from `count`.
  add_round : ℤ → Store → Round → Purged
  add_round count s (broken s') = record { count = count; is_error = true; store = s' }
  add_round count s nothing = record { count = count; is_error = false; store = s }
  add_round count s (deleted n s') = record {
    count = to_int32 (count +ℤ to_int32 (pos n));
    is_error = false;
    store = s';
  }

  -- The next round, unless there was an error.
  go_on : Purged → Option String → Purged
  unfolding add_round round
  go_on p pattern = if p.is_error then p else add_round p.count p.store (round p.store pattern)

  unfoldable pub purge_subject_cache : String → Store → String → String → Purged
  unfolding go_on
  purge_subject_cache prefix s subject session =
      let sessions =
        go_on (record { count = pos 0; is_error = false; store = s })
          (session_pattern prefix (session_or_any session) subject) in
      let tokens = go_on sessions (subject_token_pattern prefix subject) in
      if not (session_or_any session == "*")
      then go_on tokens (activation_pattern prefix (session_or_any session))
      else tokens
