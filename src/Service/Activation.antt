-- ===== src/Service/Activation.antt =====
-- cmd/sso-service/mfa.go: activation codes for accounts with a second factor.
pub mod Laws
use Prim.Native.String.{◌++◌}
use mono_sso.Prelude.{
  ℕ, ◌+◌, ◌/◌, ◌%◌, String, Bool, true, false, not, Option, none, some, List, [], ◌∷◌, ◌==◌, nat_eq,
  string_eq, if◌then◌else◌,
}
use mono_sso.Prelude.Int.{ℤ}
use mono_sso.Datastore.{ActivationMethod}
use mono_sso.Cache.Redis.{Redis, Reply, found, absent, failed}
use mono_sso.Cache.Ids.{str, rune, create_id}
use mono_sso.Service.State.{Event, info, warning, State, register_event, Platform}

-- sso.SignInRequest
pub record SignInRequest : Type 0 where
  pub identifier : String
  pub password : String
  pub user_agent : String
  pub source_ip : String
  pub client_ip : String
  pub forwarded_ips : List String
  pub session_id : String
  pub activation_code_duration : String
  pub tenant_id : String

-- sso.ActivateSessionRequest
pub record ActivateSessionRequest : Type 0 where
  pub activation_code : String
  pub subject : String
  pub user_agent : String
  pub session_id : String

-- What the codes need besides: SHA-256 in hexadecimal, the prefix of the cache's keys, and the
-- number below 999999 that `rand.Intn` yields in a call.
pub record Codes : Type 0 where
  pub sha256_hex : String → String
  pub prefix : String
  pub random : ℕ

-- `hashActivationCode`
abbrev pub hash_activation_code : Codes → String → String → String
hash_activation_code codes code user_agent = codes.sha256_hex (code ++ user_agent)

digit : ℕ → String
digit n =
    if n == 0
    then "0"
    else if n == 1
    then "1"
    else if n == 2
    then "2"
    else if n == 3
    then "3"
    else if n == 4
    then "4"
    else if n == 5
    then "5"
    else if n == 6
    then "6"
    else if n == 7
    then "7"
    else if n == 8
    then "8"
    else "9"

-- `fmt.Sprintf("%06d", n)` of a number of at most six digits.
unfoldable pub six_digits : ℕ → String
unfolding digit
six_digits n =
    digit (n / 100000)
    ++ (digit (n / 10000 % 10)
        ++ (digit (n / 1000 % 10)
            ++ (digit (n / 100 % 10) ++ (digit (n / 10 % 10) ++ digit (n % 10)))))

-- `strconv.FormatInt` of an activation method.
abbrev method_number : ActivationMethod → String
method_number ActivationMethod.none_method = "0"
method_number ActivationMethod.email = "1"
method_number ActivationMethod.sms = "2"
method_number ActivationMethod.google_authenticator = "3"
method_number ActivationMethod.webhook = "4"
method_number ActivationMethod.whatsapp = "5"

-- The two methods for which no code is sent.
abbrev pub has_no_code : ActivationMethod → Bool
has_no_code ActivationMethod.none_method = true
has_no_code ActivationMethod.google_authenticator = true
has_no_code _ = false

abbrev pub new_activation_code : Codes → String
new_activation_code codes = six_digits (codes.random + 1)

-- `ServiceCache.CreateID(":act:", sessionID, ':', hash)`
unfoldable pub activation_key : Codes → String → String → String → Option String
activation_key codes session code user_agent =
    create_id codes.prefix
      (str ":act:" ∷ str session ∷ rune ":" ∷ str (hash_activation_code codes code user_agent) ∷ [])

abbrev code_event : ActivationMethod → Codes → String → SignInRequest → Event
code_event method codes subject req = record {
  level = info;
  is_sensitive = true;
  fields =
      ("account_id", subject)
      ∷ ("user_agent", req.user_agent)
      ∷ ("session_id", req.session_id)
      ∷ ("activation_mehtod", method_number method)
      ∷ ("activation_code", new_activation_code codes)
      ∷ ("duration", req.activation_code_duration)
      ∷ [];
}

abbrev refusal_event : String → ActivateSessionRequest → Event
refusal_event subject req = record {
  level = warning;
  is_sensitive = false;
  fields =
      ("account_id", subject)
      ∷ ("user_agent", req.user_agent)
      ∷ ("session_id", req.session_id)
      ∷ [];
}

abbrev activation_event : String → ActivateSessionRequest → Event
activation_event subject req = record {
  level = info;
  is_sensitive = true;
  fields =
      ("account_id", subject)
      ∷ ("user_agent", req.user_agent)
      ∷ ("session_id", req.session_id)
      ∷ ("code", req.activation_code)
      ∷ [];
}

module _ (redis : Redis) where
  open redis use {Store, of_text, to_text, take, exec_fails, set}

  -- The service with its cache.
  pub record Cached : Type 0 where
    pub service : State
    pub store : Store

  abbrev log : Event → Cached → Cached
  log e s = record s { service = register_event e s.service }

  store_code : String → Option String → Option ℤ → Cached → Bool × Cached
  store_code subject key none s = (false, s)
  store_code subject none (some expiration) s = (false, s)
  store_code subject (some key) (some expiration) s =
      let (done, store) = set s.store key (of_text subject) expiration in
      (done, record s { store = store })

  -- `generateActivationCode`: whether it returns without an error.
  unfoldable pub generate_activation_code :
      Platform → Codes → ActivationMethod → String → SignInRequest → Cached → Bool × Cached
  unfolding store_code
  generate_activation_code platform codes method subject req s =
      if has_no_code method
      then (true, s)
      else store_code subject
          (activation_key codes req.session_id (new_activation_code codes) req.user_agent)
          (platform.parse_duration req.activation_code_duration)
          (log (code_event method codes subject req) s)

  -- The two results of `validateActivationCode`.
  pub record Validity : Type 0 where
    pub valid : Bool
    pub is_error : Bool

  check_subject : ActivateSessionRequest → Reply redis.Value → Cached → Validity × Cached
  check_subject req absent s =
      (record { valid = false; is_error = false }, log (refusal_event "" req) s)
  check_subject req failed s =
      (record { valid = false; is_error = false }, log (refusal_event "" req) s)
  check_subject req (found v) s =
      if not (to_text v == req.subject)
      then (record { valid = false; is_error = false }, log (refusal_event (to_text v) req) s)
      else (record { valid = true; is_error = false }, log (activation_event (to_text v) req) s)

  take_code : ActivateSessionRequest → Option String → Cached → Option (Validity × Cached)
  unfolding check_subject
  take_code req none s = some (record { valid = false; is_error = true }, s)
  take_code req (some key) s =
      if exec_fails s.store key
      then none
      else let (reply, store) = take s.store key in
        some (check_subject req reply (record s { store = store }))

  -- `validateActivationCode`; `none` is the exit of the process by `log.Fatalf`.
  unfoldable pub validate_activation_code :
      Codes → ActivateSessionRequest → Cached → Option (Validity × Cached)
  unfolding take_code
  validate_activation_code codes req s =
      take_code req (activation_key codes req.session_id req.activation_code req.user_agent) s
