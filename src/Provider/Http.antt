-- ===== src/Provider/Http.antt =====
-- pkg/http-server/http-server.go, and what the handlers of pkg/handlers use of net/http: the
-- request as its parts, and the response with the pieces written to it.
use Prim.Native.Char.{Char, code}
use mono_sso.Prelude.{
  ℕ, String, len, ◌≡◌, ◌⊎◌, inl, inr, refl, Bool, true, false, ◌&&◌, Option, none, some, List, [],
  ◌∷◌, ltb, ◌==◌, nat_eq, string_eq, if◌then◌else◌,
}
use mono_sso.Prelude.Int.{ℤ}
use mono_sso.Prelude.Flow.{Flow, return, next}
use mono_sso.Constants.{internal_error_response, invalid_payload_response}

-- The result of `r.Cookie`: the value of the cookie, `http.ErrNoCookie`, or another error.
pub data CookieReply : Type 0 where
  cookie_value : String → CookieReply
  no_cookie unreadable_cookie : CookieReply

pub CookieReply-cases :
    (c : CookieReply)
    → ((value : String) × (c ≡ cookie_value value)) ⊎ ((c ≡ no_cookie) ⊎ (c ≡ unreadable_cookie))
CookieReply-cases (cookie_value value) = inl (value, refl)
CookieReply-cases no_cookie = inr (inl refl)
CookieReply-cases unreadable_cookie = inr (inr refl)

-- `r.URL.Query().Get`, `r.Form.Get` after `ParseForm`, `r.Header.Get`, `r.Cookie`, and the host
-- that `net.SplitHostPort` finds in `r.RemoteAddr`, `none` for an error.
pub record HttpRequest : Type 0 where
  pub query_value : String → String
  pub form_value : String → String
  pub header : String → String
  pub cookie : String → CookieReply
  pub remote_host : Option String

-- The body of a request as JSON: it cannot be read, does not decode, or decodes.
pub data JsonBody (A : Type 0) : Type 0 where
  unreadable malformed : JsonBody A
  decoded : A → JsonBody A

-- http.Cookie; each is for HTTPS only, with SameSite=Lax.
pub record Cookie : Type 0 where
  pub name : String
  pub value : String
  pub domain : String
  pub path : String
  pub http_only : Bool
  pub expires : Option ℤ

-- An http.ResponseWriter: the status once it is written, the headers, and the pieces of the body.
-- A redirect is to a URL with the parameters that its fragment encodes.
pub record Response (Content : Type 0) : Type 0 where
  pub status : Option ℕ
  pub is_json : Bool
  pub cookies : List Cookie
  pub location : Option (String × List (String × String))
  pub body : List Content

-- HTTPClientIPs
pub record HttpClientIps : Type 0 where
  pub client_ip : String
  pub source_ip : String
  pub forwarded_ips : List String

abbrev pub loopback : String → String
loopback ip = if ip == "::1" then "127.0.0.1" else ip

abbrev first_char : Char → List String → List String
first_char c [] = (String.◌∷◌ c String.[]) ∷ []
first_char c (word ∷ words) = (String.◌∷◌ c word) ∷ words

abbrev skip_char : List String → List String
skip_char [] = []
skip_char (String.[] ∷ words) = String.[] ∷ words
skip_char ((String.◌∷◌ c word) ∷ words) = word ∷ words

abbrev is_spaced : String → Bool
is_spaced String.[] = false
is_spaced (String.◌∷◌ c s) = code c == b' '

-- `strings.Split` at `", "`.
unfoldable pub split_ips : String → List String
split_ips String.[] = "" ∷ []
split_ips (String.◌∷◌ c s) =
    let rest = split_ips s in
    if code c == b',' && is_spaced s then "" ∷ skip_char rest else first_char c rest

-- `strings.Split` never returns an empty slice.
abbrev with_forwarded : String → List String → HttpClientIps
with_forwarded ip [] = record { client_ip = ip; source_ip = ip; forwarded_ips = [] }
with_forwarded ip (first ∷ rest) = record {
  client_ip = ip;
  source_ip = loopback first;
  forwarded_ips = loopback first ∷ rest;
}

-- `ClientIPsFromRequest`
unfoldable pub client_ips_from_request : HttpRequest → Option HttpClientIps
unfolding split_ips
client_ips_from_request r = elim r.remote_host [
  | none ↦ none
  | some host ↦
      let ip = loopback host in
      some (
        if ltb 0 (len (r.header "X-Forwarded-For"))
        then with_forwarded ip (split_ips (r.header "X-Forwarded-For"))
        else record { client_ip = ip; source_ip = ip; forwarded_ips = [] })
]

module _ {C : Type 0} where
  abbrev pub fresh : Response C
  fresh = record { status = none; is_json = false; cookies = []; location = none; body = [] }

  -- `w.Header().Set("Content-Type", "application/json")`, before the status is written.
  abbrev pub as_json : Response C → Response C
  as_json w = record w { is_json = true }

  -- `w.WriteHeader`: only the first status counts.
  abbrev pub write_header : ℕ → Response C → Response C
  write_header n w = elim w.status [ none ↦ record w { status = some n } | some m ↦ w ]

  -- `w.Write`, which writes the status 200 where none is.
  abbrev pub write : C → Response C → Response C
  write c w =
      let w' = write_header 200 w in record w' { body = mathlib.Core.List.◌++◌ w.body (c ∷ []) }

  abbrev pub answer : ℕ → C → Response C → Response C
  answer n c w = write c (write_header n w)

  -- `http.SetCookie`: headers that are set after the status is written are not sent.
  abbrev pub set_cookie : Cookie → Response C → Response C
  set_cookie c w = elim w.status [
    | none ↦ record w { cookies = mathlib.Core.List.◌++◌ w.cookies (c ∷ []) }
    | some n ↦ w
  ]

  -- `http.Redirect` with the status 302, less the short text that it writes.
  abbrev pub redirect : String → List (String × String) → Response C → Response C
  redirect url parameters w = write_header 302 (record w { location = some (url, parameters) })

  -- `ReadJSONRequestBody`, where the literals are contents.
  unfoldable pub read_json_request_body :
      {A : Type 0} (literal : String → C)
      → JsonBody A
      → Response C
      → Flow (Response C) (A × Response C)
  read_json_request_body literal unreadable w =
      return (answer 500 (literal internal_error_response) (as_json w))
  read_json_request_body literal malformed w =
      return (answer 400 (literal invalid_payload_response) (as_json w))
  read_json_request_body literal (decoded a) w = next (a, as_json w)

split_two : split_ips "192.0.2.1, ::1,x" ≡ "192.0.2.1" ∷ "::1,x" ∷ []
unfolding split_ips
split_two = refl
