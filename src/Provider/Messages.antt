-- ===== src/Provider/Messages.antt =====
-- pkg/session/types.go, pkg/handlers/types.go, and what the handlers of pkg/handlers write.
use mono_sso.Prelude.{ℕ, String, ◌≡◌, Bool, true, Option, some, List}
use mono_sso.Prelude.Int.{ℤ}
use mono_sso.Constants.{ResponseStatus}
use mono_sso.Datastore.{ActivationMethod}
use mono_sso.Service.Account.{SignInResponse}
use mono_sso.Service.RefreshToken.{NewRefreshTokenResponse}

-- session.AuthenticationRequest
pub record AuthenticationRequest : Type 0 where
  pub identifier : String
  pub password : String
  pub remember_me : Bool
  pub recaptcha_response : String

-- session.AuthenticationResponse
pub record AuthenticationResponse : Type 0 where
  pub challenge : String
  pub activation_method : ActivationMethod
  pub subject : String
  pub expiration : ℤ
  pub name : String

-- session.ActivateSessionRequest
pub record ActivationRequest : Type 0 where
  pub activation_code : String
  pub subject : String
  pub challenge : String

-- session.GrantScopesRequest
pub record GrantRequest : Type 0 where
  pub nonce : String
  pub subject : String
  pub granted : Bool

-- session.ExchangeResponse
pub record ExchangeResponse : Type 0 where
  pub access_token : String
  pub refresh_token : String
  pub expires_in : ℕ
  pub token_type : String

-- session.OAuth2URLQuery, where the text of the scopes is its bytes too.
pub record OAuth2UrlQuery : Type 0 where
  pub client_id : String
  pub response_type : String
  pub redirect_uri : String
  pub state : String
  pub scopes : String
  pub scopes_array : List String
  pub subject_id : String
  pub session_id : String

-- session.OAuth2DataForm
pub record OAuth2DataForm : Type 0 where
  pub client_id : String
  pub client_secret : String
  pub grant_type : String
  pub code : String
  pub redirect_uri : String
  pub refresh_token : String

-- sso.SessionSubject
pub record SessionSubject : Type 0 where
  pub authenticated_at : ℤ
  pub activated_at : ℤ
  pub expires_at : ℤ

-- SignInTemplateReplacers
pub record SignInTemplateReplacers : Type 0 where
  pub grant_nonce : String
  pub scopes : String
  pub client_name : String
  pub require_sign_in : Bool

-- What is written to a response: a literal, the JSON of a message, or the sign-in page.
pub data Content : Type 0 where
  literal : String → Content
  refused_token : NewRefreshTokenResponse → Content
  refused_sign_in : SignInResponse → Content
  refused_status : Option ResponseStatus → Content
  exchanged : ExchangeResponse → Content
  authenticated : AuthenticationResponse → Content
  -- session.ActivateSessionResponse, which is its expiration.
  activated : ℤ → Content
  page : SignInTemplateReplacers → Content

-- `proto.Marshal` of a message, and `proto.Unmarshal` into an empty one: whether it succeeds, and
-- the message as it is left.
pub record Codec (A : Type 0) : Type 0 where
  pub marshal : A → Option String
  pub unmarshal : String → Bool × A

-- A message is read back as it was written.
pub record ReadsMessage {A : Type 0} (codec : Codec A) : Type 0 where
  pub reads :
      (a : A) (text : String) → codec.marshal a ≡ some text → codec.unmarshal text ≡ (true, a)
