-- ===== src/Session/Tests.antt =====
-- The validator over tokens that are their own claims.
use Prim.Native.String.{String}
use mono_sso.Prelude.{
  ◌≡◌, refl, sym, ap, ◌∙◌, Bool-cases, true, false, ◌==◌, string_eq, eq_iff, ◌↔◌, inl, inr, none,
  some, [], ◌∷◌,
}
use mathlib.Core.Logic.{ite, if_neg}
use native.Mathlib.Decide.{ℕ_discrete}
use mono_sso.Prelude.Int.{pos, negsuc}
use mono_sso.Oauth2.{OAuth2Jose, TokenClaims, ReadsBack}
use mono_sso.Session.Validator.{RequestSession, SessionRequestValidator, validate_session}
use mono_sso.Session.Validator.Laws.{IsAccepted, validate_session-IsAccepted}

abbrev admin_claims : TokenClaims
admin_claims = record {
  issuer = "accounts";
  subject = "root";
  audience = "manager" ∷ [];
  expiry = pos 900;
  not_before = pos 100;
  issued_at = pos 100;
  id = "";
  scope = "openid client:write";
  kid = "f1";
  tenant = "admin";
}

String-discrete : Discrete String
String-discrete s t = elim (Bool-cases (s == t)) [
  | inl e ↦ yes ((eq_iff s t).0 e)
  | inr f ↦ no (λ p. true≢false (sym ((eq_iff s t).1 p) ∙ f))
]
  where
    true≢false : true ≡ false → ⊥
    true≢false e = cc

claims-discrete : Discrete TokenClaims
claims-discrete = hlevel (ℕ_discrete, String-discrete)

-- A signer of one token.
abbrev jose : OAuth2Jose
jose = record {
  Token = Unit {0};
  fingerprint = "f1";
  parse_signed = λ text. inr tt;
  verify_claims = λ token. inr admin_claims;
  compact_serialize = λ claims. ite (claims-discrete claims admin_claims) (some "signed") none;
}

jose-ReadsBack : ReadsBack jose
jose-ReadsBack = record {
  parses = λ claims text h. elim (claims-discrete claims admin_claims) [
    | yes p ↦ (tt, refl, ap inr (sym p))
    | no n ↦
        absurd (
          none≢some (sym (if_neg (claims-discrete claims admin_claims) n (some "signed") none) ∙ h))
  ];
}
  where
    none≢some : {t : String} → none ≡ some t → ⊥
    none≢some e = cc

abbrev validator : SessionRequestValidator
validator = record {
  timestamp_past_toleration = negsuc 59_999_999_999;
  required_scopes = ("superadmin" ∷ []) ∷ ("client:write" ∷ []) ∷ [];
  allowed_tenants = "admin" ∷ [];
  audience = "manager";
  jose = jose;
}

abbrev request : RequestSession
request = record { access_token = "signed"; locale = "en-US"; timestamp = pos 150 }

validate_session-IsAccepted_example :
    (validate_session validator (pos 200_000_000_000) (some request)
      ≡ record { claims = some admin_claims; error = none })
    ↔ IsAccepted validator (pos 200_000_000_000) request admin_claims
validate_session-IsAccepted_example =
    validate_session-IsAccepted validator (pos 200_000_000_000) request admin_claims
