-- ===== src/Session/Validator/Laws.antt =====
-- When `ValidateSession` accepts a request.
use mono_sso.Prelude.{
  String, subst, Option, ◌≡◌, refl, ap, ◌⊎◌, ◌↔◌, inl, inr, Bool, true, false, none, some, List, [],
  ◌∷◌, All, In, contains, fields, arith, Bool-cases,
}
use mono_sso.Prelude.Int.{ℤ, pos, ◌+ℤ◌, ◌≤ℤ◌, ◌<ℤ◌}
use mono_sso.Oauth2.{TokenClaims, Decoded, claims_of, jose_error, invalid_fingerprint, decode_jwt}
use mono_sso.Session.Validator.{
  RequestSession, SessionRequestValidator, unix, group_fails, groups_fail, is_untimely,
  validate_session, check_decoded, check_claims,
}

-- Every scope of the group is held.
abbrev pub Holds : List String → List String → Type 0
Holds held = All (λ scope. contains held scope ≡ true)

-- Some group is held whole, or none is required.
abbrev pub Suffices : List String → List (List String) → Type 0
Suffices held groups = (groups ≡ []) ⊎ ((group : List String) × In group groups × Holds held group)

group_fails-Holds : (held group : List String) → (group_fails held group ≡ false) ↔ Holds held group
unfolding group_fails
group_fails-Holds held [] = (λ _. tt, λ _. refl)
group_fails-Holds held (s ∷ group) =
    let (there, back) = group_fails-Holds held group in
    elim (Bool-cases (contains held s)) [
      | inl t ↦ (λ h. (t, there (rw t at h)), λ h. rw t (back h.1))
      | inr f ↦ (λ h. absurd (ground arith), λ h. absurd (ground arith))
    ]

groups_fail_sound :
    (held : List String) (invalid : Bool) (groups : List (List String))
    → groups_fail held invalid groups ≡ false
    → ((groups ≡ []) × (invalid ≡ false))
      ⊎ ((group : List String) × In group groups × Holds held group)
unfolding groups_fail
groups_fail_sound held invalid [] h = inl (refl, h)
groups_fail_sound held invalid (g ∷ groups) h = elim (Bool-cases (group_fails held g)) [
  | inr good ↦ inr (g, inl refl, (group_fails-Holds held g).0 good)
  | inl bad ↦ elim (groups_fail_sound held true groups (rw bad at h)) [
    | inl p ↦ absurd (ground arith)
    | inr (group, m, k) ↦ inr (group, inr m, k)
  ]
]

groups_fail_complete :
    (held : List String) (invalid : Bool) (groups : List (List String)) (group : List String)
    → In group groups
    → Holds held group
    → groups_fail held invalid groups ≡ false
unfolding groups_fail
groups_fail_complete held invalid [] group m k = absurd m
groups_fail_complete held invalid (g ∷ groups) group (inl e) k =
    rw ((group_fails-Holds held g).1 (subst (Holds held) e k))
groups_fail_complete held invalid (g ∷ groups) group (inr m) k =
    elim (Bool-cases (group_fails held g)) [
      | inl bad ↦ rw bad (groups_fail_complete held true groups group m k)
      | inr good ↦ rw good
    ]

-- The scope loop fails on no required group, or on one that is held whole, and on nothing else.
groups_fail-Suffices :
    (held : List String) (groups : List (List String))
    → (groups_fail held false groups ≡ false) ↔ Suffices held groups
unfolding groups_fail
groups_fail-Suffices held groups = (
  λ h. elim (groups_fail_sound held false groups h) [ inl p ↦ inl p.0 | inr q ↦ inr q ],
  λ x. elim x [
    | inl e ↦ rw e
    | inr (group, m, k) ↦ groups_fail_complete held false groups group m k
  ],
)

-- What an accepted request satisfies: it is not from the future, it is not older than a negative
-- tolerance, its token decodes to the claims, which are for an allowed tenant and the audience,
-- and hold all scopes of some required group, unless no group is required.
pub record IsAccepted (v : SessionRequestValidator) (now : ℤ) (req : RequestSession)
    (claims : TokenClaims) : Type 0 where
  pub not_future : req.timestamp ≤ℤ unix now
  pub not_stale :
      v.timestamp_past_toleration <ℤ pos 0
      → unix (now +ℤ v.timestamp_past_toleration) ≤ℤ req.timestamp
  pub decoded : decode_jwt v.jose req.access_token ≡ claims_of claims
  pub tenant : contains v.allowed_tenants claims.tenant ≡ true
  pub audience : contains claims.audience v.audience ≡ true
  pub scopes : Suffices (fields claims.scope) v.required_scopes

timely :
    (v : SessionRequestValidator) (now timestamp : ℤ)
    → (is_untimely v now timestamp ≡ false) ↔ (
        (timestamp ≤ℤ unix now)
        × (v.timestamp_past_toleration <ℤ pos 0
            → unix (now +ℤ v.timestamp_past_toleration) ≤ℤ timestamp))
unfolding is_untimely
timely v now timestamp = (λ h. (ground arith, λ k. ground arith), λ x. ground (arith, x.1))

accepted_claims :
    (v : SessionRequestValidator) (c claims : TokenClaims)
    → check_claims v c ≡ record { claims = some claims; error = none }
    → (c ≡ claims)
      × (contains v.allowed_tenants c.tenant ≡ true)
      × (contains c.audience v.audience ≡ true)
      × (groups_fail (fields c.scope) false v.required_scopes ≡ false)
unfolding check_claims
accepted_claims v c claims h = (ground arith, ground arith, ground arith, ground arith)

decoded_claims :
    (v : SessionRequestValidator) (d : Decoded) (claims : TokenClaims)
    → check_decoded v d ≡ record { claims = some claims; error = none }
    → (d ≡ claims_of claims)
      × (contains v.allowed_tenants claims.tenant ≡ true)
      × (contains claims.audience v.audience ≡ true)
      × (groups_fail (fields claims.scope) false v.required_scopes ≡ false)
unfolding check_decoded
decoded_claims v (jose_error e) claims h = absurd (cc)
decoded_claims v invalid_fingerprint claims h = absurd (cc)
decoded_claims v (claims_of c) claims h =
    let (e, tenant, audience, scopes) = accepted_claims v c claims h in
    (ap claims_of e, rw (← e) tenant, rw (← e) audience, rw (← e) scopes)

accepted_request :
    (v : SessionRequestValidator) (now : ℤ) (req : RequestSession) (claims : TokenClaims)
    → validate_session v now (some req) ≡ record { claims = some claims; error = none }
    → (is_untimely v now req.timestamp ≡ false)
      × (check_decoded v (decode_jwt v.jose req.access_token)
          ≡ record { claims = some claims; error = none })
unfolding validate_session
accepted_request v now req claims h = elim (Bool-cases (is_untimely v now req.timestamp)) [
  | inl bad ↦ absurd (ground arith)
  | inr good ↦ (good, rw good at h)
]

-- `ValidateSession` returns claims and no error for a request exactly when the request is accepted
-- in the sense of `IsAccepted`.
pub validate_session-IsAccepted :
    (v : SessionRequestValidator) (now : ℤ) (req : RequestSession) (claims : TokenClaims)
    → (validate_session v now (some req) ≡ record { claims = some claims; error = none })
      ↔ IsAccepted v now req claims
unfolding validate_session
validate_session-IsAccepted v now req claims = (forth, back)
  where
    forth :
        validate_session v now (some req) ≡ record { claims = some claims; error = none }
        → IsAccepted v now req claims
    forth h =
        let (good, checked) = accepted_request v now req claims h in
        let (recent, old) = (timely v now req.timestamp).0 good in
        let (decoded, tenant, audience, scopes) = decoded_claims v _ claims checked in
        record {
          not_future = recent;
          not_stale = old;
          decoded = decoded;
          tenant = tenant;
          audience = audience;
          scopes = (groups_fail-Suffices (fields claims.scope) v.required_scopes).0 scopes;
        }

    back :
        IsAccepted v now req claims
        → validate_session v now (some req) ≡ record { claims = some claims; error = none }
    back a = rw (
      (timely v now req.timestamp).1 (a.not_future, a.not_stale),
      a.decoded,
      a.tenant,
      a.audience,
      (groups_fail-Suffices (fields claims.scope) v.required_scopes).1 a.scopes,
    )

-- A token without an error comes with its claims.
checked_claims :
    (v : SessionRequestValidator) (d : Decoded)
    → (check_decoded v d).error ≡ none
    → (claims : TokenClaims) × (check_decoded v d ≡ record { claims = some claims; error = none })
unfolding check_decoded check_claims
checked_claims v (jose_error e) h = absurd (cc)
checked_claims v invalid_fingerprint h = absurd (cc)
checked_claims v (claims_of c) h = (c, ground arith)

-- A session without an error comes with its claims.
pub validated_claims :
    (v : SessionRequestValidator) (now : ℤ) (req : Option RequestSession)
    → (validate_session v now req).error ≡ none
    → (session : RequestSession) × (claims : TokenClaims) × (req ≡ some session)
      × (validate_session v now req ≡ record { claims = some claims; error = none })
unfolding validate_session
validated_claims v now none h = absurd (ground arith)
validated_claims v now (some session) h = elim (Bool-cases (is_untimely v now session.timestamp)) [
  | inl bad ↦ absurd (ground arith)
  | inr good ↦
      let (claims, e) = checked_claims v (decode_jwt v.jose session.access_token) (rw good at h) in
      (session, claims, refl, rw good e)
]
