-- ===== src/Base64/Tests.antt =====
-- The round trip at a secret of five bytes.
use mono_sso.Prelude.{◌≡◌, some, [], ◌∷◌, arith}
use mono_sso.Base64.{encode_secret, decode_secret}
use mono_sso.Base64.RoundTrip.{decode_secret-encode_secret}

decode_secret-encode_secret_example :
    decode_secret (encode_secret (104 ∷ 101 ∷ 108 ∷ 108 ∷ 255 ∷ []))
    ≡ some (104 ∷ 101 ∷ 108 ∷ 108 ∷ 255 ∷ [])
decode_secret-encode_secret_example =
    decode_secret-encode_secret (104 ∷ 101 ∷ 108 ∷ 108 ∷ 255 ∷ [])
      (omega arith, (omega arith, (omega arith, (omega arith, (omega arith, tt)))))
