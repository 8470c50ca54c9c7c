-- ===== src/Gateway/Tokens/Roundtrip.antt =====
-- What becomes of a token of src/modules/gateway/security.py that is decoded again.
use nimbus_commerce_platform.Common.{ℕ, ◌≤◌, ◌≡◌, ◌≢◌, refl, String, Option, none, some, arith}
use nimbus_commerce_platform.Common.Int.{ℤ, pos, ◌+ℤ◌, ◌≤ℤ◌}
use nimbus_commerce_platform.Errors.{ok, err, token_error}
use nimbus_commerce_platform.Messaging.Envelope.{Fields, str, get}
use nimbus_commerce_platform.Messaging.Dict.{Distinct, get-update}
use nimbus_commerce_platform.Gateway.Tokens.{
  TokenType, type_value, access, refresh, JwtSettings, IsAcceptable, claims, Jwt, Casts,
  base_claims, build_payload, default_ttl, ttl_given, create_token, check_type, claims_of,
  decode_token,
}

-- Extra claims with none of the names that the payload has.
pub record IsExtra (extra : Fields) : Type 0 where
  pub distinct : Distinct extra
  pub sub : get "sub" extra ≡ none
  pub typ : get "typ" extra ≡ none
  pub iat : get "iat" extra ≡ none
  pub nbf : get "nbf" extra ≡ none
  pub exp : get "exp" extra ≡ none
  pub jti : get "jti" extra ≡ none
  pub iss : get "iss" extra ≡ none
  pub aud : get "aud" extra ≡ none

module _ (j : Jwt) (c : Casts) (settings : JwtSettings) where
  check_type-own :
      (t : TokenType) (p : Fields)
      → check_type j c settings t p (some (str (type_value t))) ≡ claims_of j c settings t p
  unfolding check_type
  check_type-own access p = refl
  check_type-own refresh p = refl

  check_type-other :
      (expected t : TokenType) (p : Fields)
      → expected ≢ t
      → check_type j c settings expected p (some (str (type_value t))) ≡ err token_error
  unfolding check_type
  check_type-other access access p ne = absurd (ne refl)
  check_type-other access refresh p ne = refl
  check_type-other refresh access p ne = refl
  check_type-other refresh refresh p ne = absurd (ne refl)

  module _ (token_type : TokenType) (made : ℕ) (jti subject : String) (ttl : Option ℤ)
      (extra : Fields) (fine : IsExtra extra) where
    abbrev lifetime : ℤ
    lifetime = ttl_given ttl (default_ttl settings token_type)

    abbrev payload : Fields
    payload = build_payload settings made jti subject token_type lifetime (some extra)

    get-payload :
        (k : String)
        → get k extra ≡ none
        → get k payload ≡ get k (base_claims settings made jti subject token_type lifetime)
    unfolding build_payload
    get-payload k absent = ground (
      arith,
      get-update k (base_claims settings made jti subject token_type lifetime) extra fine.distinct,
    )

    payload-IsAcceptable :
        (now : ℕ)
        → made ≤ now
        → pos now +ℤ pos 1 ≤ℤ pos made +ℤ lifetime
        → IsAcceptable now settings.audience settings.issuer payload
    unfolding get
    payload-IsAcceptable now begun live = record {
      sub = (subject, get-payload "sub" fine.sub);
      typ = (str (type_value token_type), get-payload "typ" fine.typ);
      jti = (jti, get-payload "jti" fine.jti);
      iat = (made, get-payload "iat" fine.iat, begun);
      nbf = (made, get-payload "nbf" fine.nbf, begun);
      exp = (pos made +ℤ lifetime, get-payload "exp" fine.exp, live);
      audience = get-payload "aud" fine.aud;
      issuer = get-payload "iss" fine.iss;
    }

    decode_payload :
        (now : ℕ)
        → made ≤ now
        → pos now +ℤ pos 1 ≤ℤ pos made +ℤ lifetime
        → j.decode now
            (j.encode payload settings.secret_key settings.algorithm)
            settings.secret_key
            settings.algorithm
            settings.audience
            settings.issuer
          ≡ claims payload
    decode_payload now begun live =
        j.decode-encode now payload settings.secret_key settings.algorithm settings.audience
          settings.issuer (payload-IsAcceptable now begun live)

    typ-payload : get "typ" payload ≡ some (str (type_value token_type))
    unfolding get
    typ-payload = get-payload "typ" fine.typ

    -- A token that was created, with extra claims of other names, and that is decoded as a token of
    -- its own type, no earlier than it was made and before it expires, gives the claims that it was
    -- created with.
    pub decode_token-create_token :
        (now : ℕ) (token : j.Token)
        → create_token j c settings token_type made jti subject ttl (some extra) ≡ ok token
        → made ≤ now
        → pos now +ℤ pos 1 ≤ℤ pos made +ℤ ttl_given ttl (default_ttl settings token_type)
        → decode_token j c settings token_type now token
          ≡ ok (record {
            subject = subject;
            token_type = token_type;
            issued_at = pos made;
            expires_at = pos made +ℤ ttl_given ttl (default_ttl settings token_type);
            jti = jti;
            issuer = settings.issuer;
            audience = settings.audience;
            raw =
                build_payload settings made jti subject token_type
                  (ttl_given ttl (default_ttl settings token_type))
                  (some extra);
          })
    unfolding create_token decode_token claims_of get
    decode_token-create_token now token h begun live = ground (
      arith,
      decode_payload now begun live,
      typ-payload,
      check_type-own token_type payload,
      get-payload "sub" fine.sub,
      get-payload "iat" fine.iat,
      get-payload "exp" fine.exp,
      get-payload "jti" fine.jti,
      get-payload "iss" fine.iss,
      get-payload "aud" fine.aud,
      c.str_of-str subject,
      c.str_of-str jti,
      c.str_of-str settings.issuer,
      c.str_of-str settings.audience,
      c.int_of-num (pos made),
      c.int_of-num (pos made +ℤ lifetime),
    )

    -- A token that was created, with extra claims of other names, and has not expired is refused as
    -- a token of the other type: a refresh token does not pass for an access token, nor the other
    -- way round.
    pub decode_token_other :
        (expected : TokenType) (now : ℕ) (token : j.Token)
        → create_token j c settings token_type made jti subject ttl (some extra) ≡ ok token
        → expected ≢ token_type
        → made ≤ now
        → pos now +ℤ pos 1 ≤ℤ pos made +ℤ ttl_given ttl (default_ttl settings token_type)
        → decode_token j c settings expected now token ≡ err token_error
    unfolding create_token decode_token
    decode_token_other expected now token h ne begun live = ground (
      arith,
      decode_payload now begun live,
      typ-payload,
      check_type-other expected token_type payload ne,
    )
