-- ===== src/Gateway/Tokens.antt =====
-- The tokens of src/modules/gateway/security.py. PyJWT and the casts of Python from decoded values are
-- parameters; times are UNIX seconds.
pub mod Roundtrip
use nimbus_commerce_platform.Common.{
  ℕ, ◌≤◌, ◌<◌, ◌≡◌, String, Bool, ◌||◌, Option, none, some, str_eq, if◌then◌else◌,
}
use nimbus_commerce_platform.Common.Int.{ℤ, pos, ◌+ℤ◌, ◌≤ℤ◌, leb_ℤ}
use nimbus_commerce_platform.Errors.{Exn, Result, ok, err, ◌>>=◌, value_error, token_error, other}
use nimbus_commerce_platform.Messaging.Envelope.{
  Json, Fields, null, num, str, obj, end, field, get, update,
}

pub data TokenType : Type 0 where
  access refresh : TokenType

abbrev pub type_value : TokenType → String
type_value access = "access"
type_value refresh = "refresh"

pub record TokenClaims : Type 0 where
  pub subject : String
  pub token_type : TokenType
  pub issued_at : ℤ
  pub expires_at : ℤ
  pub jti : String
  pub issuer : String
  pub audience : String
  pub raw : Fields

-- The fields of the settings that tokens depend on.
pub record JwtSettings : Type 0 where
  pub secret_key : String
  pub algorithm : String
  pub audience : String
  pub issuer : String
  pub access_token_ttl_seconds : ℤ
  pub refresh_token_ttl_seconds : ℤ

-- How `jwt.decode` ends.
pub data Decoded : Type 0 where
  claims : Fields → Decoded
  expired invalid_audience invalid_issuer invalid_token : Decoded

-- What `jwt.decode`, with the options that the code gives it, demands of a payload at the time `now`:
-- the required claims, times that have been reached or not, and the audience and the issuer.
pub record IsAcceptable (now : ℕ) (aud iss : String) (p : Fields) : Type 0 where
  pub sub : (s : String) × (get "sub" p ≡ some (str s))
  pub typ : (v : Json) × (get "typ" p ≡ some v)
  pub jti : (s : String) × (get "jti" p ≡ some (str s))
  pub iat : (n : ℕ) × (get "iat" p ≡ some (num (pos n))) × (n ≤ now)
  pub nbf : (n : ℕ) × (get "nbf" p ≡ some (num (pos n))) × (n ≤ now)
  pub exp : (z : ℤ) × (get "exp" p ≡ some (num z)) × (pos now +ℤ pos 1 ≤ℤ z)
  pub audience : get "aud" p ≡ some (str aud)
  pub issuer : get "iss" p ≡ some (str iss)

-- PyJWT: a payload that it signed and that meets the demands comes back. Its tokens are strings that
-- the code only hands on.
pub record Jwt : Type 1 where
  pub Token : Type 0
  pub encode : Fields → String → String → Token
  pub decode : ℕ → Token → String → String → String → String → Decoded
  pub decode-encode :
      (now : ℕ) (p : Fields) (key algorithm aud iss : String)
      → IsAcceptable now aud iss p
      → decode now (encode p key algorithm) key algorithm aud iss ≡ claims p

-- `str` and `int` of a decoded value.
pub record Casts : Type 0 where
  pub str_of : Json → String
  pub int_of : Json → Result ℤ
  pub str_of-str : (s : String) → str_of (str s) ≡ s
  pub int_of-num : (z : ℤ) → int_of (num z) ≡ ok z

abbrev pub with_claims : Option Fields → Fields → Fields
with_claims none p = p
with_claims (some extra) p = update p extra

abbrev pub base_claims : JwtSettings → ℕ → String → String → TokenType → ℤ → Fields
base_claims settings now jti subject token_type ttl_seconds = field "sub" (str subject) (
    field "typ" (str (type_value token_type)) (
      field "iat" (num (pos now)) (
        field "nbf" (num (pos now)) (
          field "exp" (num (pos now +ℤ ttl_seconds)) (
            field "jti" (str jti)
              (field "iss" (str settings.issuer) (field "aud" (str settings.audience) end)))))))

-- `_build_payload`, at the time `now` and with a fresh `jti`.
unfoldable pub build_payload :
    JwtSettings → ℕ → String → String → TokenType → ℤ → Option Fields → Fields
build_payload settings now jti subject token_type ttl_seconds extra =
    with_claims extra (base_claims settings now jti subject token_type ttl_seconds)

abbrev pub default_ttl : JwtSettings → TokenType → ℤ
default_ttl settings access = settings.access_token_ttl_seconds
default_ttl settings refresh = settings.refresh_token_ttl_seconds

abbrev pub ttl_given : Option ℤ → ℤ → ℤ
ttl_given none ttl = ttl
ttl_given (some ttl) _ = ttl

-- `decoded[key]`
abbrev pub item : String → Fields → Result Json
item key p = elim (get key p) [ none ↦ err token_error | some v ↦ ok v ]

-- A ValueError of a cast becomes a TokenError.
abbrev pub as_token_error : Result ℤ → Result ℤ
as_token_error (err value_error) = err token_error
as_token_error r = r

module _ (j : Jwt) (c : Casts) (settings : JwtSettings) where
  -- `create_access_token` and `create_refresh_token`, by the type of the token.
  unfoldable pub create_token :
      TokenType → ℕ → String → String → Option ℤ → Option Fields → Result j.Token
  unfolding build_payload
  create_token token_type now jti subject ttl_seconds extra =
      let ttl = ttl_given ttl_seconds (default_ttl settings token_type) in
      if leb_ℤ ttl (pos 0)
      then err value_error
      else ok (
          j.encode (build_payload settings now jti subject token_type ttl extra) settings.secret_key
            settings.algorithm)

  unfoldable pub claims_of : TokenType → Fields → Result TokenClaims
  claims_of token_type p = do
    sub ← item "sub" p
    iat ← item "iat" p
    issued_at ← as_token_error (c.int_of iat)
    exp ← item "exp" p
    expires_at ← as_token_error (c.int_of exp)
    jti ← item "jti" p
    iss ← item "iss" p
    aud ← item "aud" p
    ok (record {
      subject = c.str_of sub;
      token_type = token_type;
      issued_at = issued_at;
      expires_at = expires_at;
      jti = c.str_of jti;
      issuer = c.str_of iss;
      audience = c.str_of aud;
      raw = p;
    })

  -- The part of `_decode` after `jwt.decode`. A type claim that is a dict is no member that a set can
  -- be asked for: a TypeError.
  unfoldable pub check_type : TokenType → Fields → Option Json → Result TokenClaims
  unfolding claims_of
  check_type expected p (some (str t)) =
      if str_eq t "access" || str_eq t "refresh"
      then (if str_eq t (type_value expected) then claims_of expected p else err token_error)
      else err token_error
  check_type expected p (some (obj d)) = err (other 0)
  check_type expected p _ = err token_error

  -- `_decode`, and so `decode_access_token` and `decode_refresh_token`.
  unfoldable pub decode_token : TokenType → ℕ → j.Token → Result TokenClaims
  unfolding check_type
  decode_token expected now token =
      elim (j.decode now token settings.secret_key settings.algorithm settings.audience
        settings.issuer) [ claims p ↦ check_type expected p (get "typ" p) | _ ↦ err token_error ]
