-- ===== src/Gateway/Passwords.antt =====
-- The passwords of src/modules/gateway/security.py; argon2 is a parameter.
use nimbus_commerce_platform.Common.{
  ◌≡◌, ◌≢◌, String, Bool, true, false, ◌||◌, str_eq, if◌then◌else◌,
}
use nimbus_commerce_platform.Errors.{Result, ok, err, password_error}

-- How `PasswordHasher.verify` ends: it returns, it raises VerifyMismatchError or VerificationError, or
-- it raises InvalidHashError.
pub data Verified : Type 0 where
  matches mismatch invalid_hash : Verified

-- argon2: a hash is taken with a salt, and verifies the password it was taken of and no other.
pub record Hasher : Type 0 where
  pub hash : String → String → String
  pub verify : String → String → Verified
  pub hash-ne-nil : (plain salt : String) → hash plain salt ≢ ""
  pub verify-hash : (plain salt : String) → verify (hash plain salt) plain ≡ matches
  pub verify-hash_other :
      (plain salt other : String) → other ≢ plain → verify (hash plain salt) other ≡ mismatch

module _ (hasher : Hasher) where
  unfoldable pub hash_password : String → String → Result String
  hash_password plain salt =
      if str_eq plain "" then err password_error else ok (hasher.hash plain salt)

  unfoldable pub verify_password : String → String → Result Bool
  verify_password plain encoded =
      if str_eq plain "" || str_eq encoded ""
      then ok false
      else elim (hasher.verify encoded plain) [
        | matches ↦ ok true
        | mismatch ↦ ok false
        | invalid_hash ↦ err password_error
      ]
