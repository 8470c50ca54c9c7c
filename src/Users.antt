-- ===== src/Users.antt =====
-- src/modules/users/models.py and src/modules/users/services.py. The table of users is a parameter,
-- and so is `strip` with `lower` on an address.
pub mod Login
use nimbus_commerce_platform.Common.{
  ℕ, ◌≡◌, String, Bool, true, false, Option, none, some, str_eq, if◌then◌else◌,
}
use nimbus_commerce_platform.Errors.{
  Result, ok, err, user_already_exists, invalid_credentials, user_not_found,
}
use nimbus_commerce_platform.Gateway.Passwords.{Hasher, hash_password, verify_password}

-- A row of users.users; the audit columns are left out.
pub record User : Type 0 where
  pub id : ℕ
  pub email : String
  pub password_hash : String

-- The table, with its unique index on the address: `insert` is `none` where the flush raises an
-- IntegrityError.
pub record UserTable : Type 1 where
  pub Store : Type 0
  pub find_by_email : Store → String → Option User
  pub find_by_id : Store → ℕ → Option User
  pub insert : Store → User → Option Store
  pub insert-taken : (s : Store) (u v : User) → find_by_email s u.email ≡ some v → insert s u ≡ none
  pub find_by_email-insert :
      (s t : Store) (u : User) (email : String)
      → insert s u ≡ some t
      → find_by_email t email ≡ (if str_eq u.email email then some u else find_by_email s email)

pub record Credentials : Type 0 where
  pub email : String
  pub password : String

module _ (hasher : Hasher) (t : UserTable) (strip_lower : String → String) where
  -- `_normalize_email`
  abbrev pub normalize_email : String → String
  normalize_email email = strip_lower email

  -- The INSERT of `create_user`.
  unfoldable pub add_user : User → t.Store → Result User × t.Store
  add_user user s = elim (t.insert s user) [
    | none ↦ (err user_already_exists, s)
    | some s' ↦ (ok user, s')
  ]

  -- `create_user` with a fresh id and salt; `others` is what other transactions commit between the
  -- SELECT and the INSERT.
  unfoldable pub create_user :
      ℕ → String → Credentials → (t.Store → t.Store) → t.Store → Result User × t.Store
  unfolding add_user
  create_user id salt request others s =
      let email = normalize_email request.email in
      elim (hash_password hasher request.password salt) [
        | err e ↦ (err e, s)
        | ok encoded ↦ elim (t.find_by_email s email) [
          | some existing ↦ (err user_already_exists, s)
          | none ↦ add_user (record { id = id; email = email; password_hash = encoded }) (others s)
        ]
      ]

  -- What `authenticate_user` makes of the check of the password.
  abbrev pub accept_user : User → Result Bool → Result User
  accept_user user (err e) = err e
  accept_user user (ok true) = ok user
  accept_user user (ok false) = err invalid_credentials

  unfoldable pub authenticate_user : Credentials → t.Store → Result User
  authenticate_user request s = elim (t.find_by_email s (normalize_email request.email)) [
    | none ↦ err invalid_credentials
    | some user ↦ accept_user user (verify_password hasher request.password user.password_hash)
  ]

  unfoldable pub get_user_by_id : ℕ → t.Store → Result User
  get_user_by_id id s = elim (t.find_by_id s id) [ none ↦ err user_not_found | some user ↦ ok user ]
