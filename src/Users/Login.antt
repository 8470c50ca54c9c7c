-- ===== src/Users/Login.antt =====
-- Who can log in under src/modules/users/services.py.
use nimbus_commerce_platform.Common.{ℕ, ◌≡◌, ◌≢◌, String, some, arith, str_eq_iff}
use nimbus_commerce_platform.Errors.{ok, err, user_already_exists, invalid_credentials}
use nimbus_commerce_platform.Gateway.Passwords.{Hasher, hash_password, verify_password}
use nimbus_commerce_platform.Users.{User, UserTable, Credentials, create_user, authenticate_user}

module _ (hasher : Hasher) (t : UserTable) (strip_lower : String → String) where
  -- A user that was created has the normalized address, a password that is not empty, the hash of
  -- the password, and stands in the table.
  created :
      (id : ℕ) (salt : String) (request : Credentials) (others : t.Store → t.Store) (s s' : t.Store)
      (user : User)
      → create_user hasher t strip_lower id salt request others s ≡ (ok user, s')
      → (request.password ≢ "")
        × (user.email ≡ strip_lower request.email)
        × (user.password_hash ≡ hasher.hash request.password salt)
        × (t.find_by_email s' (strip_lower request.email) ≡ some user)
  unfolding create_user hash_password
  created id salt request others s s' user h =
      let added : User = record {
        id = id;
        email = strip_lower request.email;
        password_hash = hasher.hash request.password salt;
      } in
      let email = strip_lower request.email in
      (
        ground (arith, str_eq_iff request.password ""),
        ground arith,
        ground arith,
        ground (arith, t.find_by_email-insert (others s) s' added email, str_eq_iff email email),
      )

  -- After a user has been created, a login under an address that normalizes to the same succeeds,
  -- with that user, for the password of the registration, and raises InvalidCredentialsError for any
  -- other password.
  pub create_user-authenticate_user :
      (id : ℕ) (salt : String) (request login : Credentials) (others : t.Store → t.Store)
      (s s' : t.Store) (user : User)
      → create_user hasher t strip_lower id salt request others s ≡ (ok user, s')
      → strip_lower login.email ≡ strip_lower request.email
      → (login.password ≡ request.password
          → authenticate_user hasher t strip_lower login s' ≡ ok user)
        × (login.password ≢ request.password
            → authenticate_user hasher t strip_lower login s' ≡ err invalid_credentials)
  unfolding authenticate_user verify_password
  create_user-authenticate_user id salt request login others s s' user h same =
      let (named, _, hashed, there) = created id salt request others s s' user h in
      let filled = hasher.hash-ne-nil request.password salt in
      let empty = str_eq_iff (hasher.hash request.password salt) "" in
      (
        λ e. ground (
          arith,
          str_eq_iff login.password "",
          empty,
          filled,
          hasher.verify-hash request.password salt,
        ),
        λ ne. ground (
          arith,
          empty,
          filled,
          hasher.verify-hash_other request.password salt login.password ne,
        ),
      )

  -- An address belongs to one user: when somebody holds it at the time of the INSERT, also by a
  -- transaction that committed in the middle of the call, a registration of it with a password that
  -- is not empty raises UserAlreadyExistsError.
  pub create_user_taken :
      (id : ℕ) (salt : String) (request : Credentials) (others : t.Store → t.Store) (s : t.Store)
      (holder : User)
      → request.password ≢ ""
      → t.find_by_email (others s) (strip_lower request.email) ≡ some holder
      → (create_user hasher t strip_lower id salt request others s).0 ≡ err user_already_exists
  unfolding create_user hash_password
  create_user_taken id salt request others s holder named taken =
      let added : User = record {
        id = id;
        email = strip_lower request.email;
        password_hash = hasher.hash request.password salt;
      } in
      ground (arith, str_eq_iff request.password "", t.insert-taken (others s) added holder)
