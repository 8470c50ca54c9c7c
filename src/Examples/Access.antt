-- ===== src/Examples/Access.antt =====
-- Runs of the tokens and of the users.
use nimbus_commerce_platform.Common.{
  ℕ, ◌≡◌, refl, ◌≢◌, String, Option, some, none, List, [], ◌∷◌, concat, str_eq, str_eq_iff,
  Option-cases, Bool-cases, sym, ap, ◌==◌, inl, inr, if◌then◌else◌, arith,
}
use text.Mathlib.TextLemmas.{append_cancel_left, append-eq-nil_iff}
use nimbus_commerce_platform.Common.Int.{ℤ, pos, ◌+ℤ◌}
use nimbus_commerce_platform.Errors.{Result, ok, err, token_error, invalid_credentials}
use nimbus_commerce_platform.Messaging.Envelope.{Json, Fields, num, str, end, field, get}
use nimbus_commerce_platform.Gateway.Tokens.{
  access, refresh, JwtSettings, claims, Jwt, Casts, build_payload, create_token, decode_token,
}
use nimbus_commerce_platform.Gateway.Passwords.{matches, mismatch, Hasher, hash_password}
use nimbus_commerce_platform.Users.{User, UserTable, Credentials, create_user, authenticate_user}
use nimbus_commerce_platform.Users.Login.{create_user-authenticate_user}
use nimbus_commerce_platform.Gateway.Tokens.Roundtrip.{
  IsExtra, decode_token-create_token, decode_token_other,
}

-- A signer that keeps the payload and the key.
abbrev jwt : Jwt
jwt = record {
  Token = Fields × String × String;
  encode = λ p key algorithm. (p, key, algorithm);
  decode = λ now t key algorithm aud iss. claims t.0;
  decode-encode = λ now p key algorithm aud iss h. refl;
}

abbrev text_of : Json → String
text_of (str s) = s
text_of _ = "None"

abbrev number_of : Json → Result ℤ
number_of (num z) = ok z
number_of _ = err token_error

abbrev casts : Casts
casts = record {
  str_of = text_of;
  int_of = number_of;
  str_of-str = λ s. refl;
  int_of-num = λ z. refl;
}

abbrev settings : JwtSettings
settings = record {
  secret_key = "secret";
  algorithm = "HS256";
  audience = "nimbus-api";
  issuer = "nimbus";
  access_token_ttl_seconds = pos 900;
  refresh_token_ttl_seconds = pos 86400;
}

abbrev role : Fields
role = field "role" (str "admin") end

role-IsExtra : IsExtra role
unfolding get
role-IsExtra = record {
  distinct = (refl, tt);
  sub = refl;
  typ = refl;
  iat = refl;
  nbf = refl;
  exp = refl;
  jti = refl;
  iss = refl;
  aud = refl;
}

abbrev token : Fields × String × String
token = (build_payload settings 1000 "jti" "user" access (pos 900) (some role), "secret", "HS256")

decode_token-create_token_example :
    decode_token jwt casts settings access 1500 token
    ≡ ok (record {
      subject = "user";
      token_type = access;
      issued_at = pos 1000;
      expires_at = pos 1900;
      jti = "jti";
      issuer = "nimbus";
      audience = "nimbus-api";
      raw = build_payload settings 1000 "jti" "user" access (pos 900) (some role);
    })
unfolding create_token ◌+ℤ◌
decode_token-create_token_example =
    decode_token-create_token jwt casts settings access 1000 "jti" "user" none role role-IsExtra
      1500 token refl (omega arith) (omega arith)

decode_token_other_example : decode_token jwt casts settings refresh 1500 token ≡ err token_error
unfolding create_token ◌+ℤ◌
decode_token_other_example =
    decode_token_other jwt casts settings access 1000 "jti" "user" none role role-IsExtra refresh
      1500 token refl (ground arith) (omega arith) (omega arith)

-- A hash that shows the password.
abbrev shown : String → String
shown plain = concat "hash:" plain

shown-ne-nil : (plain : String) → shown plain ≢ ""
shown-ne-nil plain e =
    ground (arith, str_eq_iff "hash:" "", (append-eq-nil_iff {p = "hash:"} {q = plain}).0 e)

shown_same :
    (plain : String) → (if str_eq (shown plain) (shown plain) then matches else mismatch) ≡ matches
shown_same plain = ground (arith, str_eq_iff (shown plain) (shown plain))

shown_other :
    (plain other : String)
    → other ≢ plain
    → (if str_eq (shown plain) (shown other) then matches else mismatch) ≡ mismatch
shown_other plain other ne = elim (Bool-cases (str_eq (shown plain) (shown other))) [
  | inl same ↦ absurd (
      ne (
        sym (
          append_cancel_left "hash:" plain other
            ((str_eq_iff (shown plain) (shown other)).0 same))))
  | inr differ ↦ ground arith
]

abbrev hasher : Hasher
hasher = record {
  hash = λ plain salt. shown plain;
  verify = λ encoded plain. if str_eq encoded (shown plain) then matches else mismatch;
  hash-ne-nil = λ plain salt. shown-ne-nil plain;
  verify-hash = λ plain salt. shown_same plain;
  verify-hash_other = λ plain salt other ne. shown_other plain other ne;
}

abbrev find : List User → String → Option User
find [] email = none
find (u ∷ s) email = if str_eq u.email email then some u else find s email

abbrev find_id : List User → ℕ → Option User
find_id [] id = none
find_id (u ∷ s) id = if u.id == id then some u else find_id s id

abbrev insert_into : List User → User → Option (List User)
insert_into s u = elim (find s u.email) [ none ↦ some (u ∷ s) | some _ ↦ none ]

insert_into_taken : (s : List User) (u v : User) → find s u.email ≡ some v → insert_into s u ≡ none
insert_into_taken s u v h = ground arith

find-insert_into :
    (s t : List User) (u : User) (email : String)
    → insert_into s u ≡ some t
    → find t email ≡ (if str_eq u.email email then some u else find s email)
find-insert_into s t u email h = elim (Option-cases (find s u.email)) [
  | inl free ↦ let e : u ∷ s ≡ t = ground arith in ap (λ r. find r email) (sym e)
  | inr (v, taken) ↦ absurd (ground arith)
]

abbrev users : UserTable
users = record {
  Store = List User;
  find_by_email = find;
  find_by_id = find_id;
  insert = insert_into;
  insert-taken = insert_into_taken;
  find_by_email-insert = find-insert_into;
}

abbrev same_address : String → String
same_address email = email

abbrev nobody : List User → List User
nobody s = s

abbrev registration : Credentials
registration = record { email = "a@b.c"; password = "secret" }

abbrev guess : Credentials
guess = record { email = "a@b.c"; password = "guess" }

abbrev member : User
member = record { id = 1; email = "a@b.c"; password_hash = "hash:secret" }

create_user-authenticate_user_example :
    (guess.password ≡ registration.password
      → authenticate_user hasher users same_address guess (member ∷ []) ≡ ok member)
    × (guess.password ≢ registration.password
        → authenticate_user hasher users same_address guess (member ∷ []) ≡ err invalid_credentials)
unfolding create_user hash_password
create_user-authenticate_user_example =
    create_user-authenticate_user hasher users same_address 1 "salt" registration guess nobody []
      (member ∷ []) member refl refl
