-- ===== src/Storage.antt =====
-- What the program relies on and does not implement: a database table reached by its primary key
-- (SQLAlchemy over PostgreSQL) and the string keys of Redis. Both are parameters of the model.
use nimbus_commerce_platform.Common.{
  ℕ, ◌≡◌, String, Bool, true, false, if◌then◌else◌, Option, none, some, ◌==◌, str_eq,
}
use mathlib.Core.Option
use nimbus_commerce_platform.Errors.{Exn, Result, ok, err}

-- A table of rows with a primary key, as one statement of a transaction sees and leaves it.
pub record Table (Row : Type 0) : Type 1 where
  pub Store : Type 0
  -- SELECT … WHERE id = k, and `scalar_one_or_none`
  pub find : Store → ℕ → Option Row
  -- UPDATE … SET f WHERE id = k AND p: the row count and the table after it
  pub update : Store → ℕ → (Row → Bool) → (Row → Row) → ℕ × Store
  -- INSERT at the key k; `none` is an IntegrityError
  pub insert : Store → ℕ → Row → Option Store
  pub update-rowcount :
      (s : Store) (k : ℕ) (p : Row → Bool) (f : Row → Row)
      → (update s k p f).0 ≡ elim (find s k) [ none ↦ 0 | some r ↦ if p r then 1 else 0 ]
  pub find-update :
      (s : Store) (k : ℕ) (p : Row → Bool) (f : Row → Row) (j : ℕ)
      → find (update s k p f).1 j
        ≡ (if j == k then Option.map (λ r. if p r then f r else r) (find s k) else find s j)
  pub find-insert :
      (s t : Store) (k : ℕ) (r : Row) (j : ℕ)
      → insert s k r ≡ some t
      → find t j ≡ (if j == k then some r else find s j)

-- The string keys of Redis, as one command sees and leaves them. An expired key reads as absent.
pub record Keys : Type 1 where
  pub Store : Type 0
  -- GET
  pub get : Store → String → Option String
  -- SET key value NX EX ttl: whether it was set
  pub set_nx : Store → String → String → ℕ → Bool × Store
  -- DEL: the number of keys removed
  pub del : Store → String → ℕ × Store
  pub set_nx_done :
      (s : Store) (k v : String) (ttl : ℕ)
      → (set_nx s k v ttl).0 ≡ elim (get s k) [ none ↦ true | some _ ↦ false ]
  pub get-set_nx :
      (s : Store) (k v : String) (ttl : ℕ) (j : String)
      → get (set_nx s k v ttl).1 j
        ≡ elim (get s k) [ none ↦ if str_eq k j then some v else get s j | some _ ↦ get s j ]
  pub del_count : (s : Store) (k : String) → (del s k).0 ≡ elim (get s k) [ none ↦ 0 | some _ ↦ 1 ]
  pub get-del :
      (s : Store) (k j : String) → get (del s k).1 j ≡ (if str_eq k j then none else get s j)

-- How one command to Redis fares: it is answered, or the client raises before or after the server
-- has carried it out.
pub data Link : Type 0 where
  answers : Link
  lost_request lost_reply : Exn → Link

abbrev pub ask : {S A : Type 0} → Link → (S → A × S) → S → Result A × S
ask answers command s = let (a, s') = command s in (ok a, s')
ask (lost_request e) command s = (err e, s)
ask (lost_reply e) command s = let (a, s') = command s in (err e, s')
