-- ===== src/Examples.antt =====
-- Concrete tables and keys for the parameters of the model: the properties hold of them, so their
-- hypotheses can be met. The children apply each property to a concrete input.
pub mod Sales
mod Ledger
pub mod Delivery
mod Guards
pub mod Traffic
mod Access
mod Workers
mod Seen
mod Platform
pub mod Commands
mod Requests
mod Journey
mod Checks
mod Probes
use mathlib.Core.Option
use nimbus_commerce_platform.Common.{
  ℕ, ◌≡◌, refl, String, Bool, true, false, if◌then◌else◌, Option, none, some, ◌==◌, str_eq, arith,
}
use nimbus_commerce_platform.Storage.{Table, Keys}
use nimbus_commerce_platform.Payments.Service.{Fresh, Text}
use nimbus_commerce_platform.Messaging.Envelope.{null}

abbrev insert_row :
    {Row : Type 0} → Option Row → (ℕ → Option Row) → ℕ → Row → Option (ℕ → Option Row)
insert_row none s k r = some (λ j. if j == k then some r else s j)
insert_row (some _) s k r = none

pub find-insert_row :
    {Row : Type 0} (o : Option Row) (s t : ℕ → Option Row) (k : ℕ) (r : Row) (j : ℕ)
    → insert_row o s k r ≡ some t
    → t j ≡ (if j == k then some r else s j)
find-insert_row none s t k r j h = ground arith
find-insert_row (some _) s t k r j h = absurd (ground arith)

-- A table as a function from keys to rows.
abbrev pub table : (Row : Type 0) → Table Row
table Row = record {
  Store = ℕ → Option Row;
  find = λ s k. s k;
  update = λ s k p f. (
    elim (s k) [ none ↦ 0 | some r ↦ if p r then 1 else 0 ],
    λ j. if j == k then Option.map (λ r. if p r then f r else r) (s k) else s j,
  );
  insert = λ s k r. insert_row (s k) s k r;
  update-rowcount = λ s k p f. refl;
  find-update = λ s k p f j. refl;
  find-insert = λ s t k r j h. find-insert_row (s k) s t k r j h;
}

-- A table of one row, under the key 1.
abbrev pub one_row : {Row : Type 0} → Row → ℕ → Option Row
one_row row k = if k == 1 then some row else none

-- Redis as a function from keys to values; nothing expires.
abbrev pub keys : Keys
keys = record {
  Store = String → Option String;
  get = λ s k. s k;
  set_nx = λ s k v ttl. (
    elim (s k) [ none ↦ true | some _ ↦ false ],
    λ j. elim (s k) [ none ↦ if str_eq k j then some v else s j | some _ ↦ s j ],
  );
  del = λ s k. (elim (s k) [ none ↦ 0 | some _ ↦ 1 ], λ j. if str_eq k j then none else s j);
  set_nx_done = λ s k v ttl. refl;
  get-set_nx = λ s k v ttl j. refl;
  del_count = λ s k. refl;
  get-del = λ s k j. refl;
}

abbrev pub no_keys : String → Option String
no_keys _ = none

-- The strings that a call takes from outside; one text stands for each kind.
abbrev pub text : Text
text = record { str_uuid = λ _. "uuid"; digest = λ _. "digest"; model_dump = λ _. null }

abbrev pub fresh : Fresh
fresh = record {
  event_id = 3;
  payload_time = "2026-01-01T00:00:00Z";
  envelope_time = "2026-01-01T00:00:00Z";
  row_time = 0;
  token = "token";
}
