-- ===== src/Messaging/Envelope.antt =====
-- `EventEnvelope` of src/core/messaging.py and the JSON values that its payload is made of.
-- Identifiers of type UUID are only compared and printed, so they are natural numbers; `str` of one
-- is a parameter where it is used, and so are `json.dumps` and `uuid.uuid5`, together `digest`.
use nimbus_commerce_platform.Common.{ℕ, String, Option, none, some, str_eq, if◌then◌else◌}
use nimbus_commerce_platform.Common.Int.{ℤ, pos}

-- A dict keeps its keys in the order of insertion.
mutual
  pub data Json : Type 0 where
    null : Json
    num : ℤ → Json
    str : String → Json
    obj : Fields → Json

  pub data Fields : Type 0 where
    end : Fields
    field : String → Json → Fields → Fields

-- `d[k]`, or `d.get(k)`
unfoldable pub get : String → Fields → Option Json
get k end = none
get k (field j v d) = if str_eq j k then some v else get k d

-- `d[k] = v`
unfoldable pub put : String → Json → Fields → Fields
put k v end = field k v end
put k v (field j w d) = if str_eq j k then field j v d else field j w (put k v d)

-- `d.update(e)`
unfoldable pub update : Fields → Fields → Fields
update d end = d
update d (field k v e) = update (put k v d) e

pub record EventEnvelope : Type 0 where
  pub event_id : ℕ
  pub event_type : String
  pub schema_version : ℕ
  pub aggregate_type : String
  pub aggregate_id : String
  pub correlation_id : Option String
  pub causation_id : Option ℕ
  pub occurred_at : String
  pub payload : Json

-- What `content_hash` hashes: the dict that it hands to `json.dumps`.
abbrev pub hashed_fields : EventEnvelope → Json
hashed_fields e = obj (
    field "event_type" (str e.event_type) (
      field "aggregate_type" (str e.aggregate_type) (
        field "aggregate_id" (str e.aggregate_id)
          (field "schema_version" (num (pos e.schema_version)) (field "payload" e.payload end)))))

unfoldable pub content_hash : (Json → String) → EventEnvelope → String
content_hash digest e = digest (hashed_fields e)

unfoldable pub make_dedupe_id : (Json → String) → Json → String
make_dedupe_id digest payload = digest payload
