-- ===== src/Payments/Service/Events.antt =====
-- The events that src/modules/payments/services.py builds.
use nimbus_commerce_platform.Common.{◌≡◌, refl, String, Option, none, some}
use nimbus_commerce_platform.Messaging.Envelope.{
  Json, Fields, num, str, obj, get, content_hash, EventEnvelope,
}
use nimbus_commerce_platform.Messaging.Dict.{Distinct, or_else, get-update}
use nimbus_commerce_platform.Payments.Models.{Payment, value}
use nimbus_commerce_platform.Payments.Service.{
  Fresh, Text, base_payload, build_payment_event, build_outbox_event,
}

-- The fields of a JSON object, and none of any other value.
abbrev pub get_payload : String → Json → Option Json
get_payload k (obj d) = get k d
get_payload k _ = none

-- A key of the payload of a payment event has the value that the extra fields give it, and where
-- they give none, the value of the base payload: the extra fields override the base, the payment's
-- id and status included.
pub build_payment_event_payload :
    (x : Text) (fresh : Fresh) (payment : Payment) (event_type : String) (extra : Fields)
    (k : String)
    → Distinct extra
    → get_payload k (build_payment_event x fresh payment event_type (some extra)).payload
      ≡ or_else (get k extra) (get k (base_payload x fresh payment))
unfolding build_payment_event
build_payment_event_payload x fresh payment event_type extra k h =
    get-update k (base_payload x fresh payment) extra h

-- Without extra fields the payload names the payment and its status, amount and currency.
pub build_payment_event_base :
    (x : Text) (fresh : Fresh) (payment : Payment) (event_type : String)
    → let payload = (build_payment_event x fresh payment event_type none).payload in
      (get_payload "payment_id" payload ≡ some (str (x.str_uuid payment.id)))
      × (get_payload "status" payload ≡ some (str (value payment.status)))
      × (get_payload "amount_minor_units" payload ≡ some (num payment.amount_minor_units))
      × (get_payload "currency" payload ≡ some (str payment.currency))
unfolding build_payment_event get
build_payment_event_base x fresh payment event_type = (refl, refl, refl, refl)

-- Two rows for events with equal types, aggregates, versions and payloads have one dedupe id,
-- whatever their ids and times are.
pub build_outbox_event_dedupe :
    (x : Text) (f g : Fresh) (d e : EventEnvelope) (topic : String)
    → d.event_type ≡ e.event_type
    → d.aggregate_type ≡ e.aggregate_type
    → d.aggregate_id ≡ e.aggregate_id
    → d.schema_version ≡ e.schema_version
    → d.payload ≡ e.payload
    → (build_outbox_event x f d topic).dedupe_id ≡ (build_outbox_event x g e topic).dedupe_id
unfolding build_outbox_event content_hash
build_outbox_event_dedupe x f g d e topic p q r s t = cc
