-- ===== src/Examples/Traffic.antt =====
-- Runs of the consumer loop and of the abuse protection.
use nimbus_commerce_platform.Common.{
  ℕ, ◌+◌, ◌≡◌, refl, ◌≢◌, String, Bool, true, false, if◌then◌else◌, none, some, List, [], ◌∷◌,
  length, str_eq, str_eq_iff, arith,
}
use nimbus_commerce_platform.Common.Int.{◌-ℤ◌}
use nimbus_commerce_platform.Errors.{ok, err, runtime_error}
use nimbus_commerce_platform.Storage.{answers}
use nimbus_commerce_platform.Breaker.{Breaker, closed, call}
use nimbus_commerce_platform.Messaging.Envelope.{EventEnvelope, null, content_hash}
use nimbus_commerce_platform.Payments.Lock.{Io}
use nimbus_commerce_platform.Consumer.{
  ConsumerRecord, Delivery, World, KafkaConsumer, check_and_record, run_handler, handle_envelope,
  handle_message,
}
use nimbus_commerce_platform.Consumer.Redelivery.{Delivers, handle_message_redelivered}
use nimbus_commerce_platform.Gateway.Abuse.{
  drop_until, without, SortedSets, AbuseSettings, Codec, add_request, sliding_window_lua,
  compute_fingerprint,
}
use nimbus_commerce_platform.Gateway.Abuse.Middleware.{
  Request, json_error, dispatch, extract_client_ip,
}
use nimbus_commerce_platform.Gateway.Abuse.Window.{requests}
use nimbus_commerce_platform.Gateway.Abuse.Limits.{fingerprint_of, dispatch_limits}
use nimbus_commerce_platform.Examples.{keys, no_keys}

abbrev pub breaker : Breaker
breaker = record {
  fail_max = 5;
  reset_timeout = 30;
  state = closed;
  failure_count = 0;
  opened_at = none;
}

abbrev pub up : Io
up = record { now = 10; done = 11; link = answers }

abbrev envelope : EventEnvelope
envelope = record {
  event_id = 3;
  event_type = "payments.payment_captured";
  schema_version = 1;
  aggregate_type = "Payment";
  aggregate_id = "1";
  correlation_id = none;
  causation_id = none;
  occurred_at = "2026-01-01T00:00:00Z";
  payload = null;
}

-- A handler that counts, and one that raises; every value is the one envelope.
abbrev pub counting : KafkaConsumer ℕ
counting = record {
  has_dedupe = true;
  has_session_factory = true;
  handlers = λ topic event_type. some (λ e n. (ok tt, n + 1));
  from_bytes = λ _. some envelope;
  digest = λ _. "digest";
}

abbrev raising : KafkaConsumer ℕ
raising = record counting {
  handlers = λ topic event_type. some (λ e n. (err runtime_error, n + 1));
}

abbrev message : ℕ → ConsumerRecord
message offset = record { topic = "payments.events"; offset = offset; value = some "bytes" }

abbrev pub delivery : ℕ → Delivery
delivery offset = record { message = message offset; io = up; opened = ok tt; commit = ok tt }

abbrev pub start : World keys ℕ
start = record { breaker = breaker; keys = no_keys; db = 0 }

pub differ : (a b : String) → str_eq a b ≡ false → a ≢ b
differ a b h = ground (arith, str_eq_iff a b)

delivers :
    (c : KafkaConsumer ℕ) (n : ℕ)
    → c.has_dedupe ≡ true
    → c.from_bytes "bytes" ≡ some envelope
    → content_hash c.digest envelope ≢ ""
    → Delivers keys c envelope (delivery n) "bytes"
delivers c n ready parsed named = record {
  ready = ready;
  value = refl;
  parsed = parsed;
  named = named;
  up = refl;
}

handle_message_redelivered_example :
    ((handle_message keys raising (delivery 7) start).1.db ≡ 0)
    × ((handle_message keys raising
          (delivery 7)
          (handle_message keys raising (delivery 7) start).1).0
        ≡ ok tt)
    × ((handle_message keys raising
          (delivery 7)
          (handle_message keys raising (delivery 7) start).1).1.db
        ≡ 0)
unfolding handle_message handle_envelope check_and_record run_handler content_hash call
handle_message_redelivered_example =
    handle_message_redelivered keys raising envelope (delivery 7) (delivery 7) "bytes" "bytes" start
      (handle_message keys raising (delivery 7) start).1 runtime_error
      (delivers raising 7 refl refl (differ "digest" "" refl))
      (delivers raising 7 refl refl (differ "digest" "" refl)) refl refl refl

abbrev failed_first : World keys ℕ
failed_first = (handle_message keys raising (delivery 7) start).1

-- The sorted sets and the flags of Redis as functions of the key.
abbrev pub put_set :
    (String → List (ℕ × String)) × (String → Bool)
    → String
    → List (ℕ × String)
    → (String → List (ℕ × String)) × (String → Bool)
put_set (sets, flags) k members = (λ j. if str_eq k j then members else sets j, flags)

pub put_set_self :
    (s : (String → List (ℕ × String)) × (String → Bool)) (k : String) (members : List (ℕ × String))
    → (put_set s k members).0 k ≡ members
put_set_self s k members = ground (arith, str_eq_iff k k)

pub set_flag_self :
    (flags : String → Bool) (k : String) → (if str_eq k k then true else flags k) ≡ true
set_flag_self flags k = ground (arith, str_eq_iff k k)

abbrev pub sets : SortedSets
sets = record {
  Store = (String → List (ℕ × String)) × (String → Bool);
  members = λ s k. s.0 k;
  exists = λ s k. s.1 k;
  zremrangebyscore = λ s k limit. put_set s k (drop_until limit (s.0 k));
  zadd = λ s k score m. put_set s k ((score, m) ∷ without m (s.0 k));
  expire = λ s k seconds. s;
  zcard = λ s k. length (s.0 k);
  set_ex = λ s k v seconds. (s.0, λ j. if str_eq k j then true else s.1 j);
  zcard-members = λ s k. refl;
  members-zremrangebyscore = λ s k limit. put_set_self s k (drop_until limit (s.0 k));
  members-zadd = λ s k score m. put_set_self s k ((score, m) ∷ without m (s.0 k));
  members-expire = λ s k seconds. refl;
  members-set_ex = λ s k v seconds j h. refl;
  exists-zremrangebyscore = λ s k limit j h. refl;
  exists-zadd = λ s k score m j h. refl;
  exists-expire = λ s k seconds j h. refl;
  exists-set_ex = λ s k v seconds. set_flag_self s.1 k;
}

abbrev nothing : (String → List (ℕ × String)) × (String → Bool)
nothing = (λ _. [], λ _. false)

abbrev pub everybody_listed : (String → List (ℕ × String)) × (String → Bool)
everybody_listed = (λ _. [], λ _. true)

abbrev pub codec : Codec
codec = record { str_int = λ _. "60"; tostring = λ _. "time"; sha256 = λ s. s }

-- Two requests in a minute.
abbrev pub settings : AbuseSettings
settings = record {
  rate_limit_window_seconds = 60;
  rate_limit_max = 2;
  blacklist_threshold = 4;
  blacklist_ttl_seconds = 3600;
  trust_forwarded_for = false;
}

abbrev pub whole : String → String
whole s = s

abbrev pub request : Request
request = record {
  path = "/orders";
  forwarded_for = none;
  user_agent = "curl";
  accept_language = "de";
  client_host = some "10.0.0.1";
}

abbrev client : String
client = fingerprint_of sets codec settings whole request

abbrev history : List (ℕ × String)
history = (2000000, "c") ∷ (1000000, "b") ∷ []

dispatch_limits_example :
    (dispatch sets codec settings whole true request 3000000 "a" up breaker
      (requests sets codec settings client history nothing)).0
    ≡ ok (
        json_error 429 "nimbus.rate_limited" (
          ("Retry-After", "60")
          ∷ ("X-RateLimit-Limit", "60")
          ∷ ("X-RateLimit-Remaining", "0")
          ∷ []))
unfolding sliding_window_lua add_request extract_client_ip compute_fingerprint ◌-ℤ◌
dispatch_limits_example =
    dispatch_limits sets codec settings whole request history nothing 3000000 "a" up breaker refl
      refl refl
      (
        (
          (omega arith, differ "time:c" "time:a" refl),
          ((omega arith, differ "time:b" "time:a" refl), tt),
        ),
        (((omega arith, differ "time:b" "time:c" refl), tt), (tt, tt)),
      )
      refl refl
