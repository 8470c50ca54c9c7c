-- ===== src/Lib.antt =====
-- The Nimbus Commerce Platform: a model of the parts of the service that carry its own logic, and
-- proofs about them.
--
-- The platform is a modular monolith. A client places an order (src/modules/orders/services.py), which
-- reserves stock under an optimistic lock (src/modules/inventory/services.py) and writes an event to
-- an outbox table in the same transaction. Payments (src/modules/payments/services.py) change status
-- under a Redis lock on the idempotency key and write their events to the same outbox. A worker
-- (src/workers/outbox_relay.py) claims rows of the outbox, hands them to the Kafka producer
-- (src/core/messaging.py) and marks them. The consumer of the orders
-- (src/modules/orders/consumer.py) takes the payment events and pays an order or compensates it.
-- The loop beneath it (src/core/consumer.py) skips messages that it has seen (src/core/dedupe.py). The
-- middleware of the gateway (src/modules/gateway/abuse.py) limits the rate of each client. Every command
-- to Redis goes through a circuit breaker (src/core/cache.py).
--
-- Files, and the code each one is about:
--   Common, Common/*       shared names, Boolean tests, lists and integers
--   Errors                 the exception classes as one data type, and results
--   Storage                what is asked of the database and of Redis: interfaces with laws
--   Breaker, Breaker/*     AsyncCircuitBreaker of src/core/cache.py
--   Messaging/Envelope     EventEnvelope, content_hash and make_dedupe_id of src/core/messaging.py
--   Messaging/Dict         laws of the dicts that payloads are
--   Messaging/Producer     KafkaProducer of src/core/messaging.py; its life in Producer/Lifecycle
--   Payments/Models        src/modules/payments/models.py and _validate_transition
--   Payments/Lock          acquire_idempotency_lock, release_idempotency_lock, idempotency_lock
--   Payments/Service       build_payment_event, build_outbox_event, process_payment
--   Inventory, Inventory/* reserve, release and get_stock of src/modules/inventory/services.py
--   Orders/Services        place_order and update_order_status of src/modules/orders/services.py
--   Orders/Handlers        the handlers of OrderConsumer in src/modules/orders/consumer.py
--   Relay, Relay/*         _tick, _publish_batch, _publish_one and _mark_batch of
--                          src/workers/outbox_relay.py, and its _claim_batch in Relay/Outbox
--   Saga, Saga/*           the way of a payment event through all of these: outbox, relay, Kafka,
--                          consumer, order
--   Relay/Worker           start, stop, _sleep and _run_forever of OutboxRelay
--   Consumer, Consumer/*   _handle_message and _poll_and_dispatch of src/core/consumer.py, and
--                          check_and_record of src/core/dedupe.py
--   Consumer/Worker        start, stop, _connect and _run_forever of KafkaConsumer
--   Tasks                  what the two workers use of asyncio
--   Application            the lifespan of src/main.py around the workers and the producer
--   Application/Probes     the probes /health and /ready of src/main.py
--   Telemetry, Telemetry/* RequestContextMiddleware and configure_logging of src/core/telemetry.py, and
--                          around the abuse layer and the application the stack that create_app builds
--   Responses              the classes and the handlers of src/core/exceptions.py
--   Database, Database/*   sessions, schema names and the engine of src/core/database.py; how it is
--                          built and probed in Database/Build
--   Configuration          lists, log levels and the guard of tests in src/core/config.py
--   Gateway/Abuse          the limiter of src/modules/gateway/abuse.py, with its middleware in
--                          Abuse/Middleware; proofs about the script in Abuse/Window, and about
--                          what is let through in Abuse/Limits
--   Gateway/Tokens         create_access_token, create_refresh_token and _decode of
--                          src/modules/gateway/security.py
--   Gateway/Passwords      hash_password and verify_password of the same file
--   Gateway/ApiKeys        generate_api_key of the same file
--   Users, Users/Login     src/modules/users/services.py
--   Tools/Commits          .pre-commit-hooks/conventional-commits.py
--   Tools/EnvFile          the parsers of .env files in .pre-commit-hooks/check-nimbus-env/hooks.py
--                          and scripts/check_env.py, and their audits of keys
--   Tools/Guards           the guards of scripts/check_env.py
--   Tools/Environment      its main, with the merge with the live environment, and its report
--   Tools/Secrets          the first phase of check-nimbus-env/hooks.py, and its main
--   Tools/Urls             .pre-commit-hooks/block-prod-urls.py
--   Tools/Smoke            scripts/smoke_app.py
--   Examples, Examples/*   concrete tables and keys, and every property applied to an input
--
-- How the code is modelled:
--   * A function that may raise returns a `Result` with a constructor of `Exn` for the class raised;
--     state that it changes is passed in and returned.
--   * A table is an argument of type `Table`: SELECT by the primary key, an UPDATE of one row with a
--     WHERE clause, and an INSERT, with their laws. What other transactions commit between two
--     statements of a call is an argument, a function on the table.
--   * Reservations and the attempts of `place_order` are given the object that the session holds for the
--     stock, and return it: a SELECT gives that object with the values that it has in memory, and an ORM
--     UPDATE changes it there too, whether or not it finds a row (the identity map of SQLAlchemy, and its
--     default synchronize_session). No other call reads a row again that it has changed.
--   * Redis is an argument of type `Keys`: GET, SET with NX, and DEL. A key that expires is a change
--     that others make to the store. The two Lua scripts are written out command by command; the
--     sorted sets of the limiter are an argument of type `SortedSets`.
--   * A command to Redis or Kafka can be answered, be lost before it arrives or be lost after it has been
--     carried out.
--   * create_async_engine of SQLAlchemy and the server behind a connection are arguments; times of the
--     settings that are floats are of any type, with int(seconds * 1000) as a function on it.
--   * PyJWT and argon2 are arguments, with what the code relies on as their laws.
--   * Identifiers are natural numbers that are only compared and printed. `str` of a UUID, the digest
--     behind `content_hash`, `model_dump` and the bytes of a message are arguments.
--   * Amounts, quantities and stock are integers of unbounded size, as in Python. Versions and
--     counters are natural numbers, and so are times.
--   * Every loop is over a list or has a number of rounds that the code fixes (three attempts of
--     `place_order`), so no fuel is needed. The endless loops of the two workers run over a list of
--     rounds, which says what each round meets; a run whose rounds are used up has not ended.
--   * A task that a worker starts is known by whether it runs or how it ended; `wait_for`, the
--     cancellation of a task and the stop event are values of the rounds and of the calls.
--   * A delivery of an event is one of the record that the broker stored when it acknowledged the
--     message of the event's row: the hypothesis `Stores` of Saga, which says nothing of other messages.
--   * A payload is a dict of texts, integers, nulls and further dicts, which is all that the modelled code
--     writes into one; booleans, lists and floats are left out.
--   * Each regular expression is written out as a function on code points.
--   * Text that the code walks over is a list of code points; the methods of `str` that depend on
--     Unicode (isalnum, isupper, lower, upper, the blanks that strip removes, splitlines) and
--     `urlparse` are arguments.
--
-- Not modelled: the lines that the modules log, since nothing reads them, but for those of a request;
-- connection pools, and the construction of clients and of the FastAPI application, which only calls
-- libraries; how pydantic reads the fields of the settings; the migrations, which only call alembic;
-- the protocols, which have no bodies; argparse, and the colours of what the tools print.
pub mod Common
pub mod Errors
pub mod Storage
pub mod Tasks
pub mod Breaker
pub mod Messaging
pub mod Payments
pub mod Inventory
pub mod Orders
pub mod Relay
pub mod Consumer
pub mod Gateway
pub mod Users
pub mod Saga
pub mod Application
pub mod Responses
pub mod Telemetry
pub mod Database
pub mod Configuration
pub mod Tools
pub mod Examples
