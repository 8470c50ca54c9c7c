-- ===== src/Telemetry.antt =====
-- `RequestContextMiddleware` of src/core/telemetry.py, and the stack of the two middlewares that
-- `create_app` of src/main.py builds.
pub mod Traces
pub mod Logging
use nimbus_commerce_platform.Common.{
  ℕ, String, Bool, true, ◌≡◌, Option, none, some, List, [], ◌∷◌, str_eq, if◌then◌else◌,
}
use nimbus_commerce_platform.Errors.{Result, ok, err, is_exception}
use nimbus_commerce_platform.Breaker.{Breaker}
use nimbus_commerce_platform.Payments.Lock.{Io}
use nimbus_commerce_platform.Gateway.Abuse.{SortedSets, AbuseSettings, Codec}
use nimbus_commerce_platform.Gateway.Abuse.Middleware.{Request, Response, called_next, json_error}
use nimbus_commerce_platform.Gateway.Abuse.Middleware as Abuse

-- The headers of Starlette: an assignment replaces the value under the name, upper and lower case
-- being the same name, and leaves the other names alone.
pub record HttpHeaders : Type 1 where
  pub Headers : Type 0
  pub get : String → Headers → Option String
  pub set : String → String → Headers → Headers
  pub same_name : String → String → Bool
  pub same_name_refl : (i : String) → same_name i i ≡ true
  pub get-set :
      (i j v : String) (h : Headers)
      → get j (set i v h) ≡ (if same_name i j then some v else get j h)

-- The context variables of structlog: whatever was bound, clearing leaves the same context.
pub record LogContext : Type 1 where
  pub Context : Type 0
  pub bind_contextvars : List (String × Option String) → Context → Context
  pub clear_contextvars : Context → Context
  pub clear_contextvars_same : (c d : Context) → clear_contextvars c ≡ clear_contextvars d

pub record HttpResponse (h : HttpHeaders) : Type 0 where
  pub status_code : ℕ
  pub headers : h.Headers

pub record HttpRequest (h : HttpHeaders) : Type 0 where
  pub method : String
  pub headers : h.Headers
  pub request : Request

-- The lines of the middleware's log; the end of a request comes with its status.
pub data Event : Type 0 where
  request_start request_error : Event
  request_end : ℕ → Event

abbrev pub header : String
header = "X-Request-ID"

-- `or`: an empty header counts as none.
unfoldable pub given_or : Option String → String → String
given_or none uuid = uuid
given_or (some given) uuid = if str_eq given "" then uuid else given

module _ (h : HttpHeaders) where
  unfoldable pub request_id : HttpRequest h → String → String
  unfolding given_or
  request_id request uuid = given_or (h.get header request.headers) uuid

module _ (l : LogContext) where
  unfoldable pub bind_context : List (String × Option String) → l.Context → l.Context
  bind_context kwargs c = l.bind_contextvars kwargs c

  unfoldable pub clear_context : l.Context → l.Context
  clear_context c = l.clear_contextvars c

module _ (h : HttpHeaders) (l : LogContext) where
  -- What the lines of a request are bound to.
  unfoldable pub request_context : HttpRequest h → String → l.Context → l.Context
  unfolding request_id bind_context clear_context
  request_context request uuid c =
      bind_context l
        (("request_id", some (request_id h request uuid))
          ∷ ("method", some request.method)
          ∷ ("path", some request.request.path)
          ∷ ("client", request.request.client_host)
          ∷ [])
        (clear_context l c)

  -- `dispatch`: `call_next` runs in the bound context and may change the state; the lines come with
  -- the context that they are merged with.
  unfoldable pub dispatch :
      {S : Type 0}
      → (l.Context → S → Result (HttpResponse h) × S)
      → HttpRequest h
      → String
      → l.Context
      → S
      → Result (HttpResponse h) × List (l.Context × Event) × S
  unfolding request_context request_id
  dispatch call_next request uuid c s =
      let now = request_context request uuid c in
      let (reply, s') = call_next now s in
      elim reply [
        | err e ↦ (
          err e,
          (now, request_start) ∷ (if is_exception e then (now, request_error) ∷ [] else []),
          s',
        )
        | ok response ↦ (
          ok (record response {
            headers = h.set header (request_id h request uuid) response.headers;
          }),
          (now, request_start) ∷ (now, request_end response.status_code) ∷ [],
          s',
        )
      ]

-- The stack of `create_app`: the request context outside, the abuse layer inside it, and inside both
-- the application, which is a parameter with its state, as is the `JSONResponse` of the layer.
module _ (h : HttpHeaders) (l : LogContext) (k : SortedSets) (x : Codec) (settings : AbuseSettings)
    (first : String → String) (json_response : ℕ → String → List (String × String) → HttpResponse h)
    {S : Type 0} (app : l.Context → S → Result (HttpResponse h) × S) where
  unfoldable pub checked :
      Bool
      → Request
      → ℕ
      → String
      → Io
      → l.Context
      → Breaker × k.Store × S
      → Result (HttpResponse h) × (Breaker × k.Store × S)
  unfolding Abuse.dispatch
  checked has_layer request now rand io c (b, sets, s) =
      let (r, b', sets') = Abuse.dispatch k x settings first has_layer request now rand io b sets in
      elim r [
        | err e ↦ (err e, (b', sets', s))
        | ok response ↦ elim response [
          | called_next ↦ let (reply, s') = app c s in (reply, (b', sets', s'))
          | json_error status code headers ↦
              (ok (json_response status code headers), (b', sets', s))
        ]
      ]

  unfoldable pub serve :
      Bool
      → HttpRequest h
      → String
      → ℕ
      → String
      → Io
      → l.Context
      → Breaker × k.Store × S
      → Result (HttpResponse h) × List (l.Context × Event) × (Breaker × k.Store × S)
  unfolding dispatch checked
  serve has_layer request uuid now rand io c w =
      dispatch h l (checked has_layer request.request now rand io) request uuid c w
