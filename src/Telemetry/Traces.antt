-- ===== src/Telemetry/Traces.antt =====
-- What `RequestContextMiddleware` of src/core/telemetry.py promises of a response and of its log.
use nimbus_commerce_platform.Common.{
  ℕ, String, Bool, false, ◌≡◌, refl, ap, List, [], ◌∷◌, map, arith, some,
}
use nimbus_commerce_platform.Errors.{Result, ok}
use nimbus_commerce_platform.Breaker.{Breaker}
use nimbus_commerce_platform.Payments.Lock.{Io}
use nimbus_commerce_platform.Gateway.Abuse.{SortedSets, AbuseSettings, Codec}
use nimbus_commerce_platform.Gateway.Abuse.Middleware.{json_error}
use nimbus_commerce_platform.Gateway.Abuse.Middleware as Abuse
use nimbus_commerce_platform.Telemetry.{
  HttpHeaders, LogContext, HttpResponse, HttpRequest, request_start, request_end, header,
  request_id, bind_context, clear_context, request_context, dispatch, checked, serve,
}

module _ (h : HttpHeaders) where
  -- A header that was set is read back under its name.
  pub get-set_same : (i v : String) (headers : h.Headers) → h.get i (h.set i v headers) ≡ some v
  get-set_same i v headers = ground (arith, h.get-set i i v headers, h.same_name_refl i)

  -- The other names are as they were.
  pub get-set_other :
      (i j v : String) (headers : h.Headers)
      → h.same_name i j ≡ false
      → h.get j (h.set i v headers) ≡ h.get j headers
  get-set_other i j v headers p = ground (arith, h.get-set i j v headers)

module _ (h : HttpHeaders) (l : LogContext) where
  -- What was bound before a request is not in the context of the request.
  pub request_context_clean :
      (request : HttpRequest h) (uuid : String) (c d : l.Context)
      → request_context h l request uuid c ≡ request_context h l request uuid d
  unfolding request_context bind_context clear_context
  request_context_clean request uuid c d = ap (l.bind_contextvars _) (l.clear_contextvars_same c d)

module _ (h : HttpHeaders) (l : LogContext) {S : Type 0}
    (call_next : l.Context → S → Result (HttpResponse h) × S) (request : HttpRequest h)
    (uuid : String) (s : S) where
  -- So a request is served alike in every context.
  pub dispatch_clean :
      (c d : l.Context)
      → dispatch h l call_next request uuid c s ≡ dispatch h l call_next request uuid d s
  unfolding dispatch
  dispatch_clean c d = ground (arith, request_context_clean h l request uuid c d)

  -- A response goes out with the header, and the log has two lines of it.
  pub dispatch_responds :
      (c : l.Context) (response : HttpResponse h) (s' : S)
      → call_next (request_context h l request uuid c) s ≡ (ok response, s')
      → dispatch h l call_next request uuid c s ≡ (
        ok (record response {
          headers = h.set header (request_id h request uuid) response.headers;
        }),
        (request_context h l request uuid c, request_start)
            ∷ (request_context h l request uuid c, request_end response.status_code)
            ∷ [],
        s',
      )
  unfolding dispatch
  dispatch_responds c response s' p = ground arith

module _ (h : HttpHeaders) (l : LogContext) (k : SortedSets) (x : Codec) (settings : AbuseSettings)
    (first : String → String) (json_response : ℕ → String → List (String × String) → HttpResponse h)
    {S : Type 0} (app : l.Context → S → Result (HttpResponse h) × S) where
  pub checked_turned_away :
      (has_layer : Bool) (request : HttpRequest h) (now : ℕ) (rand : String) (io : Io)
      (c : l.Context) (b b' : Breaker) (sets sets' : k.Store) (s : S) (status : ℕ) (code : String)
      (fields : List (String × String))
      → Abuse.dispatch k x settings first has_layer request.request now rand io b sets
        ≡ (ok (json_error status code fields), b', sets')
      → checked h l k x settings first json_response app has_layer request.request now rand io c
          (b, sets, s)
        ≡ (ok (json_response status code fields), (b', sets', s))
  unfolding checked
  checked_turned_away has_layer request now rand io c b b' sets sets' s status code fields p =
      ground arith

  -- A request that the abuse layer answers itself, with whatever status, leaves the state of the
  -- application as it was. The response has that status, the request's id in its header, and every
  -- other header as the layer set it; the log has a start and an end with that status. The context
  -- that the request finds makes no difference to any of it.
  pub serve_turned_away :
      (has_layer : Bool) (request : HttpRequest h) (uuid : String) (now : ℕ) (rand : String)
      (io : Io) (c d : l.Context) (b b' : Breaker) (sets sets' : k.Store) (s : S) (status : ℕ)
      (code : String) (fields : List (String × String)) (name : String)
      → Abuse.dispatch k x settings first has_layer request.request now rand io b sets
        ≡ (ok (json_error status code fields), b', sets')
      → h.same_name header name ≡ false
      → let inner = json_response status code fields in
        let (reply, lines, w) =
          serve h l k x settings first json_response app has_layer request uuid now rand io c
            (b, sets, s) in
        ((response : HttpResponse h) × (reply ≡ ok response)
          × (response.status_code ≡ inner.status_code)
          × (h.get header response.headers ≡ some (request_id h request uuid))
          × (h.get name response.headers ≡ h.get name inner.headers))
        × (map (λ p. p.1) lines ≡ request_start ∷ request_end inner.status_code ∷ [])
        × (w ≡ (b', sets', s))
        × (serve h l k x settings first json_response app has_layer request uuid now rand io c
              (b, sets, s)
            ≡ serve h l k x settings first json_response app has_layer request uuid now rand io d
                (b, sets, s))
  unfolding serve
  serve_turned_away has_layer request uuid now rand io c d b b' sets sets' s status code fields name
        p other =
      let inner = json_response status code fields in
      let id = request_id h request uuid in
      let layer =
        checked h l k x settings first json_response app has_layer request.request now rand io in
      let e =
        dispatch_responds h l layer request uuid (b, sets, s) c inner (b', sets', s)
          (checked_turned_away has_layer request now rand io (request_context h l request uuid c) b
            b' sets sets' s status code fields p) in
      (
        (
          record inner { headers = h.set header id inner.headers },
          ap (λ r. r.0) e,
          refl,
          get-set_same h header id inner.headers,
          get-set_other h header name id inner.headers other,
        ),
        ap (λ r. map (λ p. p.1) r.1) e,
        ap (λ r. r.2) e,
        dispatch_clean h l layer request uuid (b, sets, s) c d,
      )
