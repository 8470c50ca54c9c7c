-- ===== src/Examples/Requests.antt =====
-- A request of a blacklisted client, through both middlewares.
use nimbus_commerce_platform.Common.{
  ℕ, suc, ◌≡◌, refl, String, true, if◌then◌else◌, Option, none, some, List, [], ◌∷◌, map, str_eq,
  str_eq_iff, arith,
}
use nimbus_commerce_platform.Errors.{Result, ok}
use nimbus_commerce_platform.Breaker.{call}
use nimbus_commerce_platform.Gateway.Abuse.{check, do_check, sliding_window_lua, read_answer}
use nimbus_commerce_platform.Gateway.Abuse.Middleware.{json_error, extract_client_ip, respond}
use nimbus_commerce_platform.Gateway.Abuse.Middleware as Abuse
use nimbus_commerce_platform.Telemetry.{
  HttpHeaders, LogContext, HttpResponse, HttpRequest, request_start, request_end, serve, given_or,
  request_id,
}
use nimbus_commerce_platform.Telemetry.Traces.{serve_turned_away}
use nimbus_commerce_platform.Examples.Traffic.{
  up, breaker, sets, codec, settings, whole, request, everybody_listed,
}

-- Headers as functions of their names.
same_name_self : (i : String) → str_eq i i ≡ true
same_name_self i = ground (arith, str_eq_iff i i)

abbrev http : HttpHeaders
http = record {
  Headers = String → Option String;
  get = λ i h. h i;
  set = λ i v h j. if str_eq i j then some v else h j;
  same_name = str_eq;
  same_name_refl = same_name_self;
  get-set = λ i j v h. refl;
}

-- A context as the list of what was bound.
abbrev logs : LogContext
logs = record {
  Context = List (String × Option String);
  bind_contextvars = λ kwargs c. kwargs;
  clear_contextvars = λ c. [];
  clear_contextvars_same = λ c d. refl;
}

abbrev json_response : ℕ → String → List (String × String) → HttpResponse http
json_response status code fields = record {
  status_code = status;
  headers = λ name. if str_eq name "Retry-After" then some "60" else none;
}

-- The application counts its requests.
abbrev app : List (String × Option String) → ℕ → Result (HttpResponse http) × ℕ
app c n = (ok (record { status_code = 200; headers = λ _. none }), suc n)

abbrev incoming : HttpRequest http
incoming = record { method = "GET"; headers = λ _. some "id"; request = request }

abbrev stale : List (String × Option String)
stale = ("request_id", some "old") ∷ []

turned_away :
    Abuse.dispatch sets codec settings whole true request 7 "a" up breaker everybody_listed ≡ (
      ok (json_error 403 "nimbus.blacklisted" (("Retry-After", "60") ∷ [])),
      breaker,
      everybody_listed,
    )
unfolding Abuse.dispatch check do_check sliding_window_lua read_answer respond extract_client_ip
    call
turned_away = refl

serve_turned_away_example :
    let inner = json_response 403 "nimbus.blacklisted" (("Retry-After", "60") ∷ []) in
    let (reply, lines, w) =
      serve http logs sets codec settings whole json_response app true incoming "fresh" 7 "a" up
        stale
        (breaker, everybody_listed, 4) in
    ((response : HttpResponse http) × (reply ≡ ok response)
      × (response.status_code ≡ 403)
      × (response.headers "X-Request-ID" ≡ some "id")
      × (response.headers "Retry-After" ≡ some "60"))
    × (map (λ p. p.1) lines ≡ request_start ∷ request_end 403 ∷ [])
    × (w ≡ (breaker, everybody_listed, 4))
    × (serve http logs sets codec settings whole json_response app true incoming "fresh" 7 "a" up
          stale
          (breaker, everybody_listed, 4)
        ≡ serve http logs sets codec settings whole json_response app true incoming "fresh" 7 "a" up
            []
            (breaker, everybody_listed, 4))
unfolding request_id given_or
serve_turned_away_example =
    serve_turned_away http logs sets codec settings whole json_response app true incoming "fresh" 7
      "a" up stale [] breaker breaker everybody_listed everybody_listed 4 403 "nimbus.blacklisted"
      (("Retry-After", "60") ∷ []) "Retry-After" turned_away refl
