-- ===== src/Gateway/Abuse/Middleware.antt =====
-- `AbuseMiddleware` of src/modules/gateway/abuse.py: which requests are checked, and the responses.
use nimbus_commerce_platform.Common.{
  ℕ, String, Bool, ◌||◌, Option, none, some, List, [], ◌∷◌, str_eq, if◌then◌else◌,
}
use nimbus_commerce_platform.Errors.{Result, ok, err}
use nimbus_commerce_platform.Breaker.{Breaker}
use nimbus_commerce_platform.Payments.Lock.{Io}
use nimbus_commerce_platform.Gateway.Abuse.{
  SortedSets, AbuseSettings, RateLimitStatus, within, rate_limited, bypassed, Codec, check,
}

-- What the middleware reads of a request.
pub record Request : Type 0 where
  pub path : String
  pub forwarded_for : Option String
  pub user_agent : String
  pub accept_language : String
  pub client_host : Option String

-- A response of the middleware's own, or the one of the application.
pub data Response : Type 0 where
  called_next : Response
  json_error : ℕ → String → List (String × String) → Response

abbrev pub peer : Request → String
peer request = elim request.client_host [ none ↦ "unknown" | some host ↦ host ]

-- `first` is `xff.split(",", 1)[0].strip()`; an empty header counts as none.
unfoldable pub extract_client_ip : (String → String) → Request → Bool → String
extract_client_ip first request trust_forwarded_for =
    if trust_forwarded_for
    then elim request.forwarded_for [
      | none ↦ peer request
      | some xff ↦ if str_eq xff "" || str_eq (first xff) "" then peer request else first xff
    ]
    else peer request

-- Paths that are not checked.
abbrev pub is_exempt : String → Bool
is_exempt path = str_eq path "/health" || str_eq path "/ready" || str_eq path "/metrics"

-- The response to a result of the check.
unfoldable pub respond : Codec → AbuseSettings → RateLimitStatus → Response
respond x settings within = called_next
respond x settings bypassed = called_next
respond x settings rate_limited = json_error 429 "nimbus.rate_limited" (
    ("Retry-After", x.str_int settings.rate_limit_window_seconds)
    ∷ ("X-RateLimit-Limit", x.str_int settings.rate_limit_max)
    ∷ ("X-RateLimit-Remaining", "0")
    ∷ [])
respond x settings _ =
    json_error 403 "nimbus.blacklisted"
      (("Retry-After", x.str_int settings.blacklist_ttl_seconds) ∷ [])

module _ (k : SortedSets) (x : Codec) (settings : AbuseSettings) (first : String → String) where
  -- `dispatch`; `has_layer` is whether `app.state.abuse` is set.
  unfoldable pub dispatch :
      Bool → Request → ℕ → String → Io → Breaker → k.Store → Result Response × Breaker × k.Store
  unfolding check extract_client_ip respond
  dispatch has_layer request now rand io b s =
      if is_exempt request.path
      then (ok called_next, b, s)
      else (if has_layer
          then (let (r, b', s') =
                check k x settings (extract_client_ip first request settings.trust_forwarded_for)
                  request.user_agent request.accept_language "" now rand io b s in
              (
                elim r [ err e ↦ err e | ok result ↦ ok (respond x settings result.status) ],
                b',
                s',
              ))
          else (ok called_next, b, s))
