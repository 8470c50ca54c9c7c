-- ===== src/Gateway/Abuse/Limits.antt =====
-- Which requests the middleware of src/modules/gateway/abuse.py lets through.
use nimbus_commerce_platform.Common.{
  ℕ, suc, Bool, ◌+◌, ◌<◌, ◌≡◌, String, true, false, some, List, [], ◌∷◌, ltb, arith, if◌then◌else◌,
}
use nimbus_commerce_platform.Errors.{ok}
use nimbus_commerce_platform.Storage.{answers}
use nimbus_commerce_platform.Breaker.{Breaker, closed, open_, call}
use nimbus_commerce_platform.Payments.Lock.{Io}
use nimbus_commerce_platform.Gateway.Abuse.{
  SortedSets, AbuseSettings, Codec, rl_key, bl_key, compute_fingerprint, read_answer, do_check,
  sliding_window_lua, check,
}
use nimbus_commerce_platform.Gateway.Abuse.Middleware.{
  Request, called_next, json_error, is_exempt, extract_client_ip, respond, dispatch,
}
use nimbus_commerce_platform.Gateway.Abuse.Window.{
  requests, recent, IsHistory, sliding_window_lua_count,
}

module _ (k : SortedSets) (x : Codec) (settings : AbuseSettings) (first : String → String)
    (request : Request) where
  -- The fingerprint by which a request is counted.
  abbrev pub fingerprint_of : String
  fingerprint_of =
      compute_fingerprint x (extract_client_ip first request settings.trust_forwarded_for)
        request.user_agent request.accept_language ""

  -- With the layer set, the breaker closed and Redis answering, a request to a path that is
  -- checked, of a client that had no entry at first and is not in the blacklist, while the clock
  -- does not go back and no two requests have one name: n requests of the client, this one and
  -- refused ones included, are less than a window old. The answer is 403 if n is beyond the limit
  -- of the blacklist, 429 if it is beyond the limit of the rate only, and otherwise the application
  -- is called.
  pub dispatch_limits :
      (h : List (ℕ × String)) (s : k.Store) (now : ℕ) (rand : String) (io : Io) (b : Breaker)
      → is_exempt request.path ≡ false
      → b.state ≡ closed
      → io.link ≡ answers
      → IsHistory k x settings fingerprint_of ((now, rand) ∷ h)
      → k.members s (rl_key fingerprint_of) ≡ []
      → k.exists (requests k x settings fingerprint_of h s) (bl_key fingerprint_of) ≡ false
      → let n = suc (recent k x settings fingerprint_of now h) in
        (dispatch k x settings first true request now rand io b
          (requests k x settings fingerprint_of h s)).0
        ≡ ok (
            if ltb settings.blacklist_threshold n
            then json_error 403 "nimbus.blacklisted"
                (("Retry-After", x.str_int settings.blacklist_ttl_seconds) ∷ [])
            else (if ltb settings.rate_limit_max n
                then json_error 429 "nimbus.rate_limited" (
                    ("Retry-After", x.str_int settings.rate_limit_window_seconds)
                    ∷ ("X-RateLimit-Limit", x.str_int settings.rate_limit_max)
                    ∷ ("X-RateLimit-Remaining", "0")
                    ∷ [])
                else called_next))
  unfolding dispatch check do_check read_answer respond call
  dispatch_limits h s now rand io b checked shut up v e f =
      let n = sliding_window_lua_count k x settings fingerprint_of h s now rand v e f in
      ground (arith, n)

  -- With the layer set, the breaker closed and Redis answering, a request to a path that is checked
  -- of a client in the blacklist is refused with 403 and leaves Redis as it is.
  pub dispatch_blacklisted :
      (s : k.Store) (now : ℕ) (rand : String) (io : Io) (b : Breaker)
      → is_exempt request.path ≡ false
      → b.state ≡ closed
      → io.link ≡ answers
      → k.exists s (bl_key fingerprint_of) ≡ true
      → let (r, b', s') = dispatch k x settings first true request now rand io b s in
        (r
          ≡ ok (
              json_error 403 "nimbus.blacklisted"
                (("Retry-After", x.str_int settings.blacklist_ttl_seconds) ∷ [])))
        × (s' ≡ s)
  unfolding dispatch check do_check sliding_window_lua read_answer respond call
  dispatch_blacklisted s now rand io b checked shut up f = ground arith

  -- While the breaker is open and rests every request is let through, those of blacklisted clients
  -- included, and Redis is not asked.
  pub dispatch_fails_open :
      (has_layer : Bool) (s : k.Store) (now at : ℕ) (rand : String) (io : Io) (b : Breaker)
      → b.state ≡ open_
      → b.opened_at ≡ some at
      → io.now < at + b.reset_timeout
      → 0 < b.reset_timeout
      → dispatch k x settings first has_layer request now rand io b s ≡ (ok called_next, b, s)
  unfolding dispatch check respond call
  dispatch_fails_open has_layer s now at rand io b o a early p = ground arith
