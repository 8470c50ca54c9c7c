-- ===== src/Gateway/Abuse.antt =====
-- src/modules/gateway/abuse.py: the fingerprint of a client, the script of the sliding window on the
-- sorted sets of Redis, and `AbuseLayer`. Times are in
-- microseconds, as the code prints them.
pub mod Middleware
pub mod Window
pub mod Limits
use nimbus_commerce_platform.Common.{
  ℕ, ◌+◌, ◌*◌, ◌≡◌, concat, String, Bool, true, false, ◌||◌, Option, none, some, List, [], ◌∷◌,
  str_eq, ltb, ◌==◌, length, if◌then◌else◌,
}
use nimbus_commerce_platform.Common.Int.{ℤ, pos, ◌-ℤ◌, leb_ℤ}
use nimbus_commerce_platform.Errors.{Exn, Result, ok, err, cache_unavailable}
use nimbus_commerce_platform.Storage.{Link, ask}
use nimbus_commerce_platform.Breaker.{Breaker, call}
use nimbus_commerce_platform.Payments.Lock.{Io}

-- The members of a sorted set with their scores, without those whose score is at most a limit.
abbrev pub drop_until : ℤ → List (ℕ × String) → List (ℕ × String)
drop_until limit [] = []
drop_until limit ((score, name) ∷ rest) =
    let kept = drop_until limit rest in
    if leb_ℤ (pos score) limit then kept else (score, name) ∷ kept

abbrev pub without : String → List (ℕ × String) → List (ℕ × String)
without m [] = []
without m ((score, name) ∷ rest) =
    let kept = without m rest in if str_eq name m then kept else (score, name) ∷ kept

-- The commands of Redis that the script uses, as documented. `members` is a sorted set, its last
-- addition first; a key that expires is a change that others make.
pub record SortedSets : Type 1 where
  pub Store : Type 0
  pub members : Store → String → List (ℕ × String)
  -- EXISTS
  pub exists : Store → String → Bool
  -- ZREMRANGEBYSCORE key -inf limit
  pub zremrangebyscore : Store → String → ℤ → Store
  -- ZADD key score member
  pub zadd : Store → String → ℕ → String → Store
  -- EXPIRE key seconds
  pub expire : Store → String → ℕ → Store
  -- ZCARD
  pub zcard : Store → String → ℕ
  -- SET key value EX seconds
  pub set_ex : Store → String → String → ℕ → Store
  pub zcard-members : (s : Store) (k : String) → zcard s k ≡ length (members s k)
  pub members-zremrangebyscore :
      (s : Store) (k : String) (limit : ℤ)
      → members (zremrangebyscore s k limit) k ≡ drop_until limit (members s k)
  pub members-zadd :
      (s : Store) (k : String) (score : ℕ) (m : String)
      → members (zadd s k score m) k ≡ (score, m) ∷ without m (members s k)
  pub members-expire :
      (s : Store) (k : String) (seconds : ℕ) → members (expire s k seconds) k ≡ members s k
  pub members-set_ex :
      (s : Store) (k v : String) (seconds : ℕ) (j : String)
      → str_eq k j ≡ false
      → members (set_ex s k v seconds) j ≡ members s j
  pub exists-zremrangebyscore :
      (s : Store) (k : String) (limit : ℤ) (j : String)
      → str_eq k j ≡ false
      → exists (zremrangebyscore s k limit) j ≡ exists s j
  pub exists-zadd :
      (s : Store) (k : String) (score : ℕ) (m j : String)
      → str_eq k j ≡ false
      → exists (zadd s k score m) j ≡ exists s j
  pub exists-expire :
      (s : Store) (k : String) (seconds : ℕ) (j : String)
      → str_eq k j ≡ false
      → exists (expire s k seconds) j ≡ exists s j
  pub exists-set_ex :
      (s : Store) (k v : String) (seconds : ℕ) → exists (set_ex s k v seconds) k ≡ true

-- The fields of the settings that the abuse layer reads.
pub record AbuseSettings : Type 0 where
  pub rate_limit_window_seconds : ℕ
  pub rate_limit_max : ℕ
  pub blacklist_threshold : ℕ
  pub blacklist_ttl_seconds : ℕ
  pub trust_forwarded_for : Bool

pub data RateLimitStatus : Type 0 where
  within rate_limited just_blacklisted already_blacklisted bypassed : RateLimitStatus

pub record RateLimitResult : Type 0 where
  pub status : RateLimitStatus
  pub count : ℕ
  pub fingerprint : String
  pub headers : List (String × String)

-- `str` of a number, `tostring` of Lua, and SHA-256 as hexadecimal digits.
pub record Codec : Type 0 where
  pub str_int : ℕ → String
  pub tostring : ℕ → String
  pub sha256 : String → String

unfoldable pub compute_fingerprint : Codec → String → String → String → String → String
compute_fingerprint x client_ip user_agent accept_language extra = x.sha256 (
    concat client_ip
      (concat "|" (concat user_agent (concat "|" (concat accept_language (concat "|" extra))))))

abbrev pub rl_key : String → String
rl_key fingerprint = concat "rl:fp:" fingerprint

abbrev pub bl_key : String → String
bl_key fingerprint = concat "bl:fp:" fingerprint

-- The name under which the script adds a request.
abbrev pub member_name : Codec → ℕ → String → String
member_name x now rand = concat (x.tostring now) (concat ":" rand)

-- `now - window`
abbrev pub window_limit : AbuseSettings → ℕ → ℤ
window_limit settings now = pos now -ℤ pos (settings.rate_limit_window_seconds * 1000000)

-- The answer of the script for a count.
abbrev pub verdict : AbuseSettings → ℕ → ℕ
verdict settings count =
    if ltb settings.blacklist_threshold count
    then 2
    else (if ltb settings.rate_limit_max count then 1 else 0)

-- What `_do_check` makes of the answer of the script.
unfoldable pub read_answer : Codec → AbuseSettings → String → ℕ × ℕ → RateLimitResult
read_answer x settings fingerprint (count, status) =
    if status == 3
    then record {
      status = already_blacklisted;
      count = count;
      fingerprint = fingerprint;
      headers = ("Retry-After", x.str_int settings.blacklist_ttl_seconds) ∷ [];
    }
    else (if status == 2
        then record {
          status = just_blacklisted;
          count = count;
          fingerprint = fingerprint;
          headers = ("Retry-After", x.str_int settings.blacklist_ttl_seconds) ∷ [];
        }
        else (if status == 1
            then record {
              status = rate_limited;
              count = count;
              fingerprint = fingerprint;
              headers = ("Retry-After", x.str_int settings.rate_limit_window_seconds) ∷ [];
            }
            else record {
              status = within;
              count = count;
              fingerprint = fingerprint;
              headers = [];
            }))

-- What `check` makes of a call that the breaker refused.
abbrev pub or_bypass : String → Result RateLimitResult → Result RateLimitResult
or_bypass fingerprint (err cache_unavailable) =
    ok (record { status = bypassed; count = 0; fingerprint = fingerprint; headers = [] })
or_bypass fingerprint r = r

module _ (k : SortedSets) (x : Codec) (settings : AbuseSettings) where
  -- The requests of the window with the one at `now` added: the part of the script up to ZCARD.
  unfoldable pub add_request : String → ℕ → String → k.Store → k.Store
  add_request fingerprint now rand s =
      let key = rl_key fingerprint in
      let s1 = k.zremrangebyscore s key (window_limit settings now) in
      let s2 = k.zadd s1 key now (member_name x now rand) in
      k.expire s2 key (settings.rate_limit_window_seconds + 1)

  -- `_SLIDING_WINDOW_LUA`
  unfoldable pub sliding_window_lua : String → ℕ → String → k.Store → (ℕ × ℕ) × k.Store
  unfolding add_request
  sliding_window_lua fingerprint now rand s =
      let s' = add_request fingerprint now rand s in
      let count = k.zcard s' (rl_key fingerprint) in
      if k.exists s (bl_key fingerprint) then ((0, 3), s) else (
        (count, verdict settings count),
        (if ltb settings.blacklist_threshold count
            then k.set_ex s' (bl_key fingerprint) "1" settings.blacklist_ttl_seconds
            else s'),
      )

  unfoldable pub do_check : String → ℕ → String → k.Store → RateLimitResult × k.Store
  unfolding sliding_window_lua read_answer
  do_check fingerprint now rand s =
      let (answer, s') = sliding_window_lua fingerprint now rand s in
      (read_answer x settings fingerprint answer, s')

  -- `check`, where `now` and `rand` are what the clock and the random generator give.
  unfoldable pub check :
      String
      → String
      → String
      → String
      → ℕ
      → String
      → Io
      → Breaker
      → k.Store
      → Result RateLimitResult × Breaker × k.Store
  unfolding do_check
  check client_ip user_agent accept_language extra now rand io b s =
      let fp = compute_fingerprint x client_ip user_agent accept_language extra in
      let (r, b', s') = call io.now io.done (ask io.link (do_check fp now rand)) b s in
      (or_bypass fp r, b', s')
