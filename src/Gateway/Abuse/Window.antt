-- ===== src/Gateway/Abuse/Window.antt =====
-- The sliding window of src/modules/gateway/abuse.py counts the requests of the window.
use nimbus_commerce_platform.Common.{
  ℕ, suc, ◌+◌, ◌*◌, ◌≤◌, ◌≡◌, refl, ◌≢◌, ◌∙◌, ap, String, false, List, [], ◌∷◌, str_eq, str_eq_iff,
  leb, ltb, length, count_if, All, arith, Bool-cases, inl, inr,
}
use text.Mathlib.TextLemmas.{append_cancel_right}
use nimbus_commerce_platform.Common.Int.{ℤ, pos, leb_ℤ, -ℤ_parts}
use nimbus_commerce_platform.Gateway.Abuse.{
  drop_until, without, SortedSets, AbuseSettings, Codec, rl_key, bl_key, member_name, window_limit,
  verdict, add_request, sliding_window_lua,
}

-- The two keys of a client differ.
pub rl_key-ne-bl_key : (fp : String) → str_eq (rl_key fp) (bl_key fp) ≡ false
rl_key-ne-bl_key fp = elim (Bool-cases (str_eq (rl_key fp) (bl_key fp))) [
  | inr differ ↦ differ
  | inl same ↦
      let e =
        append_cancel_right "rl:fp:" "bl:fp:" fp ((str_eq_iff (rl_key fp) (bl_key fp)).0 same) in
      absurd (ground (arith, str_eq_iff "rl:fp:" "bl:fp:"))
]

All-map :
    {A : Type 0} (P Q : A → Type 0) (xs : List A) → ((a : A) → P a → Q a) → All P xs → All Q xs
All-map P Q [] f h = tt
All-map P Q (a ∷ xs) f h = (f a h.0, All-map P Q xs f h.1)

-- The length of the window in the unit of the clock.
abbrev pub window_of : AbuseSettings → ℕ
window_of settings = settings.rate_limit_window_seconds * 1000000

module _ (settings : AbuseSettings) where
  leb-window_limit :
      (now t : ℕ) → leb_ℤ (pos t) (window_limit settings now) ≡ leb (t + window_of settings) now
  leb-window_limit now t = ground (arith, -ℤ_parts (pos now) (pos (window_of settings)))

  drop_until-drop_until :
      (now later : ℕ) (xs : List (ℕ × String))
      → now ≤ later
      → drop_until (window_limit settings later) (drop_until (window_limit settings now) xs)
        ≡ drop_until (window_limit settings later) xs
  drop_until-drop_until now later [] h = refl
  drop_until-drop_until now later ((t, name) ∷ xs) h = ground (
    arith,
    leb-window_limit now t,
    leb-window_limit later t,
    drop_until-drop_until now later xs h,
  )

without-fresh : (m : String) (xs : List (ℕ × String)) → All (λ q. q.1 ≢ m) xs → without m xs ≡ xs
without-fresh m [] h = refl
without-fresh m ((t, name) ∷ xs) h = ground (arith, str_eq_iff name m, without-fresh m xs h.1)

All-drop_until :
    (limit : ℤ) (P : ℕ × String → Type 0) (xs : List (ℕ × String))
    → All P xs
    → All P (drop_until limit xs)
All-drop_until limit P [] h = tt
All-drop_until limit P ((t, name) ∷ xs) h = elim (Bool-cases (leb_ℤ (pos t) limit)) [
  | inl out ↦ rw out (All-drop_until limit P xs h.1)
  | inr kept ↦ rw kept (h.0, All-drop_until limit P xs h.1)
]

module _ (k : SortedSets) (x : Codec) (settings : AbuseSettings) (fp : String) where
  abbrev lua : ℕ → String → k.Store → (ℕ × ℕ) × k.Store
  lua = sliding_window_lua k x settings fp

  abbrev window : k.Store → List (ℕ × String)
  window s = k.members s (rl_key fp)

  members-add_request :
      (now : ℕ) (rand : String) (s : k.Store)
      → window (add_request k x settings fp now rand s)
        ≡ (now, member_name x now rand)
          ∷ without (member_name x now rand) (drop_until (window_limit settings now) (window s))
  unfolding add_request
  members-add_request now rand s =
      let key = rl_key fp in
      let s1 = k.zremrangebyscore s key (window_limit settings now) in
      let s2 = k.zadd s1 key now (member_name x now rand) in
      rw
        (
          k.members-expire s2 key (settings.rate_limit_window_seconds + 1),
          k.members-zadd s1 key now (member_name x now rand),
          k.members-zremrangebyscore s key (window_limit settings now),
        )
        refl

  exists-add_request :
      (now : ℕ) (rand : String) (s : k.Store)
      → k.exists (add_request k x settings fp now rand s) (bl_key fp) ≡ k.exists s (bl_key fp)
  unfolding add_request
  exists-add_request now rand s =
      let key = rl_key fp in
      let differ = rl_key-ne-bl_key fp in
      let s1 = k.zremrangebyscore s key (window_limit settings now) in
      let s2 = k.zadd s1 key now (member_name x now rand) in
      k.exists-expire s2 key (settings.rate_limit_window_seconds + 1) (bl_key fp) differ
      ∙ k.exists-zadd s1 key now (member_name x now rand) (bl_key fp) differ
      ∙ k.exists-zremrangebyscore s key (window_limit settings now) (bl_key fp) differ

  -- A client that is not in the blacklist after a request was not in it before, and the request has
  -- been added.
  lua-allowed :
      (now : ℕ) (rand : String) (s : k.Store)
      → k.exists (lua now rand s).1 (bl_key fp) ≡ false
      → (k.exists s (bl_key fp) ≡ false)
        × ((lua now rand s).1 ≡ add_request k x settings fp now rand s)
  unfolding sliding_window_lua
  lua-allowed now rand s h =
      let s' = add_request k x settings fp now rand s in
      let listed = k.exists-set_ex s' (bl_key fp) "1" settings.blacklist_ttl_seconds in
      ground (arith, listed)

  -- The requests of a client one after another, the last one first: each with its time and its
  -- random suffix.
  abbrev pub requests : List (ℕ × String) → k.Store → k.Store
  requests [] s = s
  requests ((t, rand) ∷ h) s = (lua t rand (requests h s)).1

  abbrev pub name_of : ℕ × String → String
  name_of (t, rand) = member_name x t rand

  -- The clock does not go back, and no two requests have one name.
  abbrev pub IsHistory : List (ℕ × String) → Type 0
  IsHistory [] = Unit
  IsHistory (r ∷ h) = All (λ q. (q.0 ≤ r.0) × (name_of q ≢ name_of r)) h × IsHistory h

  abbrev named : List (ℕ × String) → List (ℕ × String)
  named [] = []
  named ((t, rand) ∷ h) = (t, member_name x t rand) ∷ named h

  named-fresh :
      (m : String) (h : List (ℕ × String))
      → All (λ q. name_of q ≢ m) h
      → All (λ q. q.1 ≢ m) (named h)
  named-fresh m [] a = tt
  named-fresh m ((t, rand) ∷ h) a = (a.0, named-fresh m h a.1)

  window-requests :
      (h : List (ℕ × String)) (s : k.Store) (now : ℕ)
      → IsHistory h
      → All (λ q. q.0 ≤ now) h
      → window s ≡ []
      → k.exists (requests h s) (bl_key fp) ≡ false
      → drop_until (window_limit settings now) (window (requests h s))
        ≡ drop_until (window_limit settings now) (named h)
  window-requests [] s now v a e f = ap (drop_until (window_limit settings now)) e
  window-requests ((t, rand) ∷ h) s now (first, v) (le, a) e f =
      let u = requests h s in
      let limit = window_limit settings t in
      let name = member_name x t rand in
      let (free, added) = lua-allowed t rand u f in
      let ih = window-requests h s t v (All-map _ _ h (λ q p. p.0) first) e free in
      let others = named-fresh name h (All-map _ _ h (λ q p. p.1) first) in
      let fresh =
        without-fresh name (drop_until limit (named h))
          (All-drop_until limit (λ q. q.1 ≢ name) (named h) others) in
      let twice = drop_until-drop_until settings t now (named h) le in
      rw (added, members-add_request t rand u, ih, fresh) (ground (arith, twice))

  -- The requests that the window of a request at `now` still holds.
  abbrev pub recent : ℕ → List (ℕ × String) → ℕ
  recent now = count_if λ q. ltb now (q.0 + window_of settings)

  length-named :
      (h : List (ℕ × String)) (now : ℕ)
      → length (drop_until (window_limit settings now) (named h)) ≡ recent now h
  length-named [] now = refl
  length-named ((t, rand) ∷ h) now =
      ground (arith, leb-window_limit settings now t, length-named h now)

  -- The count of the script: for a client that had no entry at first and is not in the blacklist, a
  -- request counts itself and every earlier request, refused ones included, that is less than a
  -- window old.
  pub sliding_window_lua_count :
      (h : List (ℕ × String)) (s : k.Store) (now : ℕ) (rand : String)
      → IsHistory ((now, rand) ∷ h)
      → k.members s (rl_key fp) ≡ []
      → k.exists (requests h s) (bl_key fp) ≡ false
      → (sliding_window_lua k x settings fp now rand (requests h s)).0
        ≡ (suc (recent now h), verdict settings (suc (recent now h)))
  unfolding sliding_window_lua
  sliding_window_lua_count h s now rand (first, v) e f =
      let u = requests h s in
      let limit = window_limit settings now in
      let name = member_name x now rand in
      let held = window-requests h s now v (All-map _ _ h (λ q p. p.0) first) e f in
      let others = named-fresh name h (All-map _ _ h (λ q p. p.1) first) in
      let fresh =
        without-fresh name (drop_until limit (named h))
          (All-drop_until limit (λ q. q.1 ≢ name) (named h) others) in
      let size : k.zcard (add_request k x settings fp now rand u) (rl_key fp) ≡ suc (recent now h) =
        rw
          (
            k.zcard-members (add_request k x settings fp now rand u) (rl_key fp),
            members-add_request now rand u,
            held,
            fresh,
          )
          (ap suc (length-named h now)) in
      ground (arith, size)
