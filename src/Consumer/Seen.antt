-- ===== src/Consumer/Seen.antt =====
-- `RedisDedupe` of src/core/dedupe.py as what it stands for: the set of the ids that were seen.
use nimbus_commerce_platform.Common.{
  ◌≡◌, refl, ◌∙◌, ◌≢◌, ap, String, Bool, true, false, not, ◌||◌, Option, none, some, List, [], ◌∷◌,
  map, arith, str_eq, str_eq_iff, All, Bool-cases, inl, inr,
}
use text.Mathlib.TextLemmas.{append_cancel_left}
use nimbus_commerce_platform.Errors.{Result, ok}
use nimbus_commerce_platform.Storage.{Keys, answers}
use nimbus_commerce_platform.Breaker.{Breaker, closed, call}
use nimbus_commerce_platform.Payments.Lock.{Io}
use nimbus_commerce_platform.Consumer.{dedupe_key, check_and_record}

-- Of ids that come in turn: whether each is new, given those that were seen before.
abbrev pub firsts : (String → Bool) → List String → List Bool
firsts seen [] = []
firsts seen (id ∷ ids) = not (seen id) ∷ firsts (λ j. seen j || str_eq id j) ids

abbrev is_some : Option String → Bool
is_some none = false
is_some (some v) = true

str_eq-dedupe_key : (a b : String) → str_eq (dedupe_key a) (dedupe_key b) ≡ str_eq a b
str_eq-dedupe_key a b = elim (Bool-cases (str_eq (dedupe_key a) (dedupe_key b))) [
  | inl h ↦
      let e = append_cancel_left "dedupe:" a b ((str_eq_iff (dedupe_key a) (dedupe_key b)).0 h) in
      ground (arith, str_eq_iff a b)
  | inr h ↦ elim (Bool-cases (str_eq a b)) [
    | inl g ↦
        let e = ap dedupe_key ((str_eq_iff a b).0 g) in
        absurd (ground (arith, str_eq_iff (dedupe_key a) (dedupe_key b)))
    | inr g ↦ ground arith
  ]
]

module _ (k : Keys) where
  abbrev pub is_seen : k.Store → String → Bool
  is_seen s id = is_some (k.get s (dedupe_key id))

  check_and_record-is_seen :
      (id : String) (io : Io) (b : Breaker) (s : k.Store) (j : String)
      → id ≢ ""
      → io.link ≡ answers
      → b.state ≡ closed
      → let (r, b', s') = check_and_record k id none io b s in
        (r ≡ ok (not (is_seen s id)))
        × (b'.state ≡ closed)
        × (is_seen s' j ≡ (is_seen s j || str_eq id j))
  unfolding check_and_record call
  check_and_record-is_seen id io b s j named up shut =
      let done = k.set_nx_done s (dedupe_key id) "1" 604800 in
      let after = k.get-set_nx s (dedupe_key id) "1" 604800 (dedupe_key j) in
      let same = str_eq-dedupe_key id j in
      elim (Bool-cases (str_eq id j)) [
        | inl g ↦
            let e = ap (λ x. k.get s (dedupe_key x)) ((str_eq_iff id j).0 g) in
            (
              ground (arith, str_eq_iff id "", done),
              ground (arith, str_eq_iff id "", done),
              ground (arith, str_eq_iff id "", done, after, same),
            )
        | inr g ↦ (
          ground (arith, str_eq_iff id "", done),
          ground (arith, str_eq_iff id "", done),
          ground (arith, str_eq_iff id "", done, after, same),
        )
      ]

  -- The answers to ids that are checked one after another.
  abbrev pub check_all : List (String × Io) → Breaker → k.Store → List (Result Bool)
  check_all [] b s = []
  check_all ((id, io) ∷ rest) b s =
      let (r, b', s') = check_and_record k id none io b s in r ∷ check_all rest b' s'

  -- What is asked of an id and of its command: it is not empty, and Redis answers.
  abbrev pub IsAnswered : String × Io → Type 0
  IsAnswered (id, io) = (id ≢ "") × (io.link ≡ answers)

  -- With the breaker closed and Redis answering, ids that are not empty, checked one after another, are
  -- reported new exactly where they are neither in the store before nor among those checked before:
  -- the keys in Redis are the set of the ids that were seen.
  pub check_all-firsts :
      (xs : List (String × Io)) (b : Breaker) (s : k.Store) (seen : String → Bool)
      → All IsAnswered xs
      → b.state ≡ closed
      → ((j : String) → is_seen s j ≡ seen j)
      → check_all xs b s ≡ map ok (firsts seen (map (λ x. x.0) xs))
  check_all-firsts [] b s seen h shut same = refl
  check_all-firsts ((id, io) ∷ rest) b s seen ((named, up), h) shut same =
      let b' = (check_and_record k id none io b s).1 in
      let s' = (check_and_record k id none io b s).2 in
      let (r, shut', _) = check_and_record-is_seen id io b s id named up shut in
      let grown : (j : String) → is_seen s' j ≡ (seen j || str_eq id j) = λ j.
        let (_, _, g) = check_and_record-is_seen id io b s j named up shut in
        g ∙ ap (λ x. x || str_eq id j) (same j) in
      let next = check_all-firsts rest b' s' (λ j. seen j || str_eq id j) h shut' grown in
      cc (r, same id, next)
