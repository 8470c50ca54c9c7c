-- ===== src/Responses/Hierarchy.antt =====
-- The hierarchy of the exceptions of src/core/exceptions.py, and the `except` clauses and responses that
-- go by it.
use nimbus_commerce_platform.Common.{
  ℕ, String, zero, suc, ◌≤◌, ◌≡◌, refl, inl, inr, Bool, true, false, Option, none, some, arith,
  Option-cases, ◌==◌, ◌||◌, ◌&&◌, not,
}
use nimbus_commerce_platform.Errors.{Exn, err, infrastructure, broker_unavailable}
use nimbus_commerce_platform.Responses.{base, resolve, Raised, raised, respond}
use nimbus_commerce_platform.Relay.{Outcome, broker_down, permanent, classify}

-- InfrastructureError and the classes that derive from it, by the hierarchy.
abbrev is_same_infrastructure : Exn → Bool
is_same_infrastructure infrastructure = true
is_same_infrastructure _ = false

abbrev pub is_infrastructure : Exn → Bool
unfolding base
is_infrastructure e =
    is_same_infrastructure e || elim (base e) [ none ↦ false | some b ↦ is_same_infrastructure b ]

abbrev pub is_broker : Exn → Bool
is_broker broker_unavailable = true
is_broker _ = false

abbrev pub is_permanent : Outcome → Bool
is_permanent (permanent _) = true
is_permanent _ = false

abbrev pub is_outage : Outcome → Bool
is_outage (broker_down _) = true
is_outage _ = false

base_depth : (e a b : Exn) → base e ≡ some a → base a ≡ some b → base b ≡ none
unfolding base
base_depth e a b p q = ground arith

resolve_root :
    {A : Type 0} (own : Exn → Option A) (n : ℕ) (e : Exn) → base e ≡ none → resolve own n e ≡ own e
unfolding resolve
resolve_root own zero e h = refl
resolve_root own (suc n) e h = ground arith

-- The search for an attribute of a class finds in two steps up what it finds in any number more: no
-- class of the model is further than two from the top.
pub resolve_enough :
    {A : Type 0} (own : Exn → Option A) (n : ℕ) (e : Exn)
    → resolve own (suc (suc n)) e ≡ resolve own 2 e
unfolding resolve
resolve_enough own n e = elim (Option-cases (base e)) [
  | inl q ↦ ground arith
  | inr (a, q) ↦ elim (Option-cases (base a)) [
    | inl q' ↦ ground (arith, resolve_root own (suc n) a q')
    | inr (b, q') ↦ ground (
      arith,
      resolve_root own n b (base_depth e a b q q'),
      resolve_root own zero b (base_depth e a b q q'),
    )
  ]
]

-- The `except` clauses of the relay agree with the hierarchy: an exception of a publish counts as a
-- permanent error exactly where its class is InfrastructureError or derives from it and is not
-- BrokerUnavailableError, as an outage exactly where it is that class.
pub classify_hierarchy :
    (e : Exn)
    → (is_permanent (classify (err e)) ≡ (is_infrastructure e && not (is_broker e)))
      × (is_outage (classify (err e)) ≡ is_broker e)
unfolding classify base
classify_hierarchy e = (ground arith, ground arith)

-- Every exception is answered with an error status from 400 to 504; with 503 exactly where its
-- class is InfrastructureError or derives from it.
pub respond_status :
    (str_int : ℕ → String) (x : Raised)
    → (400 ≤ (respond str_int (raised x)).status_code)
      × ((respond str_int (raised x)).status_code ≤ 504)
      × (((respond str_int (raised x)).status_code == 503) ≡ is_infrastructure x.cls)
unfolding respond
respond_status str_int x = (ground arith, ground arith, ground arith)
