-- ===== src/Examples/Seen.antt =====
-- Ids of messages that are checked one after another.
use nimbus_commerce_platform.Common.{◌≡◌, refl, true, false, [], ◌∷◌}
use nimbus_commerce_platform.Errors.{ok}
use nimbus_commerce_platform.Consumer.Seen.{check_all, check_all-firsts}
use nimbus_commerce_platform.Examples.{keys, no_keys}
use nimbus_commerce_platform.Examples.Traffic.{breaker, differ, up}

check_all-firsts_example :
    check_all keys (("a", up) ∷ ("b", up) ∷ ("a", up) ∷ []) breaker no_keys
    ≡ ok true ∷ ok true ∷ ok false ∷ []
check_all-firsts_example =
    check_all-firsts keys (("a", up) ∷ ("b", up) ∷ ("a", up) ∷ []) breaker no_keys (λ j. false)
      ((differ "a" "" refl, refl), ((differ "b" "" refl, refl), ((differ "a" "" refl, refl), tt)))
      refl (λ j. refl)
