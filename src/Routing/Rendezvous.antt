-- ===== src/Routing/Rendezvous.antt =====
-- routing/membership.go `RendezvousBroker`: the broker with the highest score.
use solace_broker_autoscale.Customer.Library.{RoutingHashPolicy}
use solace_broker_autoscale.Customer.Keys.{ScoreInput}
use solace_broker_autoscale.Prelude.{
  Bool, List, Option, Result, [], bool_eq, contains, err, if◌then◌else◌, is_empty, list_eq, nat_eq,
  none, ok, option_eq, some, ◌&&◌, ◌==◌, ◌||◌, ◌∷◌,
}
use solace_broker_autoscale.Text.{Bytes, bytes_lt}
use solace_broker_autoscale.Prelude.{suc, zero, ℕ}

pub data Error : Type 0 where
  policy_required membership_empty algorithm_empty broker_empty duplicate_broker score_failed :
      Error

abbrev pub scored : RoutingHashPolicy → Bytes → Bytes → Bytes → Bytes → ScoreInput
scored policy algorithm group hash broker = record {
  algorithm = algorithm;
  scaling_group = group;
  business_hash = hash;
  broker_id = broker;
}

abbrev zeros : ℕ → Bytes
zeros zero = []
zeros (suc n) = 0 ∷ zeros n

-- The zero value of a score.
abbrev pub no_score : Bytes
no_score = zeros 32

-- `selected == "" || comparison > 0 || comparison == 0 && brokerID < selected`.
abbrev pub replaces : Bytes → Bytes → Bytes → Bytes → Bool
replaces score broker highest selected =
    is_empty selected || bytes_lt highest score || (score == highest && bytes_lt broker selected)

module _ (score : Bytes → Option Bytes) where
  -- The loop, with `seen`, `selected` and `highest`. `score` is the answer of the policy.
  unfoldable pub choose : List Bytes → Bytes → Bytes → List Bytes → Result Error Bytes
  choose seen selected highest [] = ok selected
  choose seen selected highest (broker ∷ rest) =
      if is_empty broker
      then err broker_empty
      else if contains seen broker
      then err duplicate_broker
      else elim (score broker) [
        | none ↦ err score_failed
        | some s ↦
            let better = replaces s broker highest selected in
            choose (broker ∷ seen) (if better then broker else selected)
              (if better then s else highest) rest
      ]

abbrev pub answer : {E : Type 0} → Result E Bytes → Option Bytes
answer (ok s) = some s
answer (err e) = none

abbrev pub score_of : RoutingHashPolicy → Bytes → Bytes → Bytes → Option Bytes
score_of policy group hash broker =
    answer (policy.get_rendezvous_score (scored policy policy.routing_algorithm group hash broker))

unfoldable pub rendezvous_broker :
    Option RoutingHashPolicy → Bytes → Bytes → List Bytes → Result Error Bytes
rendezvous_broker none group hash membership = err policy_required
rendezvous_broker (some policy) group hash membership =
    if is_empty membership
    then err membership_empty
    else if is_empty policy.routing_algorithm
    then err algorithm_empty
    else choose (score_of policy group hash) [] [] no_score membership
