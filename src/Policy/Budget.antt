-- ===== src/Policy/Budget.antt =====
-- How many transitions a cycle of policy/engine.go admits, and which.
use solace_broker_autoscale.Prelude.{Bool}
use solace_broker_autoscale.Policy.Aggregate.{Aggregation, clamp}
use solace_broker_autoscale.Policy.Advice.{Recommendation}
use solace_broker_autoscale.Policy.Engine.{
  Outcome, admits, decide, put_recommendation, recommend_in, subtract_active,
}
use solace_broker_autoscale.Policy.Types.{Broker, Floats, GroupState}
use solace_broker_autoscale.Prelude.{
  All, List, Map, [], all, ap, arith, bool_eq, difference, false, if◌then◌else◌, length, list_eq,
  ltb_ℤ, nat_eq, negsuc, option_eq, pair_eq, pos, pos_part, sub64, suc, true, ℕ, ℤ, ◌+◌, ◌-◌, ◌∙◌,
  ◌∷◌, ◌≡◌, ◌≤◌,
}
use solace_broker_autoscale.Text.{Bytes}
use solace_broker_autoscale.Prelude.{int_max, sub64-difference, zero}
use solace_broker_autoscale.Prelude.{sub64-suc}
use solace_broker_autoscale.Prelude.{sum_by}

-- The active transitions of all groups, without wrap-around.
abbrev pub active_sum : {V : Type 0} → List (GroupState V) → ℕ
active_sum = sum_by (λ g. pos_part g.active_transitions)

abbrev pub NonNegative : {V : Type 0} → GroupState V → Type 0
NonNegative g = ltb_ℤ g.active_transitions (pos 0) ≡ false

subtract-difference :
    (l s : ℕ) (a : ℤ) (rest : ℕ)
    → l ≤ int_max
    → s + (pos_part a + rest) ≤ int_max
    → ltb_ℤ a (pos 0) ≡ false
    → sub64 (difference l s) a ≡ difference l (s + pos_part a)
subtract-difference l s (pos n) rest hl hs h = sub64-difference l s n hl (omega arith)
subtract-difference l s (negsuc n) rest hl hs h = ground arith

pub subtract_active-difference :
    {V : Type 0} (l s : ℕ) (gs : List (GroupState V))
    → All NonNegative gs
    → l ≤ int_max
    → s + active_sum gs ≤ int_max
    → subtract_active (difference l s) gs ≡ difference l (s + active_sum gs)
unfolding subtract_active
subtract_active-difference l s [] all hl hs = ap (difference l) (omega arith)
subtract_active-difference l s (g ∷ rest) (h, all) hl hs =
    rw (subtract-difference l s g.active_transitions (active_sum rest) hl hs h) (
      subtract_active-difference l (s + pos_part g.active_transitions) rest all hl (omega arith)
      ∙ ap (difference l) (omega arith))

pub clamp-difference : (l s : ℕ) → clamp (difference l s) ≡ pos (l - s)
clamp-difference l s = ground arith

put-bound :
    (free : ℕ) (r : Recommendation × Bool) (next : ℤ → Outcome)
    → free ≤ int_max
    → ((n : ℕ) → n ≤ int_max → length (next (pos n)).1 ≤ n)
    → length
        (put_recommendation
          (pos free)
          r
          (next (if admits (pos free) r then sub64 (pos free) (pos 1) else pos free))).1
      ≤ free
put-bound free (r, false) next h bound = bound free h
put-bound zero (r, true) next h bound = bound 0 h
put-bound (suc n) (r, true) next h bound = ground (arith, sub64-suc n h, bound n (omega arith))

module _ {V : Type 0} (N : Floats V) (now : ℕ) (result : Aggregation V) (inventory : List Broker)
    (m : Map Bytes ℕ) where
  pub decide-bound :
      (gs : List (GroupState V)) (free : ℕ)
      → free ≤ int_max
      → length (decide N now result inventory m (pos free) gs).1 ≤ free
  unfolding decide
  decide-bound [] free h = omega arith
  decide-bound (g ∷ rest) free h =
      put-bound free (recommend_in N now result inventory m g)
        (λ left. decide N now result inventory m left rest) h (decide-bound rest)
