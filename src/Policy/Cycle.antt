-- ===== src/Policy/Cycle.antt =====
-- `Evaluate` of policy/engine.go as a whole: what a cycle that it accepts has of it.
use solace_broker_autoscale.Policy.Aggregate.{check_groups, group_ids}
use solace_broker_autoscale.Policy.Budget.{NonNegative}
use solace_broker_autoscale.Policy.Checks.{validate_group}
use solace_broker_autoscale.Policy.Types.{Broker, Floats, GroupState}
use solace_broker_autoscale.Prelude.{
  All, Distinct, List, Map, [], bool_eq, contains, false, is_empty, list_eq, nat_eq, none,
  option_eq, pair_eq, ℕ, ◌==◌, ◌∷◌, ◌≡◌,
}
use solace_broker_autoscale.Text.{Bytes}
use solace_broker_autoscale.Policy.Aggregate.{Aggregation, aggregate}
use solace_broker_autoscale.Policy.Checks.{validate_policy}
use solace_broker_autoscale.Policy.Types.{
  ProfileCatalog, TelemetrySnapshot, duplicate_group, negative_active, no_group_id,
}
use solace_broker_autoscale.Prelude.{
  ==_iff, All-weaken, arith, fails, fails-none, ltb_ℤ, ok, pos, refl, ▸-none,
}
use solace_broker_autoscale.Policy.Aggregate.{by_id, check_cycle, check_inputs}
use solace_broker_autoscale.Policy.Engine.{Decision, Engine, decide_cycle, evaluate}
use solace_broker_autoscale.Policy.Types.{no_evaluation_time}
use solace_broker_autoscale.Prelude.{
  >>=-eq-ok, All-sort_by, Distinct-sort_by, leb, not, or_fail-ok, sort_by, ◌&&◌,
}
use solace_broker_autoscale.Policy.Engine.{conclude_cycle}
use solace_broker_autoscale.Policy.Types.{Error}
use solace_broker_autoscale.Prelude.{Result, ap, err, if-both}

module _ {V : Type 0} (N : Floats V) where
  -- A cycle that is aggregated is after the zero time, and its groups are checked and distinct.
  pub record Accepted (now : ℕ) (groups : List (GroupState V)) : Type 0 where
    pub after_zero : (now == 0) ≡ false
    pub named : All (λ g. is_empty g.id ≡ false) groups
    pub counted : All NonNegative groups
    pub distinct : Distinct (group_ids groups)

  validate_group-parts :
      (now : ℕ) (brokers : Map Bytes Broker) (g : GroupState V)
      → validate_group N now brokers g ≡ none
      → (is_empty g.id ≡ false) × NonNegative g
  unfolding validate_group
  validate_group-parts now brokers g h =
      let (first, rest) = (▸-none (fails (is_empty g.id) no_group_id) _).0 h in
      let (policy, more) = (▸-none (validate_policy N g.policy) _).0 rest in
      let (counted, end) =
        (▸-none (fails (ltb_ℤ g.active_transitions (pos 0)) negative_active) _).0 more in
      ((fails-none _ no_group_id).0 first, (fails-none _ negative_active).0 counted)

  abbrev Listed : List Bytes → GroupState V → Type 0
  Listed seen g = (is_empty g.id ≡ false) × NonNegative g × (contains seen g.id ≡ false)

  apart :
      (k : Bytes) (seen : List Bytes) (gs : List (GroupState V))
      → All (Listed (k ∷ seen)) gs
      → contains (group_ids gs) k ≡ false
  apart k seen [] h = refl
  apart k seen (g ∷ gs) ((n, c, out), h) =
      ground (arith, ==_iff k g.id, ==_iff g.id k, apart k seen gs h)

  check_groups-Listed :
      (now : ℕ) (brokers : Map Bytes Broker) (seen : List Bytes) (gs : List (GroupState V))
      → check_groups N now brokers seen gs ≡ none
      → All (Listed seen) gs × Distinct (group_ids gs)
  unfolding check_groups
  check_groups-Listed now brokers seen [] h = (tt, tt)
  check_groups-Listed now brokers seen (g ∷ gs) h =
      let (new, rest) = (▸-none (fails (contains seen g.id) duplicate_group) _).0 h in
      let (checked, more) = (▸-none (validate_group N now brokers g) _).0 rest in
      let (named, counted) = validate_group-parts now brokers g checked in
      let (listed, distinct) = check_groups-Listed now brokers (g.id ∷ seen) gs more in
      (
        (
          (named, counted, (fails-none _ duplicate_group).0 new),
          All-weaken (Listed (g.id ∷ seen)) (Listed seen) (λ k (n, c, out). (n, c, ground arith)) gs
              listed,
        ),
        (apart g.id seen gs listed, distinct),
      )

  check_cycle-now :
      (now : ℕ) (snapshot : TelemetrySnapshot V)
      → check_cycle N now snapshot ≡ none
      → (now == 0) ≡ false
  unfolding check_cycle
  check_cycle-now now snapshot h =
      (fails-none _ no_evaluation_time).0 ((▸-none (fails (now == 0) no_evaluation_time) _).0 h).0

  check_inputs-Listed :
      (now : ℕ) (snapshot : TelemetrySnapshot V) (groups : List (GroupState V))
      (brokers : Map Bytes Broker)
      → check_inputs N now snapshot groups brokers ≡ none
      → All (Listed []) groups × Distinct (group_ids groups)
  unfolding check_inputs
  check_inputs-Listed now snapshot groups brokers h =
      check_groups-Listed now brokers [] groups
        ((▸-none (check_groups N now brokers [] groups) _).0 h).0

  accepted :
      (now : ℕ) (groups : List (GroupState V))
      → (now == 0) ≡ false
      → All (Listed []) groups × Distinct (group_ids groups)
      → Accepted now groups
  accepted now groups after (listed, distinct) = record {
    after_zero = after;
    named = All-weaken (Listed []) (λ g. is_empty g.id ≡ false) (λ g (n, c, o). n) groups listed;
    counted = All-weaken (Listed []) NonNegative (λ g (n, c, o). c) groups listed;
    distinct = distinct;
  }

  pub aggregate-Accepted :
      (now : ℕ) (snapshot : TelemetrySnapshot V) (catalog : ProfileCatalog V)
      (inventory : List Broker) (groups : List (GroupState V)) (result : Aggregation V)
      → aggregate N now snapshot catalog inventory groups ≡ ok result
      → Accepted now groups
  unfolding aggregate
  aggregate-Accepted now snapshot catalog inventory groups result h =
      let (brokers, inputs, assessed) = >>=-eq-ok _ _ h in
      let (listed, read, checked) = >>=-eq-ok _ _ inputs in
      let (rows, first, table) = >>=-eq-ok _ _ read in
      accepted now groups
        (check_cycle-now now snapshot
          (or_fail-ok (check_cycle N now snapshot) inventory rows first).0)
        (check_inputs-Listed now snapshot groups listed
          (or_fail-ok (check_inputs N now snapshot groups listed) listed brokers checked).0)

  -- The same of the groups in the order in which the engine takes them.
  pub Accepted-sort_by :
      (now : ℕ) (groups : List (GroupState V))
      → Accepted now groups
      → Accepted now (sort_by by_id groups)
  Accepted-sort_by now groups a = record {
    after_zero = a.after_zero;
    named = All-sort_by by_id (λ g. is_empty g.id ≡ false) groups a.named;
    counted = All-sort_by by_id NonNegative groups a.counted;
    distinct = Distinct-sort_by by_id (λ g. g.id) groups a.distinct;
  }

  -- What a cycle that `Evaluate` accepts is.
  pub record Decided (e after : Engine V) (now : ℕ) (snapshot : TelemetrySnapshot V)
      (inventory : List Broker) (groups : List (GroupState V)) (d : Decision V) : Type 0 where
    pub result : Aggregation V
    pub aggregated : aggregate N now snapshot e.catalog inventory groups ≡ ok result
    pub later : (not (e.last_at == 0) && leb now e.last_at) ≡ false
    pub engine : (decide_cycle N e now inventory (sort_by by_id groups) result).0 ≡ after
    pub decision : (decide_cycle N e now inventory (sort_by by_id groups) result).1 ≡ d

  module _ (e after : Engine V) (now : ℕ) (snapshot : TelemetrySnapshot V) (inventory : List Broker)
      (groups : List (GroupState V)) (d : Decision V) where
    abbrev Shows : Engine V × Result Error (Decision V) → Type 0
    Shows out = out ≡ (after, ok d) → Decided e after now snapshot inventory groups d

    conclude_cycle-Decided :
        (r : Result Error (Aggregation V))
        → aggregate N now snapshot e.catalog inventory groups ≡ r
        → (not (e.last_at == 0) && leb now e.last_at) ≡ false
        → Shows (conclude_cycle N e now inventory groups r)
    conclude_cycle-Decided (err error) done later h = cc
    conclude_cycle-Decided (ok result) done later h = record {
      result = result;
      aggregated = done;
      later = later;
      engine = ap (λ out. out.0) h;
      decision = cc;
    }

    pub evaluate-Decided : Shows (evaluate N e now snapshot inventory groups)
    unfolding evaluate
    evaluate-Decided =
        if-both Shows (not (e.last_at == 0) && leb now e.last_at) (λ stale h. cc)
          (λ later.
            conclude_cycle-Decided (aggregate N now snapshot e.catalog inventory groups) refl later)
