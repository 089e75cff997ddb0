-- ===== src/Policy/Engine.antt =====
-- policy/engine.go: the pressure windows, the recommendation for a group, and `Evaluate`.
use solace_broker_autoscale.Prelude.{Bool}
use solace_broker_autoscale.Policy.Aggregate.{
  Aggregation, aggregate, broker_assessment, by_id, clamp,
}
use solace_broker_autoscale.Policy.Assess.{
  BrokerAssessment, GroupAssessment, broker_saturation, no_load, pressure_unset, state_known,
  state_unset,
}
use solace_broker_autoscale.Policy.Types.{
  Broker, Error, Floats, GroupState, ProfileCatalog, TelemetrySnapshot, bad_options, bad_window,
  future_evaluation, no_evaluation_time, no_last_evaluation, not_monotonic,
}
use solace_broker_autoscale.Prelude.{
  List, Map, Option, Result, [], bool_eq, delete, err, fails, false, if◌then◌else◌, insert,
  is_empty, leb, list_eq, lookup, ltb, ltb_ℤ, nat_eq, none, not, ok, option_eq, pair_eq, pos, some,
  sort_by, sub64, true, ℕ, ℤ, ◌&&◌, ◌==◌, ◌||◌, ◌∷◌, ◌▸◌,
}
use solace_broker_autoscale.Text.{Bytes}
use solace_broker_autoscale.Policy.Advice.{Recommendation, action_none, global_limit, recommend}

pub record Decision (V : Type 0) : Type 0 where
  pub at : ℕ
  pub aggregation : Aggregation V
  pub groups : List Recommendation
  pub transitions : List Recommendation

-- `catalog`, `options.MaxConcurrentTransitions`, `pressure` and `lastAt`.
pub record Engine (V : Type 0) : Type 0 where
  pub catalog : ProfileCatalog V
  pub limit : ℤ
  pub pressure : Map Bytes ℕ
  pub last_at : ℕ

pub record EngineState : Type 0 where
  pub last_evaluated_at : ℕ
  pub pressure_since : Map Bytes ℕ

module _ {V : Type 0} where
  unfoldable pub new_engine : ProfileCatalog V → ℤ → Result Error (Engine V)
  new_engine catalog limit =
      if ltb_ℤ limit (pos 1)
      then err bad_options
      else ok (record { catalog = catalog; limit = limit; pressure = []; last_at = 0 })

  unfoldable pub state : Engine V → EngineState
  state e = record { last_evaluated_at = e.last_at; pressure_since = e.pressure }

unfoldable pub check_windows : ℕ → Map Bytes ℕ → Option Error
check_windows last [] = none
check_windows last ((group, since) ∷ rest) =
    fails (is_empty group || since == 0 || ltb last since) bad_window ▸ check_windows last rest

unfoldable pub check_state : EngineState → ℕ → Option Error
check_state s now =
    fails (now == 0) no_evaluation_time
    ▸ fails (not (s.last_evaluated_at == 0) && ltb now s.last_evaluated_at) future_evaluation
    ▸ fails (s.last_evaluated_at == 0 && not (is_empty s.pressure_since)) no_last_evaluation
    ▸ check_windows s.last_evaluated_at s.pressure_since

abbrev pub restore_checked :
    {V : Type 0} → Engine V → EngineState → Option Error → Engine V × Option Error
restore_checked e s (some error) = (e, some error)
restore_checked e s none =
    (record e { last_at = s.last_evaluated_at; pressure = s.pressure_since }, none)

-- The engine after `RestoreState`, with the error.
unfoldable pub restore_state : {V : Type 0} → Engine V → EngineState → ℕ → Engine V × Option Error
restore_state e s now = restore_checked e s (check_state s now)

module _ {V : Type 0} where
  unfoldable pub has_new_pressure_observation :
      ℕ → List (BrokerAssessment V) → Floats V → List Bytes → Bool
  has_new_pressure_observation after assessed N [] = true
  has_new_pressure_observation after assessed N (id ∷ rest) =
      ltb after (broker_assessment N assessed id).observed_at
      && has_new_pressure_observation after assessed N rest

  abbrev pub saturated : GroupAssessment V → Bool
  saturated a = elim a.state [
    | state_known ↦ elim a.pressure [ broker_saturation ↦ true | _ ↦ false ]
    | _ ↦ false
  ]

-- The window of one group after a cycle: `fresh` is `freshCycle`.
abbrev pub next_window : ℕ → Bytes → Bool → Map Bytes ℕ → Map Bytes ℕ
next_window now id fresh m = elim (lookup id m) [
  | none ↦ if fresh then insert id now m else m
  | some since ↦ if fresh then m else delete id m
]

-- A limit less the number of active transitions of every group.
unfoldable pub subtract_active : {V : Type 0} → ℤ → List (GroupState V) → ℤ
subtract_active free [] = free
subtract_active free (g ∷ rest) = subtract_active (sub64 free g.active_transitions) rest

abbrev pub since_of : Bytes → Map Bytes ℕ → ℕ
since_of id m = elim (lookup id m) [ none ↦ 0 | some since ↦ since ]

-- The recommendation over the global limit, with `Evidence` and the pressure kept.
abbrev pub over_limit : Recommendation → Recommendation
over_limit r = record r {
  reason = global_limit;
  action = action_none;
  broker_id = [];
  proposed_membership = [];
}

-- The recommendations and the admitted transitions of `Decision`.
abbrev pub Outcome : Type 0
Outcome = List Recommendation × List Recommendation

-- The guard `freeGlobal > 0`, on the recommendation of one group.
abbrev pub admits : ℤ → Recommendation × Bool → Bool
admits free (r, eligible) = eligible && ltb_ℤ (pos 0) free

abbrev pub put_recommendation : ℤ → Recommendation × Bool → Outcome → Outcome
put_recommendation free (r, eligible) (groups, transitions) =
    if admits free (r, eligible)
    then (r ∷ groups, r ∷ transitions)
    else ((if eligible then over_limit r else r) ∷ groups, transitions)

module _ {V : Type 0} (N : Floats V) where
  -- A group that has no assessment: the zero value.
  abbrev unset_group : GroupAssessment V
  unset_group = record {
    group_id = [];
    state = state_unset;
    reason = [];
    pressure = pressure_unset;
    workload_utilization = no_load N;
    shared_utilization = no_load N;
    queued = N.zero;
    unacked = N.zero;
    ready_warm_brokers = 0;
    warm_broker_shortfall = pos 0;
    sustained_since = 0;
  }

  unfoldable pub group_assessment : List (GroupAssessment V) → Bytes → GroupAssessment V
  group_assessment [] id = unset_group
  group_assessment (a ∷ rest) id = if a.group_id == id then a else group_assessment rest id

  unfoldable pub update_group_assessment :
      GroupAssessment V → List (GroupAssessment V) → List (GroupAssessment V)
  update_group_assessment a [] = []
  update_group_assessment a (b ∷ rest) =
      let more = update_group_assessment a rest in
      if b.group_id == a.group_id then a ∷ rest else b ∷ more

  -- The cycle's group brings new evidence from each of its brokers, or it is the first cycle.
  unfoldable pub is_fresh : ℕ → Aggregation V → GroupState V → Bool
  is_fresh last result g =
      last == 0 || has_new_pressure_observation last result.brokers N g.membership

  unfoldable pub step_window : ℕ → ℕ → Aggregation V → GroupState V → Map Bytes ℕ → Map Bytes ℕ
  step_window now last result g m =
      if saturated (group_assessment result.groups g.id)
      then next_window now g.id (is_fresh last result g) m
      else delete g.id m

  unfoldable pub step_windows :
      ℕ → ℕ → Aggregation V → List (GroupState V) → Map Bytes ℕ → Map Bytes ℕ
  step_windows now last result [] m = m
  step_windows now last result (g ∷ rest) m =
      step_windows now last result rest (step_window now last result g m)

  abbrev pub sustained_assessment : Aggregation V → Map Bytes ℕ → GroupState V → GroupAssessment V
  sustained_assessment result m g = record (group_assessment result.groups g.id) {
    sustained_since = since_of g.id m;
  }

  unfoldable pub recommend_in :
      ℕ → Aggregation V → List Broker → Map Bytes ℕ → GroupState V → Recommendation × Bool
  recommend_in now result inventory m g =
      recommend now g (sustained_assessment result m g) inventory (since_of g.id m)

  -- The loop that admits recommendations while transitions are free.
  unfoldable pub decide :
      ℕ → Aggregation V → List Broker → Map Bytes ℕ → ℤ → List (GroupState V) → Outcome
  decide now result inventory m free [] = ([], [])
  decide now result inventory m free (g ∷ rest) =
      let r = recommend_in now result inventory m g in
      put_recommendation free r
        (decide now result inventory m (if admits free r then sub64 free (pos 1) else free) rest)

  -- Each group's assessment is written back with the origin of its window.
  unfoldable pub update_all :
      Map Bytes ℕ
      → Aggregation V
      → List (GroupState V)
      → List (GroupAssessment V)
      → List (GroupAssessment V)
  update_all m result [] assessed = assessed
  update_all m result (g ∷ rest) assessed =
      update_all m result rest (update_group_assessment (sustained_assessment result m g) assessed)

  -- `aggregation` is the one `Aggregate` has returned, whose groups `byGroup` and `byBroker` hold.
  unfoldable pub decide_cycle :
      Engine V → ℕ → List Broker → List (GroupState V) → Aggregation V → Engine V × Decision V
  decide_cycle e now inventory ordered result =
      let m = step_windows now e.last_at result ordered e.pressure in
      let free = clamp (subtract_active e.limit ordered) in
      let outcome = decide now result inventory m free ordered in
      (
        record e { pressure = m; last_at = now },
        record {
          at = now;
          aggregation = record result { groups = update_all m result ordered result.groups };
          groups = outcome.0;
          transitions = outcome.1;
        },
      )

  -- The rest of `Evaluate`, with what `Aggregate` returned.
  abbrev pub conclude_cycle :
      Engine V
      → ℕ
      → List Broker
      → List (GroupState V)
      → Result Error (Aggregation V)
      → Engine V × Result Error (Decision V)
  conclude_cycle e now inventory groups (err error) = (e, err error)
  conclude_cycle e now inventory groups (ok result) =
      let next : Engine V × Decision V =
        decide_cycle e now inventory (sort_by by_id groups) result in
      (next.0, ok next.1)

  -- `Evaluate` on an engine, with the engine it leaves.
  unfoldable pub evaluate :
      Engine V
      → ℕ
      → TelemetrySnapshot V
      → List Broker
      → List (GroupState V)
      → Engine V × Result Error (Decision V)
  evaluate e now snapshot inventory groups =
      if not (e.last_at == 0) && leb now e.last_at
      then (e, err not_monotonic)
      else conclude_cycle e now inventory groups
          (aggregate N now snapshot e.catalog inventory groups)
