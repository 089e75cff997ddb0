-- ===== src/Policy/Decisions.antt =====
-- What the cycles of policy/engine.go decide: how many transitions are admitted and on what they
-- rest, what becomes of the pressure windows, and that the engine's state can be restored.
use solace_broker_autoscale.Policy.Aggregate.{Aggregation}
use solace_broker_autoscale.Policy.Advice.{Recommendation}
use solace_broker_autoscale.Policy.Engine.{
  Outcome, admits, decide, recommend_in, since_of, sustained_assessment,
}
use solace_broker_autoscale.Policy.Recommend.{Change, Settled, recommend-Justified}
use solace_broker_autoscale.Policy.Types.{Broker, Floats, GroupState}
use solace_broker_autoscale.Prelude.{
  All, List, Map, Memᴰ, [], arith, bool_eq, if-both, if◌then◌else◌, list_eq, nat_eq, option_eq,
  pair_eq, pos, sub64, true, ℕ, ℤ, ◌∷◌, ◌≡◌,
}
use solace_broker_autoscale.Text.{Bytes}
use solace_broker_autoscale.Policy.Aggregate.{aggregate, by_id}
use solace_broker_autoscale.Policy.Budget.{active_sum}
use solace_broker_autoscale.Policy.Cycle.{
  Accepted, Accepted-sort_by, Decided, aggregate-Accepted, evaluate-Decided,
}
use solace_broker_autoscale.Policy.Engine.{Decision, Engine, check_windows, decide_cycle, evaluate}
use solace_broker_autoscale.Policy.Types.{TelemetrySnapshot}
use solace_broker_autoscale.Policy.Windows.{is_pressed, new_window}
use solace_broker_autoscale.Prelude.{int_max, length, lookup, none, ok, pos_part, sort_by, ◌-◌, ◌≤◌}
use solace_broker_autoscale.Policy.Aggregate.{clamp}
use solace_broker_autoscale.Policy.Budget.{subtract_active-difference}
use solace_broker_autoscale.Policy.Engine.{step_windows, subtract_active}
use solace_broker_autoscale.Policy.Windows.{
  check_windows-later, check_windows-step_windows, step_windows-Memᴰ,
}
use solace_broker_autoscale.Prelude.{All-sort_by, All-self, Memᴰ-sort_by, ap, sum_by-sort_by}
use solace_broker_autoscale.Policy.Budget.{clamp-difference, decide-bound}
use solace_broker_autoscale.Policy.Engine.{restore_state, state}
use solace_broker_autoscale.Policy.Windows.{restore_state-ok}
use solace_broker_autoscale.Prelude.{sym, ◌+◌, ◌∙◌}
use solace_broker_autoscale.Prelude.{difference_zero}

module _ {V : Type 0} (N : Floats V) where
  -- What an admitted transition rests on.
  pub record Warranted (now : ℕ) (result : Aggregation V) (inventory : List Broker)
      (m : Map Bytes ℕ) (groups : List (GroupState V)) (r : Recommendation) : Type 0 where
    pub group : GroupState V
    pub listed : Memᴰ group groups
    pub settled : Settled now group (sustained_assessment N result m group)
    pub change :
        Change now group (sustained_assessment N result m group) inventory (since_of group.id m) r

  module _ (now : ℕ) (result : Aggregation V) (inventory : List Broker) (m : Map Bytes ℕ)
      (groups : List (GroupState V)) where
    warranted :
        (g : GroupState V)
        → Memᴰ g groups
        → (recommend_in N now result inventory m g).1 ≡ true
        → Warranted now result inventory m groups (recommend_in N now result inventory m g).0
    unfolding recommend_in
    warranted g here h =
        let a = sustained_assessment N result m g in
        let (settled, change) = recommend-Justified now g a inventory (since_of g.id m) h in
        record { group = g; listed = here; settled = settled; change = change }

    decide-Warranted :
        (gs : List (GroupState V)) (free : ℤ)
        → All (λ g. Memᴰ g groups) gs
        → All (Warranted now result inventory m groups) (decide N now result inventory m free gs).1
    unfolding decide
    decide-Warranted [] free at = tt
    decide-Warranted (g ∷ rest) free (here, at) =
        let p = recommend_in N now result inventory m g in
        let left = if admits free p then sub64 free (pos 1) else free in
        let more = decide-Warranted rest left at in
        if-both (λ (o : Outcome). All (Warranted now result inventory m groups) o.1) (admits free p)
          (λ chosen. (warranted g here (ground arith), more)) (λ refused. more)

  module _ (e after : Engine V) (now : ℕ) (snapshot : TelemetrySnapshot V) (inventory : List Broker)
      (groups : List (GroupState V)) (d : Decision V)
      (done : evaluate N e now snapshot inventory groups ≡ (after, ok d)) where
    abbrev decided : Decided N e after now snapshot inventory groups d
    decided = evaluate-Decided N e after now snapshot inventory groups d done

    accepts : Accepted N now groups
    accepts =
        aggregate-Accepted N now snapshot e.catalog inventory groups decided.result
          decided.aggregated

    ordered_accepts : Accepted N now (sort_by by_id groups)
    ordered_accepts = Accepted-sort_by N now groups accepts

    last_cycle : now ≡ after.last_at
    unfolding decide_cycle
    last_cycle = ap (λ x. x.last_at) decided.engine

    module _ (result : Aggregation V)
        (known : aggregate N now snapshot e.catalog inventory groups ≡ ok result) where
      same : decided.result ≡ result
      same = ground (arith, decided.aggregated, known)

      windows :
          step_windows N now e.last_at result (sort_by by_id groups) e.pressure ≡ after.pressure
      unfolding decide_cycle
      windows = rw (← same) (ap (λ x. x.pressure) decided.engine)

      admitted :
          (decide N now result inventory after.pressure
            (clamp (subtract_active e.limit (sort_by by_id groups)))
            (sort_by by_id groups)).1
          ≡ d.transitions
      unfolding decide_cycle
      admitted = rw (← windows, ← same) (ap (λ x. x.transitions) decided.decision)

      -- Every transition that a cycle admits is of one of its groups: the group's telemetry is known,
      -- it is below its limit with no transition and no cooldown, and the change either appends a ready
      -- and eligible broker of the inventory within the maximum, for a group below its floor or under a
      -- pressure that has lasted its window, or removes the broker chosen as safe without going below
      -- the floor, when there is neither saturation nor backlog.
      pub evaluate-Warranted :
          All (Warranted now result inventory after.pressure groups) d.transitions
      evaluate-Warranted =
          let free = clamp (subtract_active e.limit (sort_by by_id groups)) in
          rw (← admitted) (
            decide-Warranted now result inventory after.pressure groups (sort_by by_id groups) free
              (All-sort_by by_id (λ g. Memᴰ g groups) groups (All-self groups)))

      -- After a cycle a group's pressure window starts at the cycle's time or goes on, when its brokers
      -- are saturated on evidence newer than the last cycle, and is gone otherwise.
      pub evaluate-window :
          (g : GroupState V)
          → Memᴰ g groups
          → lookup g.id after.pressure
            ≡ new_window now (is_pressed N now e.last_at result g) (lookup g.id e.pressure)
      evaluate-window g at = rw (← windows) (
          step_windows-Memᴰ N now e.last_at result (sort_by by_id groups) g e.pressure
            ordered_accepts.distinct (Memᴰ-sort_by by_id g groups at))

    -- A cycle admits at most as many transitions as the engine's limit leaves free beside the
    -- transitions that are active, where the limit and the active transitions fit an `int`.
    pub evaluate-bound :
        (l : ℕ)
        → e.limit ≡ pos l
        → l ≤ int_max
        → active_sum groups ≤ int_max
        → length d.transitions ≤ l - active_sum groups
    evaluate-bound l limit fits sum =
        let total = sum_by-sort_by by_id (λ g. pos_part g.active_transitions) groups in
        let free : clamp (subtract_active e.limit (sort_by by_id groups))
            ≡ pos (l - active_sum groups) =
          ap (λ x. clamp (subtract_active x (sort_by by_id groups)))
            (limit ∙ sym (difference_zero l))
          ∙ (ap clamp (
                subtract_active-difference l 0 (sort_by by_id groups) ordered_accepts.counted fits
                  (omega (arith, total, sum)))
              ∙ (clamp-difference l (0 + active_sum (sort_by by_id groups))
                  ∙ ap pos (omega (arith, total)))) in
        rw (← admitted decided.result decided.aggregated, free)
          (decide-bound N now decided.result inventory after.pressure (sort_by by_id groups)
            (l - active_sum groups) (omega (arith, fits)))

    -- The windows of an engine stay as `RestoreState` wants them: of named groups, at times after zero
    -- and not after the last cycle.
    pub evaluate-check_windows :
        check_windows e.last_at e.pressure ≡ none
        → check_windows after.last_at after.pressure ≡ none
    evaluate-check_windows valid =
        rw (← last_cycle, ← windows decided.result decided.aggregated)
          (check_windows-step_windows N now e.last_at decided.result (sort_by by_id groups)
            e.pressure accepts.after_zero ordered_accepts.named
            (check_windows-later e.last_at now e.pressure (ground (arith, decided.later)) valid))

    -- The state that an engine has after a cycle is restored by any engine, at any time from the
    -- cycle on: the engine then has the same windows and the same last cycle.
    pub evaluate-restore_state :
        (other : Engine V) (restored_at : ℕ)
        → check_windows e.last_at e.pressure ≡ none
        → now ≤ restored_at
        → restore_state other (state after) restored_at
          ≡ (record other { pressure = after.pressure; last_at = after.last_at }, none)
    evaluate-restore_state other restored_at valid h =
        restore_state-ok other after restored_at (ground (arith, last_cycle, accepts.after_zero))
          (omega (arith, last_cycle, h)) (evaluate-check_windows valid)
