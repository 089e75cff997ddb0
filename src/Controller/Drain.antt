-- ===== src/Controller/Drain.antt =====
-- controller/controller.go `drainComplete` and `commonZeroSince`: when every source queue has been
-- empty for long enough.
use solace_broker_autoscale.Control.Snapshot.{
  descriptor_eq, destination_eq, kind_eq, phase_eq, queue_eq, resource_eq, transition_eq,
}
use solace_broker_autoscale.Controller.Commands.{fresh_at}
use solace_broker_autoscale.Controller.Phases.{role_eq, transition_phase_eq}
use solace_broker_autoscale.Controller.Sources.{
  TelemetrySource, required_telemetry_sources, source_key,
}
use solace_broker_autoscale.Controller.Spec.{broker_eq, requirement_eq}
use solace_broker_autoscale.Controller.State.{GroupState, Telemetry, is_known_zero}
use solace_broker_autoscale.Prelude.{
  ℤ, difference, leb_ℤ, int_eq, Bool, List, Map, Option, [], bool_eq, false, if◌then◌else◌,
  is_empty, leb, list_eq, lookup, ltb, nat_eq, none, option_eq, some, ℕ, ◌&&◌, ◌==◌, ◌||◌, ◌∷◌,
}
use solace_broker_autoscale.Text.{Bytes}
use solace_broker_autoscale.Prelude.{difference, int_eq, leb_ℤ, pair_eq, ℤ}

abbrev pub max_time : ℕ → ℕ → ℕ
max_time a b = if ltb a b then b else a

-- The last time of a map, or none where it is the zero time.
abbrev latest_time : Map Bytes ℕ → ℕ
latest_time [] = 0
latest_time ((k, t) ∷ m) = max_time t (latest_time m)

unfoldable pub common_zero_since : Map Bytes ℕ → Option ℕ
common_zero_since m = if latest_time m == 0 then none else some (latest_time m)

-- The sample of a source is known zero, in the DRAIN phase, not in the future, and fresh.
unfoldable pub is_drained_sample : GroupState → ℕ → ℕ → Telemetry → Bool
is_drained_sample s now freshness t =
    is_known_zero t && leb s.phase_entered_at t.observed_at && fresh_at now freshness t.observed_at

-- The sample of a source and the start of its zero interval, if the source counts as drained.
unfoldable pub drained_source : GroupState → ℕ → ℕ → TelemetrySource → Option (Telemetry × ℕ)
drained_source s now freshness source =
    elim (lookup (source_key source) s.latest_telemetry_by_source) [
      | none ↦ none
      | some t ↦ elim (lookup (source_key source) s.zero_since_by_source) [
        | none ↦ none
        | some since ↦ if is_drained_sample s now freshness t then some (t, since) else none
      ]
    ]

abbrev earlier_time : ℕ → ℕ → ℕ
earlier_time earliest t = if earliest == 0 || ltb t earliest then t else earliest

-- The loop over the sources, with `latestZeroSince` and `earliestObservedAt`.
unfoldable pub scan_sources : GroupState → ℕ → ℕ → ℕ → ℕ → List TelemetrySource → Option (ℕ × ℕ)
scan_sources s now freshness latest earliest [] = some (latest, earliest)
scan_sources s now freshness latest earliest (source ∷ rest) =
    elim (drained_source s now freshness source) [
      | none ↦ none
      | some (t, since) ↦
          scan_sources s now freshness (max_time latest since) (earlier_time earliest t.observed_at)
            rest
    ]

-- Specifications that name no source rest on one aggregate sample.
unfoldable pub legacy_drain_complete : GroupState → ℕ → ℕ → Option Telemetry → Option ℕ → Bool
legacy_drain_complete s now freshness none since = false
legacy_drain_complete s now freshness (some t) none = false
legacy_drain_complete s now freshness (some t) (some since) =
    is_drained_sample s now freshness t && leb_ℤ s.spec.drain_grace (difference t.observed_at since)

-- `earliestObservedAt.Sub(latestZeroSince) >= DrainGrace`.
abbrev spans : ℤ → Option (ℕ × ℕ) → Bool
spans grace none = false
spans grace (some (latest, earliest)) = leb_ℤ grace (difference earliest latest)

unfoldable pub drain_complete : GroupState → ℕ → ℕ → Bool
drain_complete s now freshness =
    let sources = required_telemetry_sources s.spec in
    if is_empty sources
    then legacy_drain_complete s now freshness s.latest_telemetry s.zero_since
    else spans s.spec.drain_grace (scan_sources s now freshness s.phase_entered_at 0 sources)
