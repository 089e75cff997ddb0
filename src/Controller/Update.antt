-- ===== src/Controller/Update.antt =====
-- controller/controller.go: how the durable state is replaced. The store's answer to each save is
-- given from outside; a save that fails leaves the state as it was.
use solace_broker_autoscale.Control.Validate.{validate as validate_snapshot}
use solace_broker_autoscale.Control.Compare.{snapshots_equal}
use solace_broker_autoscale.Control.Snapshot.{
  MembershipSnapshot, descriptor_eq, destination_eq, kind_eq, phase_eq, queue_eq, resource_eq,
  transition_eq,
}
use solace_broker_autoscale.Controller.Drain.{max_time}
use solace_broker_autoscale.Controller.Phases.{
  Error, bad_snapshot, commit, membership_conflict, membership_regressed, role_eq, save_failed,
  transition_not_found, transition_phase_eq,
}
use solace_broker_autoscale.Controller.Sources.{
  TelemetrySource, required_telemetry_sources, source_key,
}
use solace_broker_autoscale.Controller.Spec.{broker_eq, requirement_eq}
use solace_broker_autoscale.Prelude.{entry}
use solace_broker_autoscale.Controller.State.{
  CleanupEvidence, DrainSourceEvidence, GroupState, Outcome, PersistentState, Telemetry,
  TransitionRecord, outcome_committed, outcome_rolled_back,
}
use solace_broker_autoscale.Prelude.{
  Bool, List, Option, [], bool_eq, fails, false, if◌then◌else◌, insert, is_empty, length, list_eq,
  lookup, ltb, nat_eq, none, not, option_eq, some, true, ℕ, ◌&&◌, ◌++◌, ◌==◌, ◌||◌, ◌∷◌,
}
use solace_broker_autoscale.Text.{Bytes, UrlParser}

abbrev pub get_group : Bytes → PersistentState → Option GroupState
get_group group p = lookup group p.groups

-- The part of a list past the first entries, so that at most `limit` stay.
abbrev keep_last {ℓ} : {A : Type ℓ} → ℕ → List A → List A
keep_last limit [] = []
keep_last limit (x ∷ xs) = if ltb limit (length (x ∷ xs)) then keep_last limit xs else x ∷ xs

abbrev outcome_of : Bool → Outcome
outcome_of true = outcome_rolled_back
outcome_of false = outcome_committed

abbrev completion_record : GroupState → ℕ → TransitionRecord
completion_record s at = record {
  transition_id = s.spec.id;
  from_epoch = s.spec.from_epoch;
  to_epoch = s.spec.to_epoch;
  started_at = s.started_at;
  completed_at = at;
  outcome = outcome_of s.rolling_back;
  phases = s.phase_history;
}

unfoldable pub record_completion : Bytes → GroupState → ℕ → PersistentState → PersistentState
record_completion group s limit p = elim s.completed_at [
  | none ↦ p
  | some at ↦ record p {
    history =
        insert group (keep_last limit (entry group p.history ++ completion_record s at ∷ []))
          p.history;
  }
]

-- One source of the evidence: its latest sample and zero interval, which both must be there.
unfoldable pub source_evidence : GroupState → TelemetrySource → Option DrainSourceEvidence
source_evidence s source = elim (lookup (source_key source) s.latest_telemetry_by_source) [
  | none ↦ none
  | some t ↦ elim (lookup (source_key source) s.zero_since_by_source) [
    | none ↦ none
    | some since ↦ some (record {
      broker = source.broker;
      queue = source.queue;
      message_id = t.message_id;
      zero_since = since;
      observed_at = t.observed_at;
    })
  ]
]

abbrev with_source : CleanupEvidence → DrainSourceEvidence → CleanupEvidence
with_source e d = record e {
  sources = e.sources ++ d ∷ [];
  zero_since = max_time e.zero_since d.zero_since;
  drain_observed_at =
      if e.drain_observed_at == 0 || ltb d.observed_at e.drain_observed_at
      then d.observed_at
      else e.drain_observed_at;
}

unfoldable pub gather_evidence :
    GroupState → CleanupEvidence → List TelemetrySource → Option CleanupEvidence
gather_evidence s e [] = some e
gather_evidence s e (source ∷ rest) = elim (source_evidence s source) [
  | none ↦ none
  | some d ↦ gather_evidence s (with_source e d) rest
]

abbrev first_evidence : GroupState → ℕ → CleanupEvidence
first_evidence s verified = record {
  transition_id = s.spec.id;
  source_epoch = s.spec.from_epoch;
  target_epoch = s.spec.to_epoch;
  zero_since = 0;
  drain_observed_at = 0;
  fence_verified_at = verified;
  committed_at = s.phase_entered_at;
  old_epoch_fenced = true;
  sources = [];
}

abbrev legacy_evidence : CleanupEvidence → Option ℕ → Option Telemetry → Option CleanupEvidence
legacy_evidence e (some since) (some t) =
    some (record e { zero_since = since; drain_observed_at = t.observed_at })
legacy_evidence e _ _ = none

unfoldable pub cleanup_of : GroupState → ℕ → Option CleanupEvidence
cleanup_of s verified =
    let sources = required_telemetry_sources s.spec in
    if is_empty sources
    then legacy_evidence (first_evidence s verified) s.zero_since s.latest_telemetry
    else gather_evidence s (first_evidence s verified) sources

-- `recordCleanupEvidence`: the evidence, where there is any to record.
unfoldable pub new_cleanup : GroupState → Option CleanupEvidence
new_cleanup s =
    if s.cleanup_recorded
    then none
    else elim s.fence_verified_at [ none ↦ none | some verified ↦ cleanup_of s verified ]

unfoldable pub record_cleanup_evidence :
    Bytes → GroupState → PersistentState → GroupState × PersistentState
record_cleanup_evidence group s p = elim (new_cleanup s) [
  | none ↦ (s, p)
  | some e ↦ (
    record s { cleanup_recorded = true },
    record p {
      cleanup_evidence = insert group (entry group p.cleanup_evidence ++ e ∷ []) p.cleanup_evidence;
    },
  )
]

-- `updateGroup` up to the save: the change, then the evidence and the record that it causes.
unfoldable pub changed_group :
    Bytes
    → ℕ
    → (GroupState → GroupState)
    → GroupState
    → PersistentState
    → GroupState × PersistentState
changed_group group limit update s p =
    let s' = update s in
    let (s'', p') =
      if not (s.phase == commit) && s'.phase == commit
      then record_cleanup_evidence group s' p
      else (s', p) in
    (s'', if not s.completed && s''.completed then record_completion group s'' limit p' else p')

unfoldable pub update_group :
    Bytes → ℕ → Bool → (GroupState → GroupState) → PersistentState → PersistentState × Option Error
update_group group limit saved update p = elim (get_group group p) [
  | none ↦ (p, some transition_not_found)
  | some s ↦
      let (s', p') = changed_group group limit update s p in
      if saved
      then (record p' { groups = insert group s' p'.groups }, none)
      else (p, some save_failed)
]

-- `SaveMembership`, on a snapshot that has passed validation. `membershipSnapshotsEqual` compares
-- the JSON of the two, which shows every field.
unfoldable pub save_valid_membership :
    Bool → MembershipSnapshot → PersistentState → PersistentState × Option Error
save_valid_membership saved snapshot p =
    let store =
      if saved
      then (record p { membership = insert snapshot.scaling_group snapshot p.membership }, none)
      else (p, some save_failed) in
    elim (lookup snapshot.scaling_group p.membership) [
      | none ↦ store
      | some held ↦
          if ltb snapshot.revision held.revision || ltb snapshot.epoch held.epoch
          then (p, some membership_regressed)
          else if snapshot.revision == held.revision
          then (p, fails (not (snapshots_equal held snapshot)) membership_conflict)
          else store
    ]

module _ (parse : UrlParser) where
  unfoldable pub save_membership :
      Bool → MembershipSnapshot → PersistentState → PersistentState × Option Error
  save_membership saved snapshot p = elim (validate_snapshot parse snapshot) [
    | some e ↦ (p, some bad_snapshot)
    | none ↦ save_valid_membership saved snapshot p
  ]
