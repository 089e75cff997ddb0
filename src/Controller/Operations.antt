-- ===== src/Controller/Operations.antt =====
-- controller/controller.go: `Begin`, `Acknowledge` and `RequestRollback`. The clock and
-- the answer of the store to a save are arguments. The lock of a group makes each call one step.
use solace_broker_autoscale.Control.Snapshot.{
  descriptor_eq, destination_eq, kind_eq, phase_eq, queue_eq, resource_eq, transition_eq,
}
use solace_broker_autoscale.Controller.Commands.{commands_issued}
use solace_broker_autoscale.Controller.Phases.{
  Error, Phase, activate, commit, commit_reached, prepare, role_eq, rollback_unproven, save_failed,
  stale_message, transition_in_progress, transition_not_found, transition_phase_eq,
  unknown_participant, untyped,
}
use solace_broker_autoscale.Controller.Publication.{revision_for, validate}
use solace_broker_autoscale.Controller.Spec.{
  ParticipantRequirement, TransitionSpec, broker_eq, normalized_role_requirements,
  participants_by_phase, requirement_eq, requirement_for,
}
use solace_broker_autoscale.Prelude.{entry}
use solace_broker_autoscale.Controller.State.{
  Acknowledgement, GroupState, Options, PersistentState, RollbackProof, phase_map,
}
use solace_broker_autoscale.Controller.Update.{get_group, update_group}
use solace_broker_autoscale.Prelude.{
  Bool, Eq, List, Map, Option, Result, [], all, bool_eq, conj, err, false, if◌then◌else◌, insert,
  is_empty, length, list_eq, lookup, ltb, nat_eq, none, not, ok, option_eq, some, true, ℕ, ◌&&◌,
  ◌+◌, ◌==◌, ◌||◌, ◌∷◌,
}
use solace_broker_autoscale.Text.{Bytes, UrlParser, bytes_lt}
use solace_broker_autoscale.Outbox.Batches.{ack}
use solace_broker_autoscale.Prelude.{int_eq, pair_eq, pos}

-- `slices.Sort` and `slices.SortFunc` by participant.
unfoldable pub insert_name : Bytes → List Bytes → List Bytes
insert_name n [] = n ∷ []
insert_name n (m ∷ rest) = if bytes_lt m n then m ∷ insert_name n rest else n ∷ m ∷ rest

unfoldable pub sort_names : List Bytes → List Bytes
sort_names [] = []
sort_names (n ∷ rest) = insert_name n (sort_names rest)

unfoldable pub insert_requirement :
    ParticipantRequirement → List ParticipantRequirement → List ParticipantRequirement
insert_requirement r [] = r ∷ []
insert_requirement r (q ∷ rest) =
    if bytes_lt q.participant r.participant then q ∷ insert_requirement r rest else r ∷ q ∷ rest

unfoldable pub sort_requirements : List ParticipantRequirement → List ParticipantRequirement
sort_requirements [] = []
sort_requirements (r ∷ rest) = insert_requirement r (sort_requirements rest)

unfoldable pub sort_phases :
    Map Phase (List ParticipantRequirement) → Map Phase (List ParticipantRequirement)
sort_phases [] = []
sort_phases ((phase, rs) ∷ m) = (phase, sort_requirements rs) ∷ sort_phases m

abbrev pub or_default : ℕ → ℕ → ℕ
or_default d n = if n == 0 then d else n

unfoldable pub with_grace : Options → TransitionSpec → TransitionSpec
with_grace o s = record s {
  drain_grace = if s.drain_grace == pos 0 then pos (o.zero_grace s.group) else s.drain_grace;
}

-- The specification that `Begin` stores.
unfoldable pub normalized_spec :
    TransitionSpec → Map Phase (List ParticipantRequirement) → TransitionSpec
normalized_spec s m = record s {
  required_participants = sort_names s.required_participants;
  role_requirements = sort_phases m;
  participant_requirements = participants_by_phase (sort_phases m);
}

abbrev agrees_on {ℓ} : {V : Type ℓ} ⦃e : Eq V⦄ → Map Phase (List V) → Phase × List V → Bool
agrees_on m (phase, vs) = vs == entry phase m

abbrev phase_maps_equal {ℓ} :
    {V : Type ℓ} ⦃e : Eq V⦄ → Map Phase (List V) → Map Phase (List V) → Bool
phase_maps_equal a b = length a == length b && all (agrees_on b) a

-- `equalSpec`; the broker descriptors and the required participants are not compared.
unfoldable pub equal_spec : TransitionSpec → TransitionSpec → Bool
equal_spec a b = conj (
    (a.id == b.id)
    ∷ (a.namespace == b.namespace)
    ∷ (a.library_version == b.library_version)
    ∷ (a.group == b.group)
    ∷ (a.revision == b.revision)
    ∷ (a.from_epoch == b.from_epoch)
    ∷ (a.to_epoch == b.to_epoch)
    ∷ (a.queue == b.queue)
    ∷ (a.destination == b.destination)
    ∷ (a.hash_contract == b.hash_contract)
    ∷ (a.algorithm == b.algorithm)
    ∷ (a.drain_grace == b.drain_grace)
    ∷ (a.current == b.current)
    ∷ (a.proposed == b.proposed)
    ∷ (a.current_resources == b.current_resources)
    ∷ (a.proposed_resources == b.proposed_resources)
    ∷ phase_maps_equal a.participant_requirements b.participant_requirements
    ∷ phase_maps_equal a.role_requirements b.role_requirements
    ∷ [])

unfoldable pub can_replace_completed : GroupState → TransitionSpec → Bool
can_replace_completed g next =
    if not g.completed || next.id == g.spec.id
    then false
    else if g.rolling_back
    then next.from_epoch == g.spec.from_epoch
      && ltb (revision_for g.spec.revision 5) next.revision
      && g.spec.current == next.current
    else (next.from_epoch == g.spec.to_epoch
        && ltb (revision_for g.spec.revision 4) next.revision
        && g.spec.proposed == next.current)

unfoldable pub created_group : Options → ℕ → TransitionSpec → GroupState
created_group o now s = record {
  spec = s;
  phase = prepare;
  acknowledgements = [];
  issued_command_ids = [];
  latest_telemetry_by_source = [];
  zero_since_by_source = [];
  telemetry_messages = [];
  prepare_published = false;
  fence_attempted = false;
  fenced = false;
  pause_published = false;
  drain_published = false;
  commit_published = false;
  target_ingress_enabled = false;
  target_ingress_verified = false;
  activate_published = false;
  latest_telemetry = none;
  zero_since = none;
  rolling_back = false;
  rollback_published = false;
  unfenced = false;
  completed = false;
  started_at = now;
  phase_entered_at = now;
  phase_deadline = now + o.phase_timeout s.group;
  completed_at = none;
  phase_history = record { phase = prepare; entered_at = now; exited_at = none } ∷ [];
  fence_verified_at = none;
  target_ingress_verified_at = none;
  cleanup_recorded = false;
}

unfoldable pub store_created :
    Options
    → ℕ
    → Bool
    → TransitionSpec
    → PersistentState
    → PersistentState × Result Error GroupState
store_created o now saved s p =
    let created = created_group o now s in
    if saved
    then (record p { groups = insert s.group created p.groups }, ok created)
    else (p, err save_failed)

unfoldable pub begin_normalized :
    Options
    → ℕ
    → Bool
    → TransitionSpec
    → PersistentState
    → PersistentState × Result Error GroupState
begin_normalized o now saved s p = elim (get_group s.group p) [
  | none ↦ store_created o now saved s p
  | some existing ↦
      if equal_spec existing.spec s
      then (p, ok existing)
      else if not (can_replace_completed existing s)
      then (p, err transition_in_progress)
      else store_created o now saved s p
]

module _ (parse : UrlParser) where
  unfoldable pub begin :
      Options
      → ℕ
      → Bool
      → TransitionSpec
      → PersistentState
      → PersistentState × Result Error GroupState
  begin o now saved given p =
      let s = with_grace o given in
      elim (validate parse s) [
        | some e ↦ (p, err e)
        | none ↦ elim (normalized_role_requirements s) [
          | err e ↦ (p, err e)
          | ok m ↦ begin_normalized o now saved (normalized_spec s m) p
        ]
      ]

abbrev issued_to : GroupState → Phase → Bytes → Bytes
issued_to g phase participant = elim (lookup participant (phase_map phase g.issued_command_ids)) [
  | none ↦ []
  | some id ↦ id
]

-- An untyped requirement takes no identity field, a typed one wants every identity field to fit.
unfoldable pub identity_fits : GroupState → ParticipantRequirement → Acknowledgement → Bool
identity_fits g r ack =
    if r.role == untyped
    then is_empty ack.command_id && is_empty ack.authenticated_participant && ack.role == untyped
    else (ack.command_id == issued_to g ack.phase ack.participant
        && ack.authenticated_participant == ack.participant
        && ack.role == r.role)

unfoldable pub in_scope : GroupState → Acknowledgement → Bool
in_scope g ack =
    not g.completed
    && not g.rolling_back
    && commands_issued g ack.phase
    && ack.transition_id == g.spec.id
    && ack.epoch == g.spec.to_epoch
    && ack.phase == g.phase

unfoldable pub put_acknowledgement : Acknowledgement → GroupState → GroupState
put_acknowledgement ack g = record g {
  acknowledgements =
      insert ack.phase
        (insert ack.participant ack.observed_at (phase_map ack.phase g.acknowledgements))
        g.acknowledgements;
}

-- The new state of the group, or nothing for a replay.
unfoldable pub acknowledge_group : Acknowledgement → GroupState → Result Error (Option GroupState)
acknowledge_group ack g =
    if not (in_scope g ack)
    then err stale_message
    else elim (requirement_for g.spec ack.phase ack.participant) [
      | none ↦ err unknown_participant
      | some r ↦
          if not (ack.namespace == g.spec.namespace) || not (identity_fits g r ack)
          then err stale_message
          else elim (lookup ack.participant (phase_map ack.phase g.acknowledgements)) [
            | none ↦ ok (some (put_acknowledgement ack g))
            | some held ↦
                if ltb held ack.observed_at then ok (some (put_acknowledgement ack g)) else ok none
          ]
    ]

unfoldable pub acknowledge :
    ℕ → Bool → Acknowledgement → PersistentState → PersistentState × Option Error
acknowledge now saved given p =
    let ack = record given { observed_at = or_default now given.observed_at } in
    elim (get_group ack.group p) [
      | none ↦ (p, some transition_not_found)
      | some g ↦ elim (acknowledge_group ack g) [
        | err e ↦ (p, some e)
        | ok none ↦ (p, none)
        | ok (some g') ↦
            if saved
            then (record p { groups = insert ack.group g' p.groups }, none)
            else (p, some save_failed)
      ]
    ]

unfoldable pub request_rollback :
    Options → Bool → Bytes → RollbackProof → PersistentState → PersistentState × Option Error
request_rollback o saved group proof p = elim (get_group group p) [
  | none ↦ (p, some transition_not_found)
  | some g ↦
      if g.phase == commit || g.phase == activate || g.commit_published || g.activate_published
      then (p, some commit_reached)
      else if not (proof.transition_id == g.spec.id)
          || not proof.source_membership_intact
          || not proof.proposed_not_activated
          || ((g.fence_attempted || g.fenced) && not proof.fence_reversible)
      then (p, some rollback_unproven)
      else if g.rolling_back
      then (p, none)
      else update_group group o.history_limit saved (λ s. record s { rolling_back = true }) p
]
