-- ===== src/Tests/Outbox.antt =====
-- The theorems on the outbox at inputs that meet their hypotheses.
use solace_broker_autoscale.Outbox.Records.{Record, Error}
use solace_broker_autoscale.Outbox.Store.{Env, Store}
use solace_broker_autoscale.Outbox.Lanes.{eligible_for}
use solace_broker_autoscale.Outbox.Runs.{Call}
use solace_broker_autoscale.Control.Snapshot.{
  descriptor_eq, destination_eq, kind_eq, phase_eq, queue_eq, resource_eq, transition_eq,
}
use solace_broker_autoscale.Controller.Phases.{role_eq, transition_phase_eq}
use solace_broker_autoscale.Controller.Spec.{broker_eq, requirement_eq}
use solace_broker_autoscale.Outbox.Batches.{
  applied, apply_outcome, commit_completed, compact_order_if_needed, complete_batch, deleted_of,
  drop_records, remove_all, resolve_all, updated_of,
}
use solace_broker_autoscale.Outbox.Entries.{Keyed, after_batch}
use solace_broker_autoscale.Outbox.Completions.{complete_batch-after_batch}
use solace_broker_autoscale.Outbox.Lanes.{refresh_lane, refresh_lane_for_record}
use solace_broker_autoscale.Outbox.Records.{
  Completion, acknowledged, effective_ordering_key, in_events_a, rejected,
}
use solace_broker_autoscale.Outbox.Store.{put_all_updated, rewrite_records}
use solace_broker_autoscale.Prelude.{
  ==_iff, List, Result, [], arith, bool_eq, false, list_eq, lookup, nat_eq, ok, option_eq, pair_eq,
  refl, true, ◌∷◌, ◌≡◌,
}
use solace_broker_autoscale.Text.{bytes}
use solace_broker_autoscale.Outbox.Accounts.{Balanced}
use solace_broker_autoscale.Outbox.Lanes.{Lanes}
use solace_broker_autoscale.Outbox.Records.{Content, ready, unset, validate_new_record}
use solace_broker_autoscale.Outbox.Runs.{
  accept_records, complete, perform_call, perform_calls, perform_calls-Balanced,
}
use solace_broker_autoscale.Outbox.Selection.{eligible_for-slots, of_broker_count}
use solace_broker_autoscale.Outbox.Store.{
  accept_loop, accept_many, add_all, check_accepted, commit_accepted, stamp,
}
use solace_broker_autoscale.Prelude.{length, none, some, sub64, ℕ, ◌≤◌}

abbrev sent : Record
sent = record {
  content = record {
    event_id = bytes "e";
    payload = bytes "p";
    topic = bytes "t";
    properties = [];
    ordering_key = bytes "k";
    group = bytes "g";
    hash = bytes "h";
    hash_contract = bytes "c";
    library_version = bytes "v";
  };
  routing_algorithm = bytes "r";
  broker_endpoint = bytes "amqps://b";
  epoch = 3;
  broker = bytes "b";
  destination = bytes "d";
  state = in_events_a;
  attempts = 2;
  last_error = [];
  sequence = 1;
  accepted_at = 5;
  updated_at = 6;
  size_bytes = 9;
}

abbrev outbox : Store
outbox = record {
  limits = record { max_messages = 4; max_bytes = 100 };
  is_open = true;
  database = record {
    by_sequence = (1, sent) ∷ [];
    by_event = (bytes "e", 1) ∷ [];
    next_sequence = 2;
    total_bytes = 9;
  };
  records = (bytes "e", sent) ∷ [];
  order = bytes "e" ∷ [];
  lanes =
      (
        bytes "k",
        record {
          key = bytes "k";
          event_ids = bytes "e" ∷ [];
          head = 0;
          head_sequence = 1;
          in_ready = false;
        },
      )
      ∷ [];
  next_seq = 2;
  bytes = 9;
  high_water_messages = 1;
  high_water_bytes = 9;
  deleted = 0;
}

abbrev calm_env : Env
calm_env = record { now = 7; encodes = λ r. true; commits = true }

-- The first completion is of an attempt that is over, the second of the one that is going on.
abbrev late_result : Completion
late_result = record {
  event_id = bytes "e";
  attempts = 1;
  epoch = 3;
  outcome = acknowledged;
  reason = [];
}

abbrev rejection : Completion
rejection = record {
  event_id = bytes "e";
  attempts = 2;
  epoch = 3;
  outcome = rejected;
  reason = bytes "full";
}

abbrev completed : Store × Result Error (List Completion)
completed = complete_batch calm_env outbox (rejection ∷ [])

completes : completed ≡ (completed.0, ok (rejection ∷ []))
unfolding complete_batch resolve_all apply_outcome applied updated_of deleted_of commit_completed
    compact_order_if_needed put_all_updated remove_all drop_records rewrite_records refresh_lane
    refresh_lane_for_record effective_ordering_key
completes = refl

late_is_ignored : (complete_batch calm_env outbox (late_result ∷ [])).0.records ≡ outbox.records
unfolding complete_batch resolve_all applied
late_is_ignored = refl

outbox-Keyed : Keyed outbox.records
outbox-Keyed k r h = ground (arith, ==_iff (bytes "e") k)

complete_batch-after_batch_example :
    lookup (bytes "e") completed.0.records ≡ after_batch 7 (rejection ∷ []) (bytes "e") sent
complete_batch-after_batch_example =
    complete_batch-after_batch calm_env outbox completed.0 (rejection ∷ []) (rejection ∷ [])
      outbox-Keyed (bytes "e") sent refl completes

abbrev new_record : Record
new_record = record sent {
  content = record sent.content { event_id = bytes "f" };
  epoch = 0;
  broker = [];
  destination = [];
  state = unset;
}

abbrev calls : List (Env × Call)
calls = (calm_env, complete (rejection ∷ [])) ∷ (calm_env, accept_records (new_record ∷ [])) ∷ []

-- Every content measures 9.
abbrev nine : Content → ℕ
nine c = 9

outbox-Balanced : Balanced outbox
outbox-Balanced = record {
  keyed = outbox-Keyed;
  distinct = (refl, tt);
  summed = refl;
  recorded = refl;
  numbered = refl;
  within_bytes = omega arith;
  within_count = omega arith;
  bytes_fit = omega arith;
  count_fits = omega arith;
}

perform_calls-Balanced_example : Balanced (perform_calls nine outbox calls)
perform_calls-Balanced_example = perform_calls-Balanced nine calls outbox outbox-Balanced

both_are_held : length (perform_calls nine outbox calls).records ≡ 2
unfolding perform_calls perform_call complete_batch resolve_all apply_outcome applied updated_of
    deleted_of commit_completed compact_order_if_needed put_all_updated remove_all accept_many
    accept_loop check_accepted validate_new_record stamp commit_accepted add_all sub64
both_are_held = refl

-- The lane of the record, once it is ready.
abbrev ready_record : Record
ready_record = record sent { state = ready }

abbrev ready_lane : Lanes
ready_lane =
    (
      bytes "k",
      record {
        key = bytes "k";
        event_ids = bytes "e" ∷ [];
        head = 0;
        head_sequence = 1;
        in_ready = true;
      },
    )
    ∷ []

eligible_for-slots_example :
    (of_broker_count (bytes "b") (
        eligible_for
          ((bytes "e", ready_record) ∷ [])
          ready_lane
          5
          none
          (some ((bytes "b", 1) ∷ [])))
      ≤ 1)
    × (length (
          eligible_for
            ((bytes "e", ready_record) ∷ [])
            ready_lane
            5
            none
            (some ((bytes "b", 1) ∷ [])))
        ≤ 5)
eligible_for-slots_example =
    eligible_for-slots ((bytes "e", ready_record) ∷ []) ready_lane 5 none ((bytes "b", 1) ∷ [])
      (bytes "b")
