-- ===== src/Outbox/Runs.antt =====
-- Runs of calls of the outbox (outbox/outbox.go) keep its accounts.
use solace_broker_autoscale.Outbox.Acceptance.{accept_many-Balanced}
use solace_broker_autoscale.Outbox.Accounts.{Balanced}
use solace_broker_autoscale.Outbox.Batches.{complete_batch}
use solace_broker_autoscale.Outbox.Changes.{
  assign_record-Steady, doubt_record-Steady, publish_record-Steady, reject_record-Steady,
  retry_record-Steady, update_many-Balanced,
}
use solace_broker_autoscale.Outbox.Records.{Assignment, Completion, Content, Record}
use solace_broker_autoscale.Outbox.Removals.{complete_batch-Balanced}
use solace_broker_autoscale.Outbox.Store.{
  Env, Store, accept_many, assign_many, event_ids, last_values, mark_ack_uncertain_many,
  mark_in_events_a_many, mark_rejected_many, no_assignment, retry_ack_uncertain_many, value_of,
}
use solace_broker_autoscale.Prelude.{List, [], bool_eq, list_eq, nat_eq, option_eq, pair_eq, ℕ, ◌∷◌}
use solace_broker_autoscale.Text.{Bytes}

pub data Call : Type 0 where
  accept_records : List Record → Call
  assign_records : List (Bytes × Assignment) → Call
  mark_in_events_a : List Bytes → Call
  mark_rejected : List (Bytes × Bytes) → Call
  mark_ack_uncertain : List (Bytes × Bytes) → Call
  retry_ack_uncertain : List Bytes → Call
  complete : List Completion → Call

module _ (encoded_size : Content → ℕ) where
  -- The store after a call, with the answers from outside.
  unfoldable pub perform_call : Env → Store → Call → Store
  perform_call env s (accept_records rs) = (accept_many encoded_size env s rs).0
  perform_call env s (assign_records us) = (assign_many env s us).0
  perform_call env s (mark_in_events_a ids) = (mark_in_events_a_many env s ids).0
  perform_call env s (mark_rejected us) = (mark_rejected_many env s us).0
  perform_call env s (mark_ack_uncertain us) = (mark_ack_uncertain_many env s us).0
  perform_call env s (retry_ack_uncertain ids) = (retry_ack_uncertain_many env s ids).0
  perform_call env s (complete cs) = (complete_batch env s cs).0

  unfoldable pub perform_calls : Store → List (Env × Call) → Store
  perform_calls s [] = s
  perform_calls s ((env, c) ∷ rest) = perform_calls (perform_call env s c) rest

  perform_call-Balanced :
      (env : Env) (s : Store) (c : Call) → Balanced s → Balanced (perform_call env s c)
  unfolding perform_call assign_many mark_in_events_a_many mark_rejected_many
      mark_ack_uncertain_many retry_ack_uncertain_many
  perform_call-Balanced env s (accept_records rs) b = accept_many-Balanced encoded_size env s b rs
  perform_call-Balanced env s (assign_records us) b =
      update_many-Balanced env s b (event_ids us) _
        (assign_record-Steady (λ id. value_of no_assignment id (last_values [] us)))
  perform_call-Balanced env s (mark_in_events_a ids) b =
      update_many-Balanced env s b ids _ publish_record-Steady
  perform_call-Balanced env s (mark_rejected us) b =
      update_many-Balanced env s b (event_ids us) _
        (reject_record-Steady (λ id. value_of [] id (last_values [] us)))
  perform_call-Balanced env s (mark_ack_uncertain us) b =
      update_many-Balanced env s b (event_ids us) _
        (doubt_record-Steady (λ id. value_of [] id (last_values [] us)))
  perform_call-Balanced env s (retry_ack_uncertain ids) b =
      update_many-Balanced env s b ids _ retry_record-Steady
  perform_call-Balanced env s (complete cs) b = complete_batch-Balanced env s b cs

  -- Any calls keep the accounts of the outbox, with any answers from outside: its total is the sum of
  -- the sizes of its records, in memory and in the database, neither limit is exceeded, and each
  -- record is held once, under its own event.
  pub perform_calls-Balanced :
      (calls : List (Env × Call)) (s : Store) → Balanced s → Balanced (perform_calls s calls)
  unfolding perform_calls
  perform_calls-Balanced [] s b = b
  perform_calls-Balanced ((env, c) ∷ rest) s b =
      perform_calls-Balanced rest (perform_call env s c) (perform_call-Balanced env s c b)
