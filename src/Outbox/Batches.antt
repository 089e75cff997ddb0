-- ===== src/Outbox/Batches.antt =====
-- outbox/outbox.go: `CompleteBatch`, `Ack` and the readers of the store.
use solace_broker_autoscale.Prelude.{Bool}
use solace_broker_autoscale.Outbox.Lanes.{Records, present, remove_indexed}
use solace_broker_autoscale.Outbox.Records.{
  Completion, CompletionOutcome, Error, Record, State, ack_uncertain, acknowledged, closed, id_of,
  in_events_a, invalid_record, invalid_state, not_encoded, not_found, not_persisted, other_outcome,
  ready, rejected, state_beq, unassigned, uncertain,
}
use solace_broker_autoscale.Outbox.Store.{Database, Env, Store, put_all_updated, rewrite_records}
use solace_broker_autoscale.Prelude.{
  List, Option, Result, [], bool_eq, contains, delete, err, fails, false, if◌then◌else◌, is_empty,
  leb, length, list_eq, lookup, ltb, nat_eq, none, not, ok, option_eq, or_fail, pair_eq, some,
  sum_by, true, ℕ, ◌&&◌, ◌*◌, ◌+◌, ◌-◌, ◌==◌, ◌>>=◌, ◌||◌, ◌∷◌, ◌▸◌,
}
use solace_broker_autoscale.Text.{Bytes}
use solace_broker_autoscale.Prelude.{guarded}

-- What a completion does: nothing when it is stale, or a removal, or a changed record.
pub data Resolution : Type 0 where
  stale : Resolution
  removed changed : Record → Resolution

-- The completion names the attempt that the record is in.
abbrev pub names_attempt : Completion → Record → Bool
names_attempt c r = r.attempts == c.attempts && r.epoch == c.epoch

abbrev pub in_flight : State → Bool
in_flight st = state_beq st in_events_a || state_beq st ack_uncertain

abbrev pub settle : ℕ → State → Bytes → Record → Resolution
settle now st reason r =
    if state_beq r.state in_events_a
    then changed (record r { state = st; last_error = reason; updated_at = now })
    else stale

-- The switch on the outcome.
unfoldable pub apply_outcome : ℕ → CompletionOutcome → Bytes → Record → Result Error Resolution
apply_outcome now acknowledged reason r = ok (if in_flight r.state then removed r else stale)
apply_outcome now rejected reason r = ok (settle now ready reason r)
apply_outcome now uncertain reason r = ok (settle now ack_uncertain reason r)
apply_outcome now other_outcome reason r = err invalid_record

abbrev pub resolve_found : ℕ → Completion → Option Record → Result Error Resolution
resolve_found now c none = ok stale
resolve_found now c (some r) =
    if names_attempt c r then apply_outcome now c.outcome c.reason r else ok stale

abbrev pub encoded : Env → Resolution → Option Error
encoded env stale = none
encoded env (removed r) = none
encoded env (changed r) = fails (not (env.encodes r)) not_encoded

abbrev pub keep_encoded : Env → Result Error Resolution → Result Error Resolution
keep_encoded env (err e) = err e
keep_encoded env (ok r) = or_fail (encoded env r) r

abbrev pub check_completion : List Bytes → Completion → Option Error
check_completion seen c =
    fails (is_empty c.event_id) invalid_record ▸ fails (contains seen c.event_id) invalid_record

abbrev pub resolve_one : Env → Records → List Bytes → Completion → Result Error Resolution
resolve_one env records seen c =
    guarded (check_completion seen c)
      (keep_encoded env (resolve_found env.now c (lookup c.event_id records)))

abbrev pub cons_resolved :
    Completion
    → Resolution
    → Result Error (List (Completion × Resolution))
    → Result Error (List (Completion × Resolution))
cons_resolved c r (err e) = err e
cons_resolved c r (ok more) = ok ((c, r) ∷ more)

-- The loop of `CompleteBatch`, with `seen`: what each completion does, in order.
unfoldable pub resolve_all :
    Env → Records → List Bytes → List Completion → Result Error (List (Completion × Resolution))
resolve_all env records seen [] = ok []
resolve_all env records seen (c ∷ rest) =
    resolve_one env records seen c
    >>= (λ r. cons_resolved c r (resolve_all env records (c.event_id ∷ seen) rest))

abbrev pub is_stale : Resolution → Bool
is_stale stale = true
is_stale (removed r) = false
is_stale (changed r) = false

unfoldable pub applied : List (Completion × Resolution) → List Completion
applied [] = []
applied ((c, r) ∷ rest) = let more = applied rest in if is_stale r then more else c ∷ more

unfoldable pub updated_of : List (Completion × Resolution) → List Record
updated_of [] = []
updated_of ((c, changed r) ∷ rest) = r ∷ updated_of rest
updated_of ((c, removed r) ∷ rest) = updated_of rest
updated_of ((c, stale) ∷ rest) = updated_of rest

unfoldable pub deleted_of : List (Completion × Resolution) → List Record
deleted_of [] = []
deleted_of ((c, removed r) ∷ rest) = r ∷ deleted_of rest
deleted_of ((c, changed r) ∷ rest) = deleted_of rest
deleted_of ((c, stale) ∷ rest) = deleted_of rest

abbrev pub remove_record : Store → Record → Store
remove_record s r =
    let records = delete (id_of r) s.records in
    record s { records = records; lanes = remove_indexed records r s.lanes }

unfoldable pub remove_all : Store → List Record → Store
remove_all s [] = s
remove_all s (r ∷ rest) = remove_all (remove_record s r) rest

abbrev pub drop_record : Database → Record → Database
drop_record d r = record d {
  by_sequence = delete r.sequence d.by_sequence;
  by_event = delete (id_of r) d.by_event;
}

unfoldable pub drop_records : Database → List Record → Database
drop_records d [] = d
drop_records d (r ∷ rest) = drop_records (drop_record d r) rest

unfoldable pub live_only : Records → List Bytes → List Bytes
live_only records [] = []
live_only records (id ∷ rest) =
    let more = live_only records rest in if present records id then id ∷ more else more

unfoldable pub compact_order_if_needed : Store → Store
compact_order_if_needed s =
    if ltb s.deleted 1024 && leb (length s.order) (2 * length s.records + 16)
    then s
    else record s { order = live_only s.records s.order; deleted = 0 }

-- The total of the database is written when a record is deleted. The removed bytes are part of the
-- total.
abbrev pub complete_database : Store → List Record → List Record → ℕ → Database
complete_database s updated deleted total =
    let d : Database = record s.database {
      by_sequence = rewrite_records s.database.by_sequence updated;
    } in
    let after : Database = drop_records d deleted in
    if is_empty deleted then after else record after { total_bytes = total }

-- The end of `CompleteBatch`, once the transaction is committed.
unfoldable pub commit_completed : Store → List Record → List Record → Store
commit_completed s updated deleted =
    let total = s.bytes - sum_by (λ r. r.size_bytes) deleted in
    let after : Store = remove_all (put_all_updated s updated) deleted in
    compact_order_if_needed (record after {
      bytes = total;
      deleted = s.deleted + length deleted;
      database = complete_database s updated deleted total;
    })

abbrev pub persist_completed :
    Env
    → Store
    → Result Error (List (Completion × Resolution))
    → Store × Result Error (List Completion)
persist_completed env s (err e) = (s, err e)
persist_completed env s (ok resolved) =
    if is_empty (applied resolved)
    then (s, ok [])
    else if not env.commits
    then (s, err not_persisted)
    else (commit_completed s (updated_of resolved) (deleted_of resolved), ok (applied resolved))

-- `CompleteBatch`.
unfoldable pub complete_batch :
    Env → Store → List Completion → Store × Result Error (List Completion)
complete_batch env s completions =
    if not s.is_open
    then (s, err closed)
    else if is_empty completions
    then (s, ok [])
    else persist_completed env s (resolve_all env s.records [] completions)

abbrev acknowledged_only : Result Error (List Completion) → Option Error
acknowledged_only (err e) = some e
acknowledged_only (ok done) = fails (not (length done == 1)) invalid_state

-- `Ack`.
unfoldable pub ack : Env → Store → Bytes → ℕ → ℕ → Store × Option Error
ack env s id attempts epoch =
    let c : Completion = record {
      event_id = id;
      attempts = attempts;
      epoch = epoch;
      outcome = acknowledged;
      reason = [];
    } in
    let done : Store × Result Error (List Completion) = complete_batch env s (c ∷ []) in
    (done.0, acknowledged_only done.1)

-- `Unassigned`, `Get`, `Records` and `Stats` on an open store.
unfoldable pub records_in_order : Records → List Bytes → List Record
records_in_order records [] = []
records_in_order records (id ∷ rest) =
    let more = records_in_order records rest in
    elim (lookup id records) [ none ↦ more | some r ↦ r ∷ more ]

unfoldable pub unassigned_only : List Record → List Record
unassigned_only [] = []
unassigned_only (r ∷ rest) =
    let more = unassigned_only rest in if state_beq r.state unassigned then r ∷ more else more

unfoldable pub get : Store → Bytes → Result Error Record
get s id =
    if not s.is_open
    then err closed
    else elim (lookup id s.records) [ none ↦ err not_found | some r ↦ ok r ]
