-- ===== src/Outbox/Store.antt =====
-- outbox/outbox.go: the store and `acceptMany`, `updateMany` with the operations on it. The database
-- is the four things that the buckets hold; a transaction is made whole or not at all. The totals of
-- sizes stay below the limit, so that their sums do not wrap.
use solace_broker_autoscale.Prelude.{Bool}
use solace_broker_autoscale.Outbox.Lanes.{
  Lanes, Records, index_accepted, present, refresh_lane_for_record,
}
use solace_broker_autoscale.Outbox.Records.{
  Assignment, Content, Error, Limits, Record, State, accepted_size, ack_uncertain, assign_record,
  check_unique, closed, doubt_record, duplicate, full, id_of, in_events_a, not_encoded, not_found,
  not_persisted, publish_record, ready, reject_record, retry_record, sequence_exhausted, unassigned,
  unset, validate_new_record,
}
use solace_broker_autoscale.Prelude.{
  List, Map, Option, Result, [], all, bool_eq, contains, err, fails, if◌then◌else◌, insert,
  is_empty, length, list_eq, lookup, ltb, ltb_ℤ, map, nat_eq, none, not, ok, option_eq, or_fail,
  pair_eq, pos, some, sub64, suc, u64, u64_max, ℕ, ◌++◌, ◌+◌, ◌-◌, ◌∷◌, ◌▸◌,
}
use solace_broker_autoscale.Text.{Bytes}
use solace_broker_autoscale.Prelude.{guarded}
use solace_broker_autoscale.Outbox.Records.{other_state}
use solace_broker_autoscale.Prelude.{int_eq}

-- `records_by_sequence`, `sequence_by_event` and the metadata.
pub record Database : Type 0 where
  pub by_sequence : Map ℕ Record
  pub by_event : Map Bytes ℕ
  pub next_sequence : ℕ
  pub total_bytes : ℕ

pub record Store : Type 0 where
  pub limits : Limits
  pub is_open : Bool
  pub database : Database
  pub records : Records
  pub order : List Bytes
  pub lanes : Lanes
  pub next_seq : ℕ
  pub bytes : ℕ
  pub high_water_messages : ℕ
  pub high_water_bytes : ℕ
  pub deleted : ℕ

-- What comes from outside during one call: the clock, whether a record is encoded, and whether the
-- transaction commits.
pub record Env : Type 0 where
  pub now : ℕ
  pub encodes : Record → Bool
  pub commits : Bool

abbrev stored_state : State → State
stored_state unset = unassigned
stored_state unassigned = unassigned
stored_state ready = ready
stored_state in_events_a = in_events_a
stored_state ack_uncertain = ack_uncertain
stored_state (other_state text) = other_state text

abbrev pub max_of : ℕ → ℕ → ℕ
max_of a b = if ltb a b then b else a

abbrev pub cons_accepted : Record → Result Error (List Record × ℕ) → Result Error (List Record × ℕ)
cons_accepted a (err e) = err e
cons_accepted a (ok (more, total)) = ok (a ∷ more, total)

module _ (encoded_size : Content → ℕ) (env : Env) where
  -- The record that is accepted in place of the one given.
  unfoldable pub stamp : ℕ → Record → Record
  stamp sequence r = record r {
    sequence = u64 sequence;
    accepted_at = env.now;
    updated_at = env.now;
    attempts = 0;
    last_error = [];
    state = stored_state r.state;
    size_bytes = accepted_size encoded_size r;
  }

  -- What is left of the byte limit is too small for the record.
  abbrev pub exceeds : Store → ℕ → Record → Bool
  exceeds s added r =
      ltb_ℤ (sub64 (sub64 (pos s.limits.max_bytes) (pos s.bytes)) (pos added))
        (pos (accepted_size encoded_size r))

  unfoldable pub check_accepted : Store → List Bytes → ℕ → Record → Option Error
  check_accepted s seen added r =
      validate_new_record r
      ▸ fails (present s.records (id_of r)) duplicate
      ▸ fails (contains seen (id_of r)) duplicate
      ▸ fails (exceeds s added r) full

  -- The loop of `acceptMany`, with `i`, `seen` and `addedBytes`: the records and the bytes added.
  unfoldable pub accept_loop :
      Store → ℕ → List Bytes → ℕ → List Record → Result Error (List Record × ℕ)
  accept_loop s i seen added [] = ok ([], added)
  accept_loop s i seen added (r ∷ rest) =
      let a = stamp (s.next_seq + i) r in
      guarded (check_accepted s seen added r)
        (cons_accepted a (accept_loop s (suc i) (id_of r ∷ seen) (added + a.size_bytes) rest))

-- One record in the buckets, and in memory.
abbrev pub put_record : Database → Record → Database
put_record d r = record d {
  by_sequence = insert r.sequence r d.by_sequence;
  by_event = insert (id_of r) r.sequence d.by_event;
}

unfoldable pub put_records : Database → List Record → Database
put_records d [] = d
put_records d (r ∷ rest) = put_records (put_record d r) rest

abbrev pub add_accepted : Store → Record → Store
add_accepted s r =
    let records = insert (id_of r) r s.records in
    record s {
      records = records;
      order = s.order ++ id_of r ∷ [];
      lanes = index_accepted records r s.lanes;
    }

unfoldable pub add_all : Store → List Record → Store
add_all s [] = s
add_all s (r ∷ rest) = add_all (add_accepted s r) rest

-- The end of `acceptMany`, once the transaction is committed.
unfoldable pub commit_accepted : Store → List Record → ℕ → Store
commit_accepted s accepted added =
    let next = u64 (s.next_seq + length accepted) in
    let after : Store = add_all s accepted in
    record after {
      next_seq = next;
      bytes = s.bytes + added;
      high_water_messages = max_of s.high_water_messages (length after.records);
      high_water_bytes = max_of s.high_water_bytes (s.bytes + added);
      database = record (put_records s.database accepted) {
        next_sequence = next;
        total_bytes = s.bytes + added;
      };
    }

abbrev pub persist_accepted :
    Env → Store → Result Error (List Record × ℕ) → Store × Result Error (List Record)
persist_accepted env s (err e) = (s, err e)
persist_accepted env s (ok (accepted, added)) =
    if not (all env.encodes accepted)
    then (s, err not_encoded)
    else if not env.commits
    then (s, err not_persisted)
    else (commit_accepted s accepted added, ok accepted)

-- `acceptMany`.
unfoldable pub accept_many :
    (Content → ℕ) → Env → Store → List Record → Store × Result Error (List Record)
accept_many encoded_size env s input =
    if not s.is_open
    then (s, err closed)
    else if is_empty input
    then (s, ok [])
    else if ltb_ℤ (sub64 (pos s.limits.max_messages) (pos (length s.records))) (pos (length input))
    then (s, err full)
    else if ltb (u64_max - s.next_seq) (length input)
    then (s, err sequence_exhausted)
    else persist_accepted env s (accept_loop encoded_size env s 0 [] 0 input)

abbrev pub touched : Env → Record → Record
touched env r = record r { updated_at = env.now }

abbrev pub finish_update : Env → Result Error Record → Result Error Record
finish_update env (err e) = err e
finish_update env (ok m) =
    or_fail (fails (not (env.encodes (touched env m))) not_encoded) (touched env m)

abbrev pub cons_updated :
    Result Error Record → Result Error (List Record) → Result Error (List Record)
cons_updated (err e) more = err e
cons_updated (ok u) (err e) = err e
cons_updated (ok u) (ok us) = ok (u ∷ us)

abbrev pub update_found :
    Env
    → (Record → Result Error Record)
    → Option Record
    → Result Error (List Record)
    → Result Error (List Record)
update_found env mutate none more = err not_found
update_found env mutate (some r) more = cons_updated (finish_update env (mutate r)) more

-- The loop of `updateMany`.
unfoldable pub update_loop :
    Env → Records → (Bytes → Record → Result Error Record) → List Bytes → Result Error (List Record)
update_loop env records mutate [] = ok []
update_loop env records mutate (id ∷ rest) =
    update_found env (mutate id) (lookup id records) (update_loop env records mutate rest)

abbrev pub put_updated : Store → Record → Store
put_updated s r =
    let records = insert (id_of r) r s.records in
    record s { records = records; lanes = refresh_lane_for_record records r s.lanes }

unfoldable pub put_all_updated : Store → List Record → Store
put_all_updated s [] = s
put_all_updated s (r ∷ rest) = put_all_updated (put_updated s r) rest

unfoldable pub rewrite_records : Map ℕ Record → List Record → Map ℕ Record
rewrite_records m [] = m
rewrite_records m (r ∷ rest) = rewrite_records (insert r.sequence r m) rest

abbrev pub persist_updated : Env → Store → Result Error (List Record) → Store × Option Error
persist_updated env s (err e) = (s, some e)
persist_updated env s (ok updated) = if not env.commits then (s, some not_persisted) else (
  record (put_all_updated s updated) {
    database = record s.database { by_sequence = rewrite_records s.database.by_sequence updated };
  },
  none,
)

-- `updateMany`.
unfoldable pub update_many :
    Env → Store → List Bytes → (Bytes → Record → Result Error Record) → Store × Option Error
update_many env s ids mutate =
    if not s.is_open
    then (s, some closed)
    else if is_empty ids
    then (s, none)
    else persist_updated env s
        (guarded (check_unique [] ids) (update_loop env s.records mutate ids))

-- The value that the last update of an event gives it.
abbrev pub value_of {ℓ} : {A : Type ℓ} → A → Bytes → Map Bytes A → A
value_of missing id m = elim (lookup id m) [ none ↦ missing | some a ↦ a ]

abbrev pub last_values {ℓ} : {A : Type ℓ} → Map Bytes A → List (Bytes × A) → Map Bytes A
last_values m [] = m
last_values m ((id, a) ∷ rest) = last_values (insert id a m) rest

abbrev pub event_ids {ℓ} : {A : Type ℓ} → List (Bytes × A) → List Bytes
event_ids = map (λ u. u.0)

abbrev pub no_assignment : Assignment
no_assignment = record { epoch = 0; broker = []; broker_endpoint = []; destination = [] }

unfoldable pub assign_many : Env → Store → List (Bytes × Assignment) → Store × Option Error
assign_many env s updates =
    update_many env s (event_ids updates)
      (λ id. assign_record (value_of no_assignment id (last_values [] updates)))

unfoldable pub mark_in_events_a_many : Env → Store → List Bytes → Store × Option Error
mark_in_events_a_many env s ids = update_many env s ids (λ id. publish_record)

unfoldable pub mark_rejected_many : Env → Store → List (Bytes × Bytes) → Store × Option Error
mark_rejected_many env s updates =
    update_many env s (event_ids updates)
      (λ id. reject_record (value_of [] id (last_values [] updates)))

unfoldable pub mark_ack_uncertain_many : Env → Store → List (Bytes × Bytes) → Store × Option Error
mark_ack_uncertain_many env s updates =
    update_many env s (event_ids updates)
      (λ id. doubt_record (value_of [] id (last_values [] updates)))

unfoldable pub retry_ack_uncertain_many : Env → Store → List Bytes → Store × Option Error
retry_ack_uncertain_many env s ids = update_many env s ids (λ id. retry_record)
