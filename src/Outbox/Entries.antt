-- ===== src/Outbox/Entries.antt =====
-- What the loop of `CompleteBatch` (outbox/outbox.go) resolves, and the entry of one event after it.
use solace_broker_autoscale.Outbox.Batches.{
  Resolution, changed, commit_completed, compact_order_if_needed, deleted_of, in_flight,
  names_attempt, remove_all, remove_record, removed, stale, updated_of,
}
use solace_broker_autoscale.Outbox.Lanes.{Records}
use solace_broker_autoscale.Outbox.Records.{
  Completion, CompletionOutcome, Record, State, ack_uncertain, acknowledged, id_of, in_events_a,
  other_outcome, ready, rejected, state_beq, uncertain,
}
use solace_broker_autoscale.Outbox.Store.{Env, Store, put_all_updated, put_updated}
use solace_broker_autoscale.Prelude.{
  List, Option, [], ap, bool_eq, if-both, if◌then◌else◌, leb, length, list_eq, lookup,
  lookup-delete, lookup-insert, ltb, nat_eq, none, option_eq, pair_eq, refl, some, ℕ, ◌&&◌, ◌*◌,
  ◌+◌, ◌==◌, ◌∙◌, ◌∷◌, ◌≡◌,
}
use solace_broker_autoscale.Text.{Bytes}
use solace_broker_autoscale.Outbox.Batches.{
  apply_outcome, encoded, resolve_all, resolve_found, settle,
}
use solace_broker_autoscale.Outbox.Records.{Error}
use solace_broker_autoscale.Prelude.{
  >>=-eq-ok, Result, contains, false, ok, ok-injective, or_fail-ok,
}
use solace_broker_autoscale.Outbox.Batches.{
  check_completion, cons_resolved, keep_encoded, resolve_one,
}
use solace_broker_autoscale.Outbox.Records.{invalid_record}
use solace_broker_autoscale.Prelude.{arith, err, fails, fails-none, guarded-ok, is_empty, ▸-none}
use solace_broker_autoscale.Prelude.{◌||◌}

-- Every record is stored under its own event.
abbrev pub Keyed : Records → Type 0
Keyed m = (k : Bytes) (r : Record) → lookup k m ≡ some r → id_of r ≡ k

-- What a completion of the attempt leaves of a record.
abbrev pub after_outcome : ℕ → CompletionOutcome → Bytes → Record → Option Record
after_outcome now acknowledged reason r =
    if state_beq r.state in_events_a || state_beq r.state ack_uncertain then none else some r
after_outcome now rejected reason r =
    if state_beq r.state in_events_a
    then some (record r { state = ready; last_error = reason; updated_at = now })
    else some r
after_outcome now uncertain reason r =
    if state_beq r.state in_events_a
    then some (record r { state = ack_uncertain; last_error = reason; updated_at = now })
    else some r
after_outcome now other_outcome reason r = some r

-- What a batch leaves of the record of an event: the completion that names the event decides, and
-- only if it also names the attempt.
abbrev pub after_batch : ℕ → List Completion → Bytes → Record → Option Record
after_batch now [] id r = some r
after_batch now (c ∷ rest) id r =
    if c.event_id == id
    then (if r.attempts == c.attempts && r.epoch == c.epoch
        then after_outcome now c.outcome c.reason r
        else some r)
    else after_batch now rest id r

-- The effect of the changed and of the removed records on the entry of one event.
unfoldable pub write_entry : List Record → Bytes → Option Record → Option Record
write_entry [] id o = o
write_entry (r ∷ rest) id o = write_entry rest id (if id_of r == id then some r else o)

unfoldable pub clear_entry : List Record → Bytes → Option Record → Option Record
clear_entry [] id o = o
clear_entry (r ∷ rest) id o = clear_entry rest id (if id_of r == id then none else o)

lookup-put_all_updated :
    (rs : List Record) (s : Store) (id : Bytes)
    → lookup id (put_all_updated s rs).records ≡ write_entry rs id (lookup id s.records)
unfolding put_all_updated write_entry
lookup-put_all_updated [] s id = refl
lookup-put_all_updated (r ∷ rest) s id =
    lookup-put_all_updated rest (put_updated s r) id
    ∙ ap (write_entry rest id) (lookup-insert (id_of r) id r s.records)

lookup-remove_all :
    (rs : List Record) (s : Store) (id : Bytes)
    → lookup id (remove_all s rs).records ≡ clear_entry rs id (lookup id s.records)
unfolding remove_all clear_entry
lookup-remove_all [] s id = refl
lookup-remove_all (r ∷ rest) s id =
    lookup-remove_all rest (remove_record s r) id
    ∙ ap (clear_entry rest id) (lookup-delete (id_of r) id s.records)

compact-records : (s : Store) → (compact_order_if_needed s).records ≡ s.records
unfolding compact_order_if_needed
compact-records s =
    if-both (λ (t : Store). t.records ≡ s.records)
      (ltb s.deleted 1024 && leb (length s.order) (2 * length s.records + 16)) (λ few. refl)
      (λ many. refl)

-- The effect of a list of resolutions on one entry.
unfoldable pub entry_after : List (Completion × Resolution) → Bytes → Option Record → Option Record
entry_after rs id o = clear_entry (deleted_of rs) id (write_entry (updated_of rs) id o)

pub lookup-commit_completed :
    (s : Store) (rs : List (Completion × Resolution)) (id : Bytes)
    → lookup id (commit_completed s (updated_of rs) (deleted_of rs)).records
      ≡ entry_after rs id (lookup id s.records)
unfolding commit_completed entry_after
lookup-commit_completed s rs id =
    let u = put_all_updated s (updated_of rs) in
    ap (lookup id) (compact-records _)
    ∙ (lookup-remove_all (deleted_of rs) u id
        ∙ ap (clear_entry (deleted_of rs) id) (lookup-put_all_updated (updated_of rs) s id))

module _ (env : Env) (records : Records) (keyed : Keyed records) where
  -- The record of a resolution is that of the completion's event.
  unfoldable pub Names : Bytes → Resolution → Type 0
  Names id stale = Unit
  Names id (removed r) = id_of r ≡ id
  Names id (changed r) = id_of r ≡ id

  settle-Names :
      (id : Bytes) (st : State) (reason : Bytes) (r : Record)
      → id_of r ≡ id
      → Names id (settle env.now st reason r)
  unfolding Names
  settle-Names id st reason r e =
      if-both (Names id) (state_beq r.state in_events_a) (λ active. e) (λ idle. tt)

  apply_outcome-Names :
      (o : CompletionOutcome) (id : Bytes) (reason : Bytes) (r : Record) (res : Resolution)
      → id_of r ≡ id
      → apply_outcome env.now o reason r ≡ ok res
      → Names id res
  unfolding apply_outcome Names
  apply_outcome-Names acknowledged id reason r res e h =
      rw (← ok-injective _ refl h)
        (if-both (Names id) (in_flight r.state) (λ active. e) (λ idle. tt))
  apply_outcome-Names rejected id reason r res e h =
      rw (← ok-injective _ refl h) (settle-Names id ready reason r e)
  apply_outcome-Names uncertain id reason r res e h =
      rw (← ok-injective _ refl h) (settle-Names id ack_uncertain reason r e)
  apply_outcome-Names other_outcome id reason r res e h = cc

  abbrev the_stale : Result Error Resolution
  the_stale = ok stale

  stale-Names : (id : Bytes) (res : Resolution) → (the_stale ≡ ok res) → Names id res
  unfolding Names
  stale-Names id stale h = tt
  stale-Names id (removed r) h = cc
  stale-Names id (changed r) h = cc

  pub resolve_found-Names :
      (c : Completion) (o : Option Record) (res : Resolution)
      → lookup c.event_id records ≡ o
      → resolve_found env.now c o ≡ ok res
      → Names c.event_id res
  unfolding Names
  resolve_found-Names c none res e = stale-Names c.event_id res
  resolve_found-Names c (some r) res e =
      if-both (λ (x : Result Error Resolution). x ≡ ok res → Names c.event_id res)
        (names_attempt c r)
        (λ same. apply_outcome-Names c.outcome c.event_id c.reason r res (keyed c.event_id r e))
        (λ other. stale-Names c.event_id res)

  -- One round of the loop.
  pub record Round (seen : List Bytes) (c : Completion) (rest : List Completion)
      (rs : List (Completion × Resolution)) : Type 0 where
    pub found : Resolution
    pub more : List (Completion × Resolution)
    pub both : rs ≡ (c, found) ∷ more
    pub new : contains seen c.event_id ≡ false
    pub resolved : resolve_found env.now c (lookup c.event_id records) ≡ ok found
    pub others : resolve_all env records (c.event_id ∷ seen) rest ≡ ok more

  cons_resolved-ok :
      (c : Completion) (r : Resolution) (m : Result Error (List (Completion × Resolution)))
      (rs : List (Completion × Resolution))
      → cons_resolved c r m ≡ ok rs
      → (more : List (Completion × Resolution)) × (m ≡ ok more) × (rs ≡ (c, r) ∷ more)
  cons_resolved-ok c r (err e) rs h = cc
  cons_resolved-ok c r (ok more) rs h = (more, refl, ground arith)

  keep_encoded-ok :
      (m : Result Error Resolution) (r : Resolution) → keep_encoded env m ≡ ok r → m ≡ ok r
  keep_encoded-ok (err e) r h = cc
  keep_encoded-ok (ok q) r h = ap ok (or_fail-ok (encoded env q) q r h).1

  pub resolve_all-Round :
      (seen : List Bytes) (c : Completion) (rest : List Completion)
      (rs : List (Completion × Resolution))
      → resolve_all env records seen (c ∷ rest) ≡ ok rs
      → Round seen c rest rs
  unfolding resolve_all
  resolve_all-Round seen c rest rs h =
      let (res, first, last) =
        >>=-eq-ok (resolve_one env records seen c)
          (λ r. cons_resolved c r (resolve_all env records (c.event_id ∷ seen) rest)) h in
      let (more, others, both) = cons_resolved-ok c res _ rs last in
      let (clean, kept) = guarded-ok (check_completion seen c) _ res first in
      record {
        found = res;
        more = more;
        both = both;
        new =
            (fails-none _ invalid_record).0
              ((▸-none (fails (is_empty c.event_id) invalid_record) _).0 clean).1;
        resolved = keep_encoded-ok (resolve_found env.now c (lookup c.event_id records)) res kept;
        others = others;
      }
