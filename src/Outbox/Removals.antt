-- ===== src/Outbox/Removals.antt =====
-- `CompleteBatch` of outbox/outbox.go keeps the accounts of the outbox.
use solace_broker_autoscale.Outbox.Accounts.{Held, size_of}
use solace_broker_autoscale.Outbox.Batches.{
  Resolution, apply_outcome, changed, in_flight, remove_all, removed, stale,
}
use solace_broker_autoscale.Outbox.Entries.{Keyed}
use solace_broker_autoscale.Outbox.Lanes.{Records}
use solace_broker_autoscale.Outbox.Records.{
  CompletionOutcome, Record, acknowledged, id_of, in_events_a, other_outcome, rejected, state_beq,
  uncertain,
}
use solace_broker_autoscale.Outbox.Store.{Env, Store}
use solace_broker_autoscale.Prelude.{
  ==_iff, All, Distinct, List, [], ap, arith, bool_eq, contains, false, if-both, length, list_eq,
  lookup, map, nat_eq, ok, ok-injective, option_eq, pair_eq, refl, some, sum_by, sym, ◌+◌, ◌==◌,
  ◌∙◌, ◌∷◌, ◌≡◌,
}
use solace_broker_autoscale.Text.{Bytes}
use solace_broker_autoscale.Outbox.Batches.{
  deleted_of, names_attempt, resolve_all, resolve_found, updated_of,
}
use solace_broker_autoscale.Outbox.Entries.{Names, resolve_all-Round, resolve_found-Names}
use solace_broker_autoscale.Outbox.Records.{Completion, Error}
use solace_broker_autoscale.Prelude.{Bool, Option, Result, contains_apart, none, true, ◌||◌}
use solace_broker_autoscale.Outbox.Accounts.{Balanced, insert_each, insert_each-Rewritten}
use solace_broker_autoscale.Outbox.Batches.{
  applied, commit_completed, compact_order_if_needed, complete_batch, complete_database,
  drop_record, drop_records, persist_completed,
}
use solace_broker_autoscale.Outbox.Changes.{put_all_updated-Outside}
use solace_broker_autoscale.Outbox.Store.{Database, put_all_updated}
use solace_broker_autoscale.Prelude.{All-weaken, err, is_empty, leb, ltb, not, ◌&&◌, ◌*◌, ◌-◌}
use solace_broker_autoscale.Outbox.Changes.{put_all_updated-records}
use solace_broker_autoscale.Outbox.Store.{rewrite_records}
use solace_broker_autoscale.Outbox.Deletions.{
  delete_each, delete_each-Shrunk, remove_all-Outside, remove_all-records,
}

both_false : (a b : Bool) → a ≡ false → b ≡ false → (a || b) ≡ false
both_false a b p q = ground arith

module _ (env : Env) (records : Records) (keyed : Keyed records) where
  HeldBy : Resolution → Type 0
  HeldBy stale = Unit
  HeldBy (removed r) = Held records r
  HeldBy (changed r) = Held records r

  itself : (id : Bytes) (r : Record) → lookup id records ≡ some r → Held records r
  itself id r e = (r, ap (λ k. lookup k records) (keyed id r e) ∙ e, refl)

  apply_outcome-HeldBy :
      (o : CompletionOutcome) (id reason : Bytes) (r : Record) (res : Resolution)
      → lookup id records ≡ some r
      → apply_outcome env.now o reason r ≡ ok res
      → HeldBy res
  unfolding apply_outcome HeldBy
  apply_outcome-HeldBy acknowledged id reason r res e h =
      rw (← ok-injective _ refl h)
        (if-both HeldBy (in_flight r.state) (λ active. itself id r e) (λ idle. tt))
  apply_outcome-HeldBy rejected id reason r res e h =
      rw (← ok-injective _ refl h)
        (if-both HeldBy (state_beq r.state in_events_a) (λ active. itself id r e) (λ idle. tt))
  apply_outcome-HeldBy uncertain id reason r res e h =
      rw (← ok-injective _ refl h)
        (if-both HeldBy (state_beq r.state in_events_a) (λ active. itself id r e) (λ idle. tt))
  apply_outcome-HeldBy other_outcome id reason r res e h = cc

  resolve_found-HeldBy :
      (c : Completion) (o : Option Record) (res : Resolution)
      → lookup c.event_id records ≡ o
      → resolve_found env.now c o ≡ ok res
      → HeldBy res
  unfolding HeldBy
  resolve_found-HeldBy c none res e =
      λ h. rw (← ok-injective (resolve_found env.now c none) refl h) tt
  resolve_found-HeldBy c (some r) res e =
      if-both (λ (x : Result Error Resolution). x ≡ ok res → HeldBy res) (names_attempt c r)
        (λ same. apply_outcome-HeldBy c.outcome c.event_id c.reason r res e)
        (λ other h. rw (← ok-injective (resolve_found env.now c none) refl h) tt)

  -- What a batch changes and removes is held, and each removed record is removed once.
  record Resolved (seen : List Bytes) (rs : List (Completion × Resolution)) : Type 0 where
    changes : All (Held records) (updated_of rs)
    removals : All (Held records) (deleted_of rs)
    fresh : (k : Bytes) → contains seen k ≡ true → contains (map id_of (deleted_of rs)) k ≡ false
    once : Distinct (map id_of (deleted_of rs))

  Resolved-cons :
      (seen : List Bytes) (c : Completion) (res : Resolution)
      (more : List (Completion × Resolution))
      → contains seen c.event_id ≡ false
      → Names env records keyed c.event_id res
      → HeldBy res
      → Resolved (c.event_id ∷ seen) more
      → Resolved seen ((c, res) ∷ more)
  unfolding Names HeldBy updated_of deleted_of
  Resolved-cons seen c stale more new e hb r = record {
    changes = r.changes;
    removals = r.removals;
    fresh = λ k h. r.fresh k (ground arith);
    once = r.once;
  }
  Resolved-cons seen c (changed q) more new e hb r = record {
    changes = (hb, r.changes);
    removals = r.removals;
    fresh = λ k h. r.fresh k (ground arith);
    once = r.once;
  }
  Resolved-cons seen c (removed q) more new e hb r = record {
    changes = r.changes;
    removals = (hb, r.removals);
    fresh = λ k h.
        both_false (id_of q == k) _ (rw e (contains_apart c.event_id k seen new h))
          (r.fresh k (ground arith));
    once = (r.fresh (id_of q) (ground (arith, ==_iff c.event_id (id_of q), sym e)), r.once);
  }

  resolve_all-Resolved :
      (cs : List Completion) (seen : List Bytes) (rs : List (Completion × Resolution))
      → resolve_all env records seen cs ≡ ok rs
      → Resolved seen rs
  unfolding resolve_all updated_of deleted_of
  resolve_all-Resolved [] seen rs h =
      rw (← ok-injective _ refl h)
        (record { changes = tt; removals = tt; fresh = λ k m. refl; once = tt })
  resolve_all-Resolved (c ∷ rest) seen rs h =
      let round = resolve_all-Round env records keyed seen c rest rs h in
      let names =
        resolve_found-Names env records keyed c (lookup c.event_id records) round.found refl
          round.resolved in
      let hb = resolve_found-HeldBy c (lookup c.event_id records) round.found refl round.resolved in
      rw round.both (
        Resolved-cons seen c round.found round.more round.new names hb
          (resolve_all-Resolved rest (c.event_id ∷ seen) round.more round.others))

drop_records-metadata :
    (d : Database) (rs : List Record)
    → ((drop_records d rs).next_sequence ≡ d.next_sequence)
      × ((drop_records d rs).total_bytes ≡ d.total_bytes)
unfolding drop_records
drop_records-metadata d [] = (refl, refl)
drop_records-metadata d (r ∷ rest) = drop_records-metadata (drop_record d r) rest

compact-Balanced : (s : Store) → Balanced s → Balanced (compact_order_if_needed s)
unfolding compact_order_if_needed
compact-Balanced s b =
    if-both Balanced (ltb s.deleted 1024 && leb (length s.order) (2 * length s.records + 16))
      (λ few. b)
      (λ many. record {
        keyed = b.keyed;
        distinct = b.distinct;
        summed = b.summed;
        recorded = b.recorded;
        numbered = b.numbered;
        within_bytes = b.within_bytes;
        within_count = b.within_count;
        bytes_fit = b.bytes_fit;
        count_fits = b.count_fits;
      })

complete_database-metadata :
    (s : Store) (us ds : List Record)
    → s.database.total_bytes ≡ s.bytes
    → ((complete_database s us ds (s.bytes - sum_by size_of ds)).next_sequence
        ≡ s.database.next_sequence)
      × ((complete_database s us ds (s.bytes - sum_by size_of ds)).total_bytes
          ≡ s.bytes - sum_by size_of ds)
unfolding drop_records
complete_database-metadata s us [] e = (refl, e ∙ omega arith)
complete_database-metadata s us (d ∷ ds) e =
    let base : Database = record s.database {
      by_sequence = rewrite_records s.database.by_sequence us;
    } in
    ((drop_records-metadata base (d ∷ ds)).0, refl)

commit_completed-Balanced :
    (s : Store) (us ds : List Record)
    → Balanced s
    → All (Held s.records) us
    → All (Held s.records) ds
    → Distinct (map id_of ds)
    → Balanced (commit_completed s us ds)
unfolding commit_completed
commit_completed-Balanced s us ds b hu hd once =
    let put = put_all_updated s us in
    let r = insert_each-Rewritten us s.records b.keyed b.distinct hu in
    let held = All-weaken (Held s.records) (Held (insert_each s.records us)) r.held ds hd in
    let k = delete_each-Shrunk ds (insert_each s.records us) r.keyed r.distinct held once in
    let o = put_all_updated-Outside us s in
    let q = remove_all-Outside ds put in
    let (next, sum) = complete_database-metadata s us ds b.recorded in
    let left : (remove_all put ds).records ≡ delete_each (insert_each s.records us) ds =
      remove_all-records put ds ∙ ap (λ m. delete_each m ds) (put_all_updated-records s us) in
    let limits : (remove_all put ds).limits ≡ s.limits = q.limits ∙ o.limits in
    compact-Balanced _ (record {
      keyed = rw left k.keyed;
      distinct = rw left k.distinct;
      summed = rw left (omega (arith, b.summed, r.summed, k.summed));
      recorded = sum;
      numbered = next ∙ (b.numbered ∙ sym (q.next_seq ∙ o.next_seq));
      within_bytes = rw limits (omega (arith, b.within_bytes));
      within_count = rw (limits, left) (omega (arith, k.counted, r.counted, b.within_count));
      bytes_fit = rw limits b.bytes_fit;
      count_fits = rw limits b.count_fits;
    })

module _ (env : Env) (s : Store) (b : Balanced s) (cs : List Completion) where
  abbrev Settles : Store × Result Error (List Completion) → Type 0
  Settles out = Balanced out.0

  persist_completed-Balanced :
      (m : Result Error (List (Completion × Resolution)))
      → resolve_all env s.records [] cs ≡ m
      → Settles (persist_completed env s m)
  persist_completed-Balanced (err e) h = b
  persist_completed-Balanced (ok rs) h =
      let r = resolve_all-Resolved env s.records b.keyed cs [] rs h in
      if-both Settles (is_empty (applied rs)) (λ idle. b)
        (λ some_done.
          if-both Settles (not env.commits) (λ lost. b)
            (λ kept.
              commit_completed-Balanced s (updated_of rs) (deleted_of rs) b r.changes r.removals
                r.once))

  pub complete_batch-Balanced : Balanced (complete_batch env s cs).0
  unfolding complete_batch
  complete_batch-Balanced =
      if-both Settles (not s.is_open) (λ shut. b)
        (λ working.
          if-both Settles (is_empty cs) (λ nothing. b)
            (λ batch. persist_completed-Balanced (resolve_all env s.records [] cs) refl))
