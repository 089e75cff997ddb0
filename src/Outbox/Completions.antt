-- ===== src/Outbox/Completions.antt =====
-- What `CompleteBatch` of outbox/outbox.go does to each record.
use solace_broker_autoscale.Outbox.Batches.{
  Resolution, changed, deleted_of, in_flight, names_attempt, removed, stale, updated_of,
}
use solace_broker_autoscale.Outbox.Lanes.{Records}
use solace_broker_autoscale.Outbox.Records.{
  Completion, CompletionOutcome, Record, ack_uncertain, acknowledged, id_of, in_events_a,
  other_outcome, ready, rejected, state_beq, uncertain,
}
use solace_broker_autoscale.Outbox.Store.{Env, Store}
use solace_broker_autoscale.Prelude.{
  List, Option, [], ap, bool_eq, if-both, if◌then◌else◌, list_eq, lookup, nat_eq, none, option_eq,
  pair_eq, refl, some, ℕ, ◌==◌, ◌∙◌, ◌∷◌, ◌≡◌,
}
use solace_broker_autoscale.Text.{Bytes}
use solace_broker_autoscale.Outbox.Batches.{apply_outcome, resolve_all, resolve_found}
use solace_broker_autoscale.Outbox.Records.{Error}
use solace_broker_autoscale.Prelude.{Result, contains, false, ok, ok-injective}
use solace_broker_autoscale.Prelude.{arith, err, is_empty}
use solace_broker_autoscale.Prelude.{==_iff, Bool-cases, inl, inr, true}
use solace_broker_autoscale.Prelude.{Bool, contains_apart, sym}
use solace_broker_autoscale.Outbox.Batches.{applied, complete_batch, persist_completed}
use solace_broker_autoscale.Prelude.{not}
use solace_broker_autoscale.Outbox.Entries.{
  Keyed, Names, after_batch, after_outcome, resolve_all-Round, resolve_found-Names,
}
use solace_broker_autoscale.Outbox.Entries.{
  clear_entry, entry_after, lookup-commit_completed, write_entry,
}

module _ (env : Env) (records : Records) (keyed : Keyed records) where
  head_entry :
      (c : Completion) (res : Resolution) (more : List (Completion × Resolution)) (id : Bytes)
      (o : Option Record)
      → Names env records keyed c.event_id res
      → (c.event_id == id) ≡ false
      → (write_entry (updated_of ((c, res) ∷ more)) id o ≡ write_entry (updated_of more) id o)
        × (clear_entry (deleted_of ((c, res) ∷ more)) id o ≡ clear_entry (deleted_of more) id o)
  unfolding Names write_entry clear_entry updated_of deleted_of
  head_entry c stale more id o e other = (refl, refl)
  head_entry c (removed r) more id o e other = (refl, rw (e, other) refl)
  head_entry c (changed r) more id o e other = (rw (e, other) refl, refl)

  -- An event that was met before is not touched again.
  unseen_entry :
      (cs : List Completion) (seen : List Bytes) (rs : List (Completion × Resolution)) (id : Bytes)
      (o : Option Record)
      → resolve_all env records seen cs ≡ ok rs
      → contains seen id ≡ true
      → (write_entry (updated_of rs) id o ≡ o) × (clear_entry (deleted_of rs) id o ≡ o)
  unfolding resolve_all write_entry clear_entry updated_of deleted_of
  unseen_entry [] seen rs id o h met = rw (← ok-injective _ refl h) (refl, refl)
  unseen_entry (c ∷ rest) seen rs id o h met =
      let round = resolve_all-Round env records keyed seen c rest rs h in
      let names =
        resolve_found-Names env records keyed c (lookup c.event_id records) round.found refl
          round.resolved in
      let other = contains_apart c.event_id id seen round.new met in
      let (w, d) = head_entry c round.found round.more id o names other in
      let (w_rest, d_rest) =
        unseen_entry rest (c.event_id ∷ seen) round.more id o round.others (ground arith) in
      rw round.both (w ∙ w_rest, d ∙ d_rest)

  -- What a resolution makes of the record it is about.
  effect : Resolution → Record → Option Record
  effect stale r = some r
  effect (removed q) r = none
  effect (changed q) r = some q

  own :
      (q : Record) (o : Option Record) (id : Bytes)
      → id_of q ≡ id
      → (if id_of q == id then some q else o) ≡ some q
  own q o id e = ground (arith, ==_iff (id_of q) id)

  gone :
      (q : Record) (o : Option Record) (id : Bytes)
      → id_of q ≡ id
      → (if id_of q == id then none else o) ≡ none
  gone q o id e = ground (arith, ==_iff (id_of q) id)

  own_entry :
      (c : Completion) (res : Resolution) (more : List (Completion × Resolution)) (id : Bytes)
      (r : Record)
      → Names env records keyed id res
      → ((o : Option Record)
          → (write_entry (updated_of more) id o ≡ o) × (clear_entry (deleted_of more) id o ≡ o))
      → entry_after ((c, res) ∷ more) id (some r) ≡ effect res r
  unfolding Names write_entry clear_entry updated_of deleted_of entry_after effect
  own_entry c stale more id r e quiet = rw ((quiet (some r)).0) ((quiet (some r)).1)
  own_entry c (removed q) more id r e quiet =
      ap (λ o. clear_entry (deleted_of more) id (if id_of q == id then none else o))
        ((quiet (some r)).0)
      ∙ (ap (clear_entry (deleted_of more) id) (gone q (some r) id e) ∙ (quiet none).1)
  own_entry c (changed q) more id r e quiet =
      ap (λ o. clear_entry (deleted_of more) id (write_entry (updated_of more) id o))
        (own q (some r) id e)
      ∙ (ap (clear_entry (deleted_of more) id) ((quiet (some q)).0) ∙ (quiet (some q)).1)

  effect-if :
      (b : Bool) (x y : Resolution) (r : Record)
      → effect (if b then x else y) r ≡ (if b then effect x r else effect y r)
  effect-if true x y r = refl
  effect-if false x y r = refl

  effect-after_outcome :
      (o : CompletionOutcome) (reason : Bytes) (r : Record) (res : Resolution)
      → apply_outcome env.now o reason r ≡ ok res
      → effect res r ≡ after_outcome env.now o reason r
  unfolding apply_outcome effect
  effect-after_outcome acknowledged reason r res h =
      rw (← ok-injective _ refl h) (effect-if (in_flight r.state) (removed r) stale r)
  effect-after_outcome rejected reason r res h = rw (← ok-injective _ refl h) (
      effect-if (state_beq r.state in_events_a)
        (changed (record r { state = ready; last_error = reason; updated_at = env.now })) stale r)
  effect-after_outcome uncertain reason r res h = rw (← ok-injective _ refl h) (
      effect-if (state_beq r.state in_events_a)
        (changed (record r { state = ack_uncertain; last_error = reason; updated_at = env.now }))
        stale r)
  effect-after_outcome other_outcome reason r res h = cc

  effect-resolve_found :
      (c : Completion) (r : Record) (res : Resolution)
      → resolve_found env.now c (some r) ≡ ok res
      → effect res r
        ≡ (if names_attempt c r then after_outcome env.now c.outcome c.reason r else some r)
  unfolding effect
  effect-resolve_found c r res h = elim (Bool-cases (names_attempt c r)) [
    | inl same ↦ rw same (effect-after_outcome c.outcome c.reason r res (ground arith))
    | inr other ↦
        let idle : stale ≡ res = ground (arith, h, other) in
        rw other (ap (λ q. effect q r) (sym idle))
  ]

  entry_after-after_batch :
      (cs : List Completion) (seen : List Bytes) (rs : List (Completion × Resolution)) (id : Bytes)
      (r : Record)
      → resolve_all env records seen cs ≡ ok rs
      → lookup id records ≡ some r
      → entry_after rs id (some r) ≡ after_batch env.now cs id r
  unfolding resolve_all entry_after write_entry clear_entry updated_of deleted_of
  entry_after-after_batch [] seen rs id r h held = rw (← ok-injective _ refl h) refl
  entry_after-after_batch (c ∷ rest) seen rs id r h held =
      let round = resolve_all-Round env records keyed seen c rest rs h in
      let names =
        resolve_found-Names env records keyed c (lookup c.event_id records) round.found refl
          round.resolved in
      elim (Bool-cases (c.event_id == id)) [
        | inl same ↦
            let here : c.event_id ≡ id = (==_iff c.event_id id).0 same in
            let mine : Names env records keyed id round.found = rw (← here) names in
            let resolved : resolve_found env.now c (some r) ≡ ok round.found =
              ap (resolve_found env.now c) (sym (ap (λ k. lookup k records) here ∙ held))
              ∙ round.resolved in
            ap (λ t. entry_after t id (some r)) round.both
            ∙ (own_entry c round.found round.more id r mine (λ o.
                  unseen_entry rest (c.event_id ∷ seen) round.more id o round.others (ground arith))
                ∙ (effect-resolve_found c r round.found resolved ∙ ground arith))
        | inr other ↦
            let all_of = (c, round.found) ∷ round.more in
            let (w, _) = head_entry c round.found round.more id (some r) names other in
            let (_, d) =
              head_entry c round.found round.more id (write_entry (updated_of all_of) id (some r))
                names other in
            ap (λ t. entry_after t id (some r)) round.both
            ∙ ((d ∙ ap (clear_entry (deleted_of round.more) id) w)
                ∙ (entry_after-after_batch rest (c.event_id ∷ seen) round.more id r round.others
                      held
                    ∙ ground arith))
      ]

  none_applied :
      (rs : List (Completion × Resolution))
      → is_empty (applied rs) ≡ true
      → (updated_of rs ≡ []) × (deleted_of rs ≡ [])
  unfolding applied updated_of deleted_of
  none_applied [] h = (refl, refl)
  none_applied ((c, stale) ∷ rest) h = none_applied rest h
  none_applied ((c, removed r) ∷ rest) h = cc
  none_applied ((c, changed r) ∷ rest) h = cc

  idle_entry :
      (rs : List (Completion × Resolution)) (id : Bytes) (o : Option Record)
      → is_empty (applied rs) ≡ true
      → entry_after rs id o ≡ o
  unfolding entry_after write_entry clear_entry
  idle_entry rs id o h = let (u, d) = none_applied rs h in rw (u, d) refl

after_batch_empty :
    (now : ℕ) (cs : List Completion) (id : Bytes) (r : Record)
    → is_empty cs ≡ true
    → after_batch now cs id r ≡ some r
after_batch_empty now [] id r h = refl
after_batch_empty now (c ∷ rest) id r h = cc

module _ (env : Env) (s after : Store) (cs : List Completion) (done : List Completion)
    (keyed : Keyed s.records) (id : Bytes) (r : Record) (held : lookup id s.records ≡ some r) where
  abbrev Leaves : Store × Result Error (List Completion) → Type 0
  Leaves out = out ≡ (after, ok done) → lookup id after.records ≡ after_batch env.now cs id r

  persist_completed-Leaves :
      (m : Result Error (List (Completion × Resolution)))
      → resolve_all env s.records [] cs ≡ m
      → Leaves (persist_completed env s m)
  persist_completed-Leaves (err e) h = λ p. cc
  persist_completed-Leaves (ok rs) h =
      let left = entry_after-after_batch env s.records keyed cs [] rs id r h held in
      if-both Leaves (is_empty (applied rs))
        (λ idle p.
          ap (λ (o : Store × Result Error (List Completion)). lookup id o.0.records) (sym p)
          ∙ (held ∙ (sym (idle_entry env s.records keyed rs id (some r) idle) ∙ left)))
        (λ some_done.
          if-both Leaves (not env.commits) (λ lost p. cc)
            (λ kept p.
              ap (λ (o : Store × Result Error (List Completion)). lookup id o.0.records) (sym p)
              ∙ (lookup-commit_completed s rs id ∙ (ap (entry_after rs id) held ∙ left))))

  -- After a batch of completions the record of an event is what the completion of that event makes
  -- of it, if it names the attempt and the epoch that the record is in: an acknowledged record in
  -- flight is gone, a rejected one is ready, an uncertain one is kept as such. A late completion and
  -- one of another event change nothing.
  pub complete_batch-after_batch :
      complete_batch env s cs ≡ (after, ok done)
      → lookup id after.records ≡ after_batch env.now cs id r
  unfolding complete_batch
  complete_batch-after_batch =
      if-both Leaves (not s.is_open) (λ shut p. cc)
        (λ ready_for.
          if-both Leaves (is_empty cs)
            (λ nothing p.
              ap (λ (o : Store × Result Error (List Completion)). lookup id o.0.records) (sym p)
              ∙ (held ∙ sym (after_batch_empty env.now cs id r nothing)))
            (λ batch. persist_completed-Leaves (resolve_all env s.records [] cs) refl))
