-- ===== src/Outbox/Changes.antt =====
-- `updateMany` of outbox/outbox.go with the operations on it keeps the accounts of the outbox.
use solace_broker_autoscale.Outbox.Accounts.{
  Balanced, Held, insert_each, insert_each-Rewritten, size_of,
}
use solace_broker_autoscale.Outbox.Entries.{Keyed}
use solace_broker_autoscale.Outbox.Lanes.{Records}
use solace_broker_autoscale.Outbox.Records.{
  Assignment, Error, Record, ack_uncertain, assign_record, check_unique, doubt_record, id_of,
  in_events_a, not_encoded, publish_record, ready, reject_record, retry_record, state_beq,
  unassigned,
}
use solace_broker_autoscale.Outbox.Store.{
  Env, Store, cons_updated, finish_update, persist_updated, put_all_updated, put_updated, touched,
  update_found, update_loop, update_many,
}
use solace_broker_autoscale.Prelude.{
  All, List, Option, Result, [], ap, arith, bool_eq, err, fails, guarded, guarded-ok, if-both,
  is_empty, list_eq, lookup, nat_eq, none, not, ok, ok-injective, option_eq, or_fail-ok, pair_eq,
  refl, some, sym, ◌&&◌, ◌==◌, ◌||◌, ◌∙◌, ◌∷◌, ◌≡◌,
}
use solace_broker_autoscale.Text.{Bytes}

-- A mutation that keeps the event and the size of a record.
abbrev pub Steady : (Bytes → Record → Result Error Record) → Type 0
Steady mutate =
    (id : Bytes) (r m : Record) → mutate id r ≡ ok m → (id_of m ≡ id_of r) × (size_of m ≡ size_of r)

pub put_all_updated-records :
    (s : Store) (us : List Record) → (put_all_updated s us).records ≡ insert_each s.records us
unfolding put_all_updated insert_each
put_all_updated-records s [] = refl
put_all_updated-records s (u ∷ rest) = put_all_updated-records (put_updated s u) rest

-- The rest of the store is not changed by the writes.
pub record Outside (s t : Store) : Type 0 where
  pub limits : t.limits ≡ s.limits
  pub bytes : t.bytes ≡ s.bytes
  pub next_seq : t.next_seq ≡ s.next_seq

pub put_all_updated-Outside : (us : List Record) (s : Store) → Outside s (put_all_updated s us)
unfolding put_all_updated
put_all_updated-Outside [] s = record { limits = refl; bytes = refl; next_seq = refl }
put_all_updated-Outside (u ∷ rest) s =
    let more = put_all_updated-Outside rest (put_updated s u) in
    record { limits = more.limits; bytes = more.bytes; next_seq = more.next_seq }

finish_update-ok :
    (env : Env) (m : Result Error Record) (u : Record)
    → finish_update env m ≡ ok u
    → (r : Record) × (m ≡ ok r) × (id_of u ≡ id_of r) × (size_of u ≡ size_of r)
finish_update-ok env (err e) u h = cc
finish_update-ok env (ok r) u h =
    let same =
      (or_fail-ok (fails (not (env.encodes (touched env r))) not_encoded) (touched env r) u h).1 in
    (r, refl, ap id_of (sym same), ap size_of (sym same))

cons_updated-ok :
    (first : Result Error Record) (rest : Result Error (List Record)) (us : List Record)
    → cons_updated first rest ≡ ok us
    → (u : Record) × (more : List Record) × (first ≡ ok u) × (rest ≡ ok more) × (us ≡ u ∷ more)
cons_updated-ok (err e) rest us h = cc
cons_updated-ok (ok u) (err e) us h = cc
cons_updated-ok (ok u) (ok more) us h = (u, more, refl, refl, sym (ok-injective _ refl h))

module _ (env : Env) (records : Records) (keyed : Keyed records)
    (mutate : Bytes → Record → Result Error Record) (steady : Steady mutate) where
  update_found-Held :
      (id : Bytes) (o : Option Record) (rest : Result Error (List Record)) (us : List Record)
      → lookup id records ≡ o
      → update_found env (mutate id) o rest ≡ ok us
      → ((more : List Record) → rest ≡ ok more → All (Held records) more)
      → All (Held records) us
  update_found-Held id none rest us e h all_more = cc
  update_found-Held id (some r) rest us e h all_more =
      let (u, more, first, others, both) =
        cons_updated-ok (finish_update env (mutate id r)) rest us h in
      let (m, done, named, sized) = finish_update-ok env (mutate id r) u first in
      let (same, size) = steady id r m done in
      let at : id_of u ≡ id = named ∙ (same ∙ keyed id r e) in
      rw both ((r, ap (λ k. lookup k records) at ∙ e, sized ∙ size), all_more more others)

  update_loop-Held :
      (ids : List Bytes) (us : List Record)
      → update_loop env records mutate ids ≡ ok us
      → All (Held records) us
  unfolding update_loop
  update_loop-Held [] us h = rw (← ok-injective _ refl h) tt
  update_loop-Held (id ∷ rest) us h =
      update_found-Held id (lookup id records) (update_loop env records mutate rest) us refl h
        (λ more e. update_loop-Held rest more e)

module _ (env : Env) (s : Store) (b : Balanced s) (ids : List Bytes)
    (mutate : Bytes → Record → Result Error Record) (steady : Steady mutate) where
  abbrev StillBalanced : Store × Option Error → Type 0
  StillBalanced out = Balanced out.0

  persist_updated-Balanced :
      (m : Result Error (List Record))
      → ((us : List Record) → m ≡ ok us → All (Held s.records) us)
      → StillBalanced (persist_updated env s m)
  persist_updated-Balanced (err e) h = b
  persist_updated-Balanced (ok us) h =
      let r = insert_each-Rewritten us s.records b.keyed b.distinct (h us refl) in
      let o = put_all_updated-Outside us s in
      if-both StillBalanced (not env.commits) (λ lost. b)
        (λ kept. record {
          keyed = rw (put_all_updated-records s us) r.keyed;
          distinct = rw (put_all_updated-records s us) r.distinct;
          summed = rw (put_all_updated-records s us) (o.bytes ∙ (b.summed ∙ sym r.summed));
          recorded = b.recorded ∙ sym o.bytes;
          numbered = b.numbered ∙ sym o.next_seq;
          within_bytes = rw (o.limits, o.bytes) b.within_bytes;
          within_count =
              rw (o.limits, put_all_updated-records s us)
                (omega (arith, r.counted, b.within_count));
          bytes_fit = rw o.limits b.bytes_fit;
          count_fits = rw o.limits b.count_fits;
        })

  guarded-Held :
      (us : List Record)
      → guarded (check_unique [] ids) (update_loop env s.records mutate ids) ≡ ok us
      → All (Held s.records) us
  guarded-Held us h =
      update_loop-Held env s.records b.keyed mutate steady ids us
        (guarded-ok (check_unique [] ids) (update_loop env s.records mutate ids) us h).1

  pub update_many-Balanced : Balanced (update_many env s ids mutate).0
  unfolding update_many
  update_many-Balanced =
      if-both StillBalanced (not s.is_open) (λ shut. b)
        (λ working.
          if-both StillBalanced (is_empty ids) (λ nothing. b)
            (λ batch.
              persist_updated-Balanced
                (guarded (check_unique [] ids) (update_loop env s.records mutate ids))
                guarded-Held))

-- The five mutations.
abbrev Mild : Record → Result Error Record → Type 0
Mild r out = (m : Record) → out ≡ ok m → (id_of m ≡ id_of r) × (size_of m ≡ size_of r)

same_content : (r q : Record) → q.content ≡ r.content → q.size_bytes ≡ r.size_bytes → Mild r (ok q)
same_content r q c z m h =
    let e = ok-injective _ refl h in
    (ap id_of (sym e) ∙ ap (λ x. x.event_id) c, ap size_of (sym e) ∙ z)

pub publish_record-Steady : Steady (λ id. publish_record)
unfolding publish_record
publish_record-Steady id r =
    if-both (Mild r) (not (state_beq r.state ready)) (λ no_go m h. cc)
      (λ go. same_content r _ refl refl)

pub reject_record-Steady : (reasons : Bytes → Bytes) → Steady (λ id. reject_record (reasons id))
unfolding reject_record
reject_record-Steady reasons id r =
    if-both (Mild r) (not (state_beq r.state in_events_a)) (λ no_go m h. cc)
      (λ go. same_content r _ refl refl)

pub doubt_record-Steady : (reasons : Bytes → Bytes) → Steady (λ id. doubt_record (reasons id))
unfolding doubt_record
doubt_record-Steady reasons id r =
    if-both (Mild r) (not (state_beq r.state in_events_a)) (λ no_go m h. cc)
      (λ go. same_content r _ refl refl)

pub retry_record-Steady : Steady (λ id. retry_record)
unfolding retry_record
retry_record-Steady id r =
    if-both (Mild r) (not (state_beq r.state ack_uncertain)) (λ no_go m h. cc)
      (λ go. same_content r _ refl refl)

pub assign_record-Steady : (routes : Bytes → Assignment) → Steady (λ id. assign_record (routes id))
unfolding assign_record
assign_record-Steady routes id r =
    let a = routes id in
    if-both (Mild r)
      (a.epoch == 0 || is_empty a.broker || is_empty a.broker_endpoint || is_empty a.destination)
      (λ incomplete m h. cc)
      (λ complete.
        if-both (Mild r)
          (state_beq r.state ready
            && r.epoch == a.epoch
            && r.broker == a.broker
            && r.broker_endpoint == a.broker_endpoint
            && r.destination == a.destination)
          (λ same. same_content r r refl refl)
          (λ other.
            if-both (Mild r) (not (state_beq r.state unassigned) && not (state_beq r.state ready))
              (λ no_go m h. cc) (λ go. same_content r _ refl refl)))
