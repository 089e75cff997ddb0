-- ===== src/Outbox/Acceptance.antt =====
-- `acceptMany` of outbox/outbox.go keeps the accounts of the outbox.
use solace_broker_autoscale.Outbox.Accounts.{size_of}
use solace_broker_autoscale.Outbox.Lanes.{present}
use solace_broker_autoscale.Outbox.Records.{
  Content, Record, duplicate, full, id_of, validate_new_record,
}
use solace_broker_autoscale.Outbox.Store.{Env, Store, check_accepted, exceeds}
use solace_broker_autoscale.Prelude.{
  All, Distinct, List, Option, ap, arith, bool_eq, contains, difference, difference_zero, fails,
  fails-none, false, int_max, list_eq, lookup, ltb_ℤ, map, nat_eq, none, option_eq, pair_eq, pos,
  refl, some, sub64, sub64-difference, sum_by, sym, true, ℕ, ▸-none, ◌+◌, ◌∙◌, ◌≡◌, ◌≤◌,
}
use solace_broker_autoscale.Text.{Bytes}
use solace_broker_autoscale.Outbox.Accounts.{total}
use solace_broker_autoscale.Outbox.Records.{Error}
use solace_broker_autoscale.Outbox.Store.{accept_loop, cons_accepted, stamp}
use solace_broker_autoscale.Prelude.{Result, [], err, guarded-ok, length, ok, ok-injective, ◌∷◌}
use solace_broker_autoscale.Outbox.Accounts.{
  Distinct-insert, keys, length-insert_new, total-insert_new,
}
use solace_broker_autoscale.Outbox.Entries.{Keyed}
use solace_broker_autoscale.Outbox.Lanes.{Records}
use solace_broker_autoscale.Outbox.Records.{accepted_size}
use solace_broker_autoscale.Outbox.Store.{add_accepted, add_all}
use solace_broker_autoscale.Prelude.{==_iff, All-weaken, insert, lookup-insert, suc}
use solace_broker_autoscale.Outbox.Accounts.{Balanced}
use solace_broker_autoscale.Outbox.Store.{accept_many, commit_accepted, persist_accepted}
use solace_broker_autoscale.Prelude.{all, if-both, is_empty, ltb, not, u64_max, ◌-◌}
use solace_broker_autoscale.Outbox.Accounts.{Keyed-insert, insert_each}

pos_max : (n : ℕ) → pos n ≡ difference n 0
pos_max n = sym (difference_zero n)

room_of :
    (limit held added size : ℕ)
    → held + added ≤ limit
    → ltb_ℤ (difference limit (held + added)) (pos size) ≡ false
    → held + (added + size) ≤ limit
room_of limit held added size below h = ground arith

-- The test on the byte limit, without wrap-around.
room_left :
    (limit held added size : ℕ)
    → limit ≤ int_max
    → held + added ≤ limit
    → ltb_ℤ (sub64 (sub64 (pos limit) (pos held)) (pos added)) (pos size) ≡ false
    → held + (added + size) ≤ limit
room_left limit held added size fits below h =
    let first : sub64 (pos limit) (pos held) ≡ difference limit held =
      ap (λ x. sub64 x (pos held)) (pos_max limit)
      ∙ (sub64-difference limit 0 held fits (omega arith) ∙ ap (difference limit) (omega arith)) in
    let both : sub64 (sub64 (pos limit) (pos held)) (pos added) ≡ difference limit (held + added) =
      ap (λ x. sub64 x (pos added)) first ∙ sub64-difference limit held added fits (omega arith) in
    room_of limit held added size below (ap (λ x. ltb_ℤ x (pos size)) (sym both) ∙ h)

absent_key : (o : Option Record) → (elim o [ none ↦ false | some r ↦ true ]) ≡ false → o ≡ none
absent_key none h = refl
absent_key (some r) h = cc

module _ (encoded_size : Content → ℕ) (env : Env) (s : Store) where
  -- A record that is new to the store and to the batch before it.
  abbrev Fresh : List Bytes → Record → Type 0
  Fresh seen a = (lookup (id_of a) s.records ≡ none) × (contains seen (id_of a) ≡ false)

  record Taken (seen : List Bytes) (added : ℕ) (acc : List Record) (sum : ℕ) : Type 0 where
    fresh : All (Fresh seen) acc
    apart : Distinct (map id_of acc)
    summed : sum ≡ added + sum_by size_of acc
    bounded : s.bytes + sum ≤ s.limits.max_bytes

  check_accepted-parts :
      (seen : List Bytes) (added : ℕ) (r : Record)
      → check_accepted encoded_size env s seen added r ≡ none
      → Fresh seen r × (exceeds encoded_size env s added r ≡ false)
  unfolding check_accepted
  check_accepted-parts seen added r h =
      let (valid, rest) = (▸-none (validate_new_record r) _).0 h in
      let (absent, more) = (▸-none (fails (present s.records (id_of r)) duplicate) _).0 rest in
      let (unseen, room) = (▸-none (fails (contains seen (id_of r)) duplicate) _).0 more in
      (
        (
          absent_key (lookup (id_of r) s.records) ((fails-none _ duplicate).0 absent),
          (fails-none _ duplicate).0 unseen,
        ),
        (fails-none _ full).0 room,
      )

  Taken-nil :
      (seen : List Bytes) (added : ℕ)
      → s.bytes + added ≤ s.limits.max_bytes
      → Taken seen added [] added
  Taken-nil seen added h = record { fresh = tt; apart = tt; summed = omega arith; bounded = h }

  outside :
      (k : Bytes) (seen : List Bytes) (acc : List Record)
      → All (Fresh (k ∷ seen)) acc
      → contains (map id_of acc) k ≡ false
  outside k seen [] h = refl
  outside k seen (a ∷ acc) ((n, out), h) =
      ground (arith, ==_iff k (id_of a), ==_iff (id_of a) k, outside k seen acc h)

  Taken-cons :
      (seen : List Bytes) (added : ℕ) (a : Record) (more : List Record) (sum : ℕ)
      → Fresh seen a
      → Taken (id_of a ∷ seen) (added + a.size_bytes) more sum
      → Taken seen added (a ∷ more) sum
  Taken-cons seen added a more sum fresh t = record {
    fresh = (
      fresh,
      All-weaken (Fresh (id_of a ∷ seen)) (Fresh seen) (λ x (n, out). (n, ground arith)) more
          t.fresh,
    );
    apart = (outside (id_of a) seen more t.fresh, t.apart);
    summed = omega (arith, t.summed);
    bounded = t.bounded;
  }

  cons_accepted-ok :
      (a : Record) (m : Result Error (List Record × ℕ)) (acc : List Record) (sum : ℕ)
      → cons_accepted a m ≡ ok (acc, sum)
      → (more : List Record) × (m ≡ ok (more, sum)) × (acc ≡ a ∷ more)
  cons_accepted-ok a (err e) acc sum h = cc
  cons_accepted-ok a (ok (more, total)) acc sum h =
      let same = ok-injective _ refl h in
      (more, ap (λ t. ok (more, t)) (ap (λ p. p.1) same), sym (ap (λ p. p.0) same))

  accept_loop-Taken :
      (i : ℕ) (seen : List Bytes) (added : ℕ) (rs acc : List Record) (sum : ℕ)
      → s.limits.max_bytes ≤ int_max
      → s.bytes + added ≤ s.limits.max_bytes
      → accept_loop encoded_size env s i seen added rs ≡ ok (acc, sum)
      → Taken seen added acc sum × (length acc ≡ length rs)
  unfolding accept_loop stamp
  accept_loop-Taken i seen added [] acc sum fits below h =
      let same = ok-injective _ refl h in
      rw (← ap (λ p. p.0) same, ← ap (λ p. p.1) same) (Taken-nil seen added below, refl)
  accept_loop-Taken i seen added (r ∷ rest) acc sum fits below h =
      let a = stamp encoded_size env (s.next_seq + i) r in
      let (clean, last) =
        guarded-ok (check_accepted encoded_size env s seen added r) _ (acc, sum) h in
      let (fresh, room) = check_accepted-parts seen added r clean in
      let (more, others, first) = cons_accepted-ok a _ acc sum last in
      let (taken, count) =
        accept_loop-Taken (suc i) (id_of r ∷ seen) (added + a.size_bytes) rest more sum fits
          (room_left s.limits.max_bytes s.bytes added (accepted_size encoded_size r) fits below
            room)
          others in
      rw first (Taken-cons seen added a more sum fresh taken, ap suc count)

add_all-records :
    (s : Store) (acc : List Record) → (add_all s acc).records ≡ insert_each s.records acc
unfolding add_all insert_each
add_all-records s [] = refl
add_all-records s (a ∷ rest) = add_all-records (add_accepted s a) rest

add_all-limits : (s : Store) (acc : List Record) → (add_all s acc).limits ≡ s.limits
unfolding add_all
add_all-limits s [] = refl
add_all-limits s (a ∷ rest) = add_all-limits (add_accepted s a) rest

-- What is known of the records after all insertions.
record Grown (m : Records) (acc : List Record) : Type 0 where
  keyed : Keyed (insert_each m acc)
  distinct : Distinct (keys (insert_each m acc))
  summed : total (insert_each m acc) ≡ total m + sum_by size_of acc
  counted : length (insert_each m acc) ≡ length m + length acc

still_missing :
    (m : Records) (a : Record) (acc : List Record)
    → All (λ x. lookup (id_of x) m ≡ none) acc
    → contains (map id_of acc) (id_of a) ≡ false
    → All (λ x. lookup (id_of x) (insert (id_of a) a m) ≡ none) acc
still_missing m a [] h out = tt
still_missing m a (x ∷ acc) (n, h) out = (
  ground (
    arith,
    lookup-insert (id_of a) (id_of x) a m,
    ==_iff (id_of a) (id_of x),
    ==_iff (id_of x) (id_of a),
    n,
    out,
  ),
  still_missing m a acc h (ground arith),
)

insert_each-Grown :
    (acc : List Record) (m : Records)
    → Keyed m
    → Distinct (keys m)
    → All (λ x. lookup (id_of x) m ≡ none) acc
    → Distinct (map id_of acc)
    → Grown m acc
unfolding insert_each
insert_each-Grown [] m keyed distinct h d = record {
  keyed = keyed;
  distinct = distinct;
  summed = omega arith;
  counted = omega arith;
}
insert_each-Grown (a ∷ acc) m keyed distinct (n, h) (out, d) =
    let rest =
      insert_each-Grown acc (insert (id_of a) a m) (Keyed-insert m a keyed)
        (Distinct-insert m (id_of a) a distinct) (still_missing m a acc h out) d in
    record {
      keyed = rest.keyed;
      distinct = rest.distinct;
      summed = rest.summed ∙ omega (arith, total-insert_new m (id_of a) a n);
      counted = rest.counted ∙ omega (arith, length-insert_new m (id_of a) a n);
    }

room_for :
    (limit held size : ℕ)
    → limit ≤ int_max
    → held ≤ limit
    → ltb_ℤ (sub64 (pos limit) (pos held)) (pos size) ≡ false
    → held + size ≤ limit
room_for limit held size fits below h =
    let first : sub64 (pos limit) (pos held) ≡ difference limit held =
      ap (λ x. sub64 x (pos held)) (pos_max limit)
      ∙ (sub64-difference limit 0 held fits (omega arith) ∙ ap (difference limit) (omega arith)) in
    let rest : ltb_ℤ (difference limit held) (pos size) ≡ false =
      ap (λ x. ltb_ℤ x (pos size)) (sym first) ∙ h in
    ground arith

commit_accepted-Balanced :
    (s : Store) (acc : List Record) (sum : ℕ)
    → Balanced s
    → Grown s.records acc
    → sum ≡ 0 + sum_by size_of acc
    → s.bytes + sum ≤ s.limits.max_bytes
    → length s.records + length acc ≤ s.limits.max_messages
    → Balanced (commit_accepted s acc sum)
unfolding commit_accepted
commit_accepted-Balanced s acc sum b g e bytes_left count_left = record {
  keyed = rw (add_all-records s acc) g.keyed;
  distinct = rw (add_all-records s acc) g.distinct;
  summed = rw (add_all-records s acc) (omega (arith, e, b.summed, g.summed));
  recorded = refl;
  numbered = refl;
  within_bytes = rw (add_all-limits s acc) bytes_left;
  within_count =
      rw (add_all-limits s acc, add_all-records s acc) (omega (arith, g.counted, count_left));
  bytes_fit = rw (add_all-limits s acc) b.bytes_fit;
  count_fits = rw (add_all-limits s acc) b.count_fits;
}

module _ (encoded_size : Content → ℕ) (env : Env) (s : Store) (b : Balanced s)
    (input : List Record) where
  abbrev Kept : Store × Result Error (List Record) → Type 0
  Kept out = Balanced out.0

  persist_accepted-Balanced :
      (m : Result Error (List Record × ℕ))
      → accept_loop encoded_size env s 0 [] 0 input ≡ m
      → length s.records + length input ≤ s.limits.max_messages
      → Kept (persist_accepted env s m)
  persist_accepted-Balanced (err e) h room = b
  persist_accepted-Balanced (ok (acc, sum)) h room =
      let (taken, count) =
        accept_loop-Taken encoded_size env s 0 [] 0 input acc sum b.bytes_fit
          (omega (arith, b.within_bytes)) h in
      let absent =
        All-weaken (Fresh encoded_size env s []) (λ a. lookup (id_of a) s.records ≡ none)
          (λ a (n, out). n) acc taken.fresh in
      if-both Kept (not (all env.encodes acc)) (λ broken. b)
        (λ fine.
          if-both Kept (not env.commits) (λ lost. b)
            (λ kept.
              commit_accepted-Balanced s acc sum b
                (insert_each-Grown acc s.records b.keyed b.distinct absent taken.apart) taken.summed
                taken.bounded (omega (arith, count, room))))

  -- A batch of new records keeps the accounts, whatever the outcome: the total is the sum of the
  -- sizes of the records, in memory and in the database, neither limit is exceeded, and each record
  -- is held once under its own event.
  pub accept_many-Balanced : Balanced (accept_many encoded_size env s input).0
  unfolding accept_many
  accept_many-Balanced =
      if-both Kept (not s.is_open) (λ shut. b)
        (λ working.
          if-both Kept (is_empty input) (λ nothing. b)
            (λ batch.
              if-both Kept
                (ltb_ℤ (sub64 (pos s.limits.max_messages) (pos (length s.records)))
                  (pos (length input)))
                (λ full_now. b)
                (λ room.
                  if-both Kept (ltb (u64_max - s.next_seq) (length input)) (λ exhausted. b)
                    (λ numbers.
                      persist_accepted-Balanced (accept_loop encoded_size env s 0 [] 0 input) refl (
                        room_for s.limits.max_messages (length s.records) (length input)
                          b.count_fits b.within_count room)))))
