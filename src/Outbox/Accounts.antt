-- ===== src/Outbox/Accounts.antt =====
-- The accounts of the outbox: its total is the sum of the sizes of its records, and neither limit is
-- exceeded.
use solace_broker_autoscale.Outbox.Entries.{Keyed}
use solace_broker_autoscale.Outbox.Lanes.{Records}
use solace_broker_autoscale.Outbox.Records.{Record}
use solace_broker_autoscale.Outbox.Store.{Store}
use solace_broker_autoscale.Prelude.{
  ==_iff, Distinct, List, [], arith, bool_eq, contains, false, if-both, insert, int_max, length,
  list_eq, lookup, map, nat_eq, none, option_eq, pair_eq, refl, some, sum_by, ℕ, ◌+◌, ◌==◌, ◌||◌,
  ◌∷◌, ◌≡◌, ◌≤◌,
}
use solace_broker_autoscale.Text.{Bytes}
use solace_broker_autoscale.Outbox.Records.{id_of}
use solace_broker_autoscale.Prelude.{
  All, All-weaken, Bool-cases, ap, inl, inr, lookup-insert, lookup-insert_cases, sym, ◌∙◌,
}

abbrev pub size_of : Record → ℕ
size_of r = r.size_bytes

abbrev pub total : Records → ℕ
total = sum_by (λ e. size_of e.1)

abbrev pub keys : Records → List Bytes
keys = map (λ e. e.0)

-- What every operation keeps.
pub record Balanced (s : Store) : Type 0 where
  pub keyed : Keyed s.records
  pub distinct : Distinct (keys s.records)
  pub summed : s.bytes ≡ total s.records
  pub recorded : s.database.total_bytes ≡ s.bytes
  pub numbered : s.database.next_sequence ≡ s.next_seq
  pub within_bytes : s.bytes ≤ s.limits.max_bytes
  pub within_count : length s.records ≤ s.limits.max_messages
  pub bytes_fit : s.limits.max_bytes ≤ int_max
  pub count_fits : s.limits.max_messages ≤ int_max

pub missing_key : (m : Records) (k : Bytes) → lookup k m ≡ none → contains (keys m) k ≡ false
missing_key [] k h = refl
missing_key ((j, r) ∷ m) k h = ground (arith, missing_key m k)

pub total-insert_new :
    (m : Records) (k : Bytes) (r : Record)
    → lookup k m ≡ none
    → total (insert k r m) ≡ total m + size_of r
total-insert_new [] k r h = omega arith
total-insert_new ((j, w) ∷ m) k r h = ground (arith, total-insert_new m k r)

pub length-insert_new :
    (m : Records) (k : Bytes) (r : Record)
    → lookup k m ≡ none
    → length (insert k r m) ≡ length m + 1
length-insert_new [] k r h = omega arith
length-insert_new ((j, w) ∷ m) k r h = ground (arith, length-insert_new m k r)

pub total-insert_over :
    (m : Records) (k : Bytes) (r w : Record)
    → lookup k m ≡ some w
    → size_of r ≡ size_of w
    → total (insert k r m) ≡ total m
total-insert_over [] k r w h e = cc
total-insert_over ((j, v) ∷ m) k r w h e = ground (arith, total-insert_over m k r w)

pub length-insert_over :
    (m : Records) (k : Bytes) (r w : Record)
    → lookup k m ≡ some w
    → length (insert k r m) ≡ length m
length-insert_over [] k r w h = cc
length-insert_over ((j, v) ∷ m) k r w h = ground (arith, length-insert_over m k r w)

pub contains-insert :
    (m : Records) (k j : Bytes) (r : Record)
    → contains (keys (insert k r m)) j ≡ (k == j || contains (keys m) j)
contains-insert [] k j r = refl
contains-insert ((i, w) ∷ m) k j r =
    ground (arith, contains-insert m k j r, ==_iff i k, ==_iff k j, ==_iff i j)

pub Distinct-insert :
    (m : Records) (k : Bytes) (r : Record) → Distinct (keys m) → Distinct (keys (insert k r m))
Distinct-insert [] k r d = (refl, tt)
Distinct-insert ((i, w) ∷ m) k r (new, d) =
    if-both (λ (t : Records). Distinct (keys t)) (i == k) (λ same. (ground (arith, ==_iff i k), d))
      (λ other.
        (ground (arith, contains-insert m k i r, ==_iff k i, ==_iff i k), Distinct-insert m k r d))

-- The records of a store after some are written.
unfoldable pub insert_each : Records → List Record → Records
insert_each m [] = m
insert_each m (a ∷ rest) = insert_each (insert (id_of a) a m) rest

pub Keyed-insert : (m : Records) (a : Record) → Keyed m → Keyed (insert (id_of a) a m)
Keyed-insert m a keyed k r h = elim (lookup-insert_cases (id_of a) k a r m h) [
  | inl (same, e) ↦ ap id_of e ∙ same
  | inr old ↦ keyed k r old
]

-- A record that is held, with its size.
abbrev pub Held : Records → Record → Type 0
Held m u = (w : Record) × (lookup (id_of u) m ≡ some w) × (size_of u ≡ size_of w)

pub Held-insert : (m : Records) (a u : Record) → Held m a → Held m u → Held (insert (id_of a) a m) u
Held-insert m a u (v, la, sa) (w, lu, su) = elim (Bool-cases (id_of a == id_of u)) [
  | inl same ↦
      let e = (==_iff (id_of a) (id_of u)).0 same in
      let vw : v ≡ w = ground (arith, sym la ∙ (ap (λ k. lookup k m) e ∙ lu)) in
      (
        a,
        ground (arith, lookup-insert (id_of a) (id_of u) a m),
        su ∙ (ap size_of (sym vw) ∙ sym sa),
      )
  | inr other ↦ (w, ground (arith, lookup-insert (id_of a) (id_of u) a m), su)
]

-- Writing held records changes no size.
pub record Rewritten (m : Records) (us : List Record) : Type 0 where
  pub keyed : Keyed (insert_each m us)
  pub distinct : Distinct (keys (insert_each m us))
  pub summed : total (insert_each m us) ≡ total m
  pub counted : length (insert_each m us) ≡ length m
  pub held : (d : Record) → Held m d → Held (insert_each m us) d

Held-rest :
    (m : Records) (a : Record) (us : List Record)
    → Held m a
    → All (Held m) us
    → All (Held (insert (id_of a) a m)) us
Held-rest m a us ha h =
    All-weaken (Held m) (Held (insert (id_of a) a m)) (λ u hu. Held-insert m a u ha hu) us h

pub insert_each-Rewritten :
    (us : List Record) (m : Records)
    → Keyed m
    → Distinct (keys m)
    → All (Held m) us
    → Rewritten m us
unfolding insert_each
insert_each-Rewritten [] m keyed distinct h = record {
  keyed = keyed;
  distinct = distinct;
  summed = refl;
  counted = refl;
  held = λ d hd. hd;
}
insert_each-Rewritten (a ∷ us) m keyed distinct ((w, la, sa), h) =
    let rest =
      insert_each-Rewritten us (insert (id_of a) a m) (Keyed-insert m a keyed)
        (Distinct-insert m (id_of a) a distinct) (Held-rest m a us (w, la, sa) h) in
    record {
      keyed = rest.keyed;
      distinct = rest.distinct;
      summed = rest.summed ∙ total-insert_over m (id_of a) a w la sa;
      counted = rest.counted ∙ length-insert_over m (id_of a) a w la;
      held = λ d hd. rest.held d (Held-insert m a d (w, la, sa) hd);
    }
