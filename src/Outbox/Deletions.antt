-- ===== src/Outbox/Deletions.antt =====
-- Deleting records of the outbox (outbox/outbox.go) takes their sizes from its total.
use solace_broker_autoscale.Outbox.Accounts.{Held, keys, size_of, total}
use solace_broker_autoscale.Outbox.Batches.{remove_all, remove_record}
use solace_broker_autoscale.Outbox.Changes.{Outside}
use solace_broker_autoscale.Outbox.Entries.{Keyed}
use solace_broker_autoscale.Outbox.Lanes.{Records}
use solace_broker_autoscale.Outbox.Records.{Record, id_of}
use solace_broker_autoscale.Outbox.Store.{Store}
use solace_broker_autoscale.Prelude.{
  ==_iff, All, Bool-cases, Distinct, List, [], ap, arith, bool_eq, contains, delete, false, if-both,
  inl, inr, length, list_eq, lookup, lookup-delete, map, nat_eq, option_eq, pair_eq, refl, some,
  sum_by, sym, ◌+◌, ◌==◌, ◌∙◌, ◌∷◌, ◌≡◌, ◌≤◌,
}
use solace_broker_autoscale.Text.{Bytes}

total-delete_missing :
    (m : Records) (k : Bytes) → contains (keys m) k ≡ false → total (delete k m) ≡ total m
total-delete_missing [] k h = refl
total-delete_missing ((j, v) ∷ m) k h = ground (arith, total-delete_missing m k)

total-delete :
    (m : Records) (k : Bytes) (w : Record)
    → Distinct (keys m)
    → lookup k m ≡ some w
    → total (delete k m) + size_of w ≡ total m
total-delete [] k w d h = cc
total-delete ((j, v) ∷ m) k w (new, d) h = elim (Bool-cases (j == k)) [
  | inl same ↦
      let e = (==_iff j k).0 same in
      let out : contains (keys m) k ≡ false = ap (contains (keys m)) (sym e) ∙ new in
      ground (arith, total-delete_missing m k out, h, same)
  | inr other ↦ ground (arith, total-delete m k w d, h, other)
]

length-delete : (m : Records) (k : Bytes) → length (delete k m) ≤ length m
length-delete [] k = omega arith
length-delete ((j, v) ∷ m) k = ground (arith, length-delete m k)

contains-delete :
    (m : Records) (k j : Bytes)
    → contains (keys m) j ≡ false
    → contains (keys (delete k m)) j ≡ false
contains-delete [] k j h = refl
contains-delete ((i, v) ∷ m) k j h = ground (arith, contains-delete m k j)

Distinct-delete : (m : Records) (k : Bytes) → Distinct (keys m) → Distinct (keys (delete k m))
Distinct-delete [] k d = tt
Distinct-delete ((i, v) ∷ m) k (new, d) =
    if-both (λ (t : Records). Distinct (keys t)) (i == k) (λ same. Distinct-delete m k d)
      (λ other. (contains-delete m k i new, Distinct-delete m k d))

Keyed-delete : (m : Records) (k : Bytes) → Keyed m → Keyed (delete k m)
Keyed-delete m k keyed j r h = elim (Bool-cases (k == j)) [
  | inl same ↦ ground (arith, lookup-delete k j m, h, same)
  | inr other ↦ keyed j r (ground (arith, lookup-delete k j m, h, other))
]

unfoldable pub delete_each : Records → List Record → Records
delete_each m [] = m
delete_each m (r ∷ rest) = delete_each (delete (id_of r) m) rest

pub remove_all-records :
    (s : Store) (rs : List Record) → (remove_all s rs).records ≡ delete_each s.records rs
unfolding remove_all delete_each
remove_all-records s [] = refl
remove_all-records s (r ∷ rest) = remove_all-records (remove_record s r) rest

pub remove_all-Outside : (rs : List Record) (s : Store) → Outside s (remove_all s rs)
unfolding remove_all
remove_all-Outside [] s = record { limits = refl; bytes = refl; next_seq = refl }
remove_all-Outside (r ∷ rest) s =
    let more = remove_all-Outside rest (remove_record s r) in
    record { limits = more.limits; bytes = more.bytes; next_seq = more.next_seq }

pub record Shrunk (m : Records) (rs : List Record) : Type 0 where
  pub keyed : Keyed (delete_each m rs)
  pub distinct : Distinct (keys (delete_each m rs))
  pub summed : total (delete_each m rs) + sum_by size_of rs ≡ total m
  pub counted : length (delete_each m rs) ≤ length m

Held-delete :
    (m : Records) (k : Bytes) (u : Record) → (k == id_of u) ≡ false → Held m u → Held (delete k m) u
Held-delete m k u other (w, l, z) = (w, ground (arith, lookup-delete k (id_of u) m, l, other), z)

Held-others :
    (m : Records) (r : Record) (rs : List Record)
    → contains (map id_of rs) (id_of r) ≡ false
    → All (Held m) rs
    → All (Held (delete (id_of r) m)) rs
Held-others m r [] out h = tt
Held-others m r (u ∷ rs) out (hu, h) = (
  Held-delete m (id_of r) u
      (ground (arith, ==_iff (id_of u) (id_of r), ==_iff (id_of r) (id_of u), out)) hu,
  Held-others m r rs (ground arith) h,
)

pub delete_each-Shrunk :
    (rs : List Record) (m : Records)
    → Keyed m
    → Distinct (keys m)
    → All (Held m) rs
    → Distinct (map id_of rs)
    → Shrunk m rs
unfolding delete_each
delete_each-Shrunk [] m keyed distinct h d = record {
  keyed = keyed;
  distinct = distinct;
  summed = omega arith;
  counted = omega arith;
}
delete_each-Shrunk (r ∷ rs) m keyed distinct ((w, l, z), h) (out, d) =
    let rest =
      delete_each-Shrunk rs (delete (id_of r) m) (Keyed-delete m (id_of r) keyed)
        (Distinct-delete m (id_of r) distinct) (Held-others m r rs out h) d in
    record {
      keyed = rest.keyed;
      distinct = rest.distinct;
      summed = omega (arith, rest.summed, total-delete m (id_of r) w distinct l, z);
      counted = omega (arith, rest.counted, length-delete m (id_of r));
    }
