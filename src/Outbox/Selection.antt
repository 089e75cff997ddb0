-- ===== src/Outbox/Selection.antt =====
-- What `EligibleFor` of outbox/outbox.go selects.
use solace_broker_autoscale.Prelude.{Bool}
use solace_broker_autoscale.Outbox.Lanes.{count_of, pick, selects}
use solace_broker_autoscale.Outbox.Records.{Record}
use solace_broker_autoscale.Prelude.{
  Bool-cases, List, Map, Option, [], ap, arith, bool_eq, if◌then◌else◌, inl, inr, insert, list_eq,
  lookup-insert, nat_eq, none, option_eq, pair_eq, some, suc, zero, ℕ, ◌-◌, ◌==◌, ◌∙◌, ◌∷◌, ◌≡◌,
  ◌≤◌,
}
use solace_broker_autoscale.Text.{Bytes}
use solace_broker_autoscale.Outbox.Lanes.{
  Lanes, Records, eligible_for, head_records, in_epochs, ready_lanes,
}
use solace_broker_autoscale.Prelude.{==_iff, false, if-both, length, ltb, refl, true, ◌&&◌, ◌<◌}
use solace_broker_autoscale.Prelude.{int_eq}

abbrev pub of_broker_count : Bytes → List Record → ℕ
of_broker_count b [] = 0
of_broker_count b (r ∷ rest) =
    let more = of_broker_count b rest in if r.broker == b then suc more else more

count_of-insert :
    (k j : Bytes) (n : ℕ) (m : Map Bytes ℕ)
    → count_of j (insert k n m) ≡ (if k == j then n else count_of j m)
count_of-insert k j n m =
    ap (λ o. elim o [ none ↦ 0 | some v ↦ v ]) (lookup-insert k j n m) ∙ ground arith

and_right : (p q : Bool) → (p && q) ≡ true → q ≡ true
and_right p q h = ground arith

ltb_less : (n m : ℕ) → ltb n m ≡ true → n < m
ltb_less n m h = ground arith

one_more :
    (same : Bool) (more slots used next : ℕ)
    → more ≤ slots - next
    → (same ≡ true → (next ≡ suc used) × (used < slots))
    → (same ≡ false → next ≡ used)
    → (if same then suc more else more) ≤ slots - used
one_more true more slots used next h at away = let (e, lt) = at refl in omega (arith, h, e, lt)
one_more false more slots used next h at away = omega (arith, h, away refl)

module _ (epochs : Option (Map Bytes ℕ)) (slots : Map Bytes ℕ) (b : Bytes) where
  free_slot :
      (r : Record) (used : Map Bytes ℕ)
      → count_of r.broker slots ≡ count_of b slots
      → count_of r.broker used ≡ count_of b used
      → selects epochs (some slots) used r ≡ true
      → count_of b used < count_of b slots
  free_slot r used e f go =
      let room = and_right (in_epochs epochs r) _ go in
      rw (← e, ← f) (ltb_less (count_of r.broker used) (count_of r.broker slots) room)

  pick-slots :
      (rs : List Record) (n : ℕ) (used : Map Bytes ℕ)
      → of_broker_count b (pick epochs (some slots) n used rs) ≤ count_of b slots - count_of b used
  unfolding pick
  pick-slots rs zero used = omega arith
  pick-slots [] (suc n) used = omega arith
  pick-slots (r ∷ rs) (suc n) used =
      let next = insert r.broker (suc (count_of r.broker used)) used in
      let taken = pick-slots rs n next in
      let passed = pick-slots rs (suc n) used in
      let now_used = count_of-insert r.broker b (suc (count_of r.broker used)) used in
      elim (Bool-cases (selects epochs (some slots) used r)) [
        | inr no_go ↦ rw no_go passed
        | inl go ↦ rw go (
            one_more (r.broker == b) (of_broker_count b (pick epochs (some slots) n next rs))
              (count_of b slots) (count_of b used) (count_of b next) taken
              (λ same.
                let e = (==_iff r.broker b).0 same in
                let used_here = ap (λ k. count_of k used) e in
                let slots_here = ap (λ k. count_of k slots) e in
                let grown =
                  ap (λ t. if t then suc (count_of r.broker used) else count_of b used) same in
                (now_used ∙ (grown ∙ ap suc used_here), free_slot r used slots_here used_here go))
              (λ other.
                now_used
                ∙ ap (λ t. if t then suc (count_of r.broker used) else count_of b used) other))
      ]

length-pick :
    (epochs : Option (Map Bytes ℕ)) (slots : Map Bytes ℕ) (rs : List Record) (n : ℕ)
    (used : Map Bytes ℕ)
    → length (pick epochs (some slots) n used rs) ≤ n
unfolding pick
length-pick epochs slots rs zero used = omega arith
length-pick epochs slots [] (suc n) used = omega arith
length-pick epochs slots (r ∷ rs) (suc n) used =
    let next = insert r.broker (suc (count_of r.broker used)) used in
    if-both (λ (t : List Record). length t ≤ suc n) (selects epochs (some slots) used r)
      (λ go. omega (arith, length-pick epochs slots rs n next))
      (λ no_go. length-pick epochs slots rs (suc n) used)

-- `EligibleFor` selects of each broker at most as many records as the broker has slots, and at most
-- as many records as the limit.
pub eligible_for-slots :
    (records : Records) (lanes : Lanes) (limit : ℕ) (epochs : Option (Map Bytes ℕ))
    (slots : Map Bytes ℕ) (b : Bytes)
    → (of_broker_count b (eligible_for records lanes limit epochs (some slots)) ≤ count_of b slots)
      × (length (eligible_for records lanes limit epochs (some slots)) ≤ limit)
unfolding eligible_for
eligible_for-slots records lanes limit epochs slots b =
    let heads = head_records records (ready_lanes lanes) in
    (
      omega (arith, pick-slots epochs slots b heads limit []),
      length-pick epochs slots heads limit [],
    )
