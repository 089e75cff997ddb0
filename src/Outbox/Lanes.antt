-- ===== src/Outbox/Lanes.antt =====
-- outbox/outbox.go: the lanes, one for each ordering key, and the selection of eligible records. The
-- heap `readyLanes` of container/heap is the set of lanes whose flag is set: a lane is in the heap
-- while its `readyIndex` is not negative.
use solace_broker_autoscale.Prelude.{Bool}
use solace_broker_autoscale.Outbox.Records.{Record, effective_ordering_key, id_of, ready, state_beq}
use solace_broker_autoscale.Prelude.{
  List, Map, Option, [], bool_eq, delete, false, if◌then◌else◌, insert, leb, length, list_eq,
  lookup, ltb, nat_eq, none, not, option_eq, pair_eq, some, sort_by, suc, true, zero, ℕ, ◌&&◌, ◌*◌,
  ◌++◌, ◌==◌, ◌∷◌,
}
use solace_broker_autoscale.Text.{Bytes, bytes_lt}
use solace_broker_autoscale.Outbox.Records.{unset}
use solace_broker_autoscale.Prelude.{int_eq}

pub record Lane : Type 0 where
  pub key : Bytes
  pub event_ids : List Bytes
  pub head : ℕ
  pub head_sequence : ℕ
  pub in_ready : Bool

abbrev pub Records : Type 0
Records = Map Bytes Record

abbrev pub Lanes : Type 0
Lanes = Map Bytes Lane

abbrev pub drop {ℓ} : {A : Type ℓ} → ℕ → List A → List A
drop zero xs = xs
drop (suc n) [] = []
drop (suc n) (x ∷ xs) = drop n xs

abbrev pub present : Records → Bytes → Bool
present records id = elim (lookup id records) [ none ↦ false | some r ↦ true ]

abbrev pub head_id : Lane → Option Bytes
head_id lane = elim (drop lane.head lane.event_ids) [ [] ↦ none | ◌∷◌ id rest ↦ some id ]

abbrev head_record : Records → Lane → Option Record
head_record records lane = elim (head_id lane) [ none ↦ none | some id ↦ lookup id records ]

unfoldable pub refresh_lane : Records → Lane → Lane
refresh_lane records lane = elim (head_record records lane) [
  | none ↦ record lane { head_sequence = 0; in_ready = false }
  | some r ↦ record lane { head_sequence = r.sequence; in_ready = state_beq r.state ready }
]

abbrev new_lane : Bytes → Lane
new_lane key = record { key = key; event_ids = []; head = 0; head_sequence = 0; in_ready = false }

abbrev lane_at : Bytes → Lanes → Lane
lane_at key lanes = elim (lookup key lanes) [ none ↦ new_lane key | some lane ↦ lane ]

abbrev append_id : Bytes → Lane → Lane
append_id id lane = record lane { event_ids = lane.event_ids ++ id ∷ [] }

unfoldable pub index_accepted : Records → Record → Lanes → Lanes
index_accepted records r lanes =
    let key = effective_ordering_key r in
    let lane = append_id (id_of r) (lane_at key lanes) in
    insert key (if length lane.event_ids == 1 then refresh_lane records lane else lane) lanes

-- The lane's live head is the record.
abbrev leads : Bytes → Lane → Bool
leads id lane = elim (head_id lane) [ none ↦ false | some first ↦ first == id ]

unfoldable pub refresh_lane_for_record : Records → Record → Lanes → Lanes
refresh_lane_for_record records r lanes = elim (lookup (effective_ordering_key r) lanes) [
  | none ↦ lanes
  | some lane ↦
      if leads (id_of r) lane
      then insert (effective_ordering_key r) (refresh_lane records lane) lanes
      else lanes
]

-- The loop that skips the events that are no longer there, from the place `head` on.
unfoldable pub skip_gone : Records → List Bytes → ℕ → ℕ
skip_gone records [] head = head
skip_gone records (id ∷ rest) head =
    let further = skip_gone records rest (suc head) in if present records id then head else further

abbrev compact_lane : Lane → Lane
compact_lane lane =
    if leb 1024 lane.head && leb (length lane.event_ids) (lane.head * 2)
    then record lane { event_ids = drop lane.head lane.event_ids; head = 0 }
    else lane

abbrev advance_lane : Records → Lane → Lane
advance_lane records lane = record lane {
  head = skip_gone records (drop (suc lane.head) lane.event_ids) (suc lane.head);
  in_ready = false;
}

abbrev put_advanced : Records → Bytes → Lane → Lanes → Lanes
put_advanced records key lane lanes =
    if lane.head == length lane.event_ids
    then delete lane.key lanes
    else insert key (refresh_lane records (compact_lane lane)) lanes

unfoldable pub remove_indexed : Records → Record → Lanes → Lanes
remove_indexed records r lanes = elim (lookup (effective_ordering_key r) lanes) [
  | none ↦ lanes
  | some lane ↦
      if leads (id_of r) lane
      then put_advanced records (effective_ordering_key r) (advance_lane records lane) lanes
      else lanes
]

-- `readyLaneHeap.Less`.
abbrev pub lane_before : Lane → Lane → Bool
lane_before a b =
    if not (a.head_sequence == b.head_sequence)
    then ltb a.head_sequence b.head_sequence
    else bytes_lt a.key b.key

abbrev ready_only : Lanes → List Lane
ready_only [] = []
ready_only ((key, lane) ∷ rest) =
    let more = ready_only rest in if lane.in_ready then lane ∷ more else more

-- The lanes of the heap in its order.
unfoldable pub ready_lanes : Lanes → List Lane
ready_lanes lanes = sort_by lane_before (ready_only lanes)

abbrev pub count_of : Bytes → Map Bytes ℕ → ℕ
count_of k m = elim (lookup k m) [ none ↦ 0 | some n ↦ n ]

abbrev pub in_epochs : Option (Map Bytes ℕ) → Record → Bool
in_epochs none r = true
in_epochs (some epochs) r = elim (lookup r.content.group epochs) [
  | none ↦ false
  | some epoch ↦ epoch == r.epoch
]

abbrev has_slot : Option (Map Bytes ℕ) → Map Bytes ℕ → Record → Bool
has_slot none used r = true
has_slot (some slots) used r = ltb (count_of r.broker used) (count_of r.broker slots)

abbrev pub selects : Option (Map Bytes ℕ) → Option (Map Bytes ℕ) → Map Bytes ℕ → Record → Bool
selects epochs slots used r = in_epochs epochs r && has_slot slots used r

-- The loop of `EligibleFor`, with `usedBrokerSlots`, on the records at the heads of the lanes.
unfoldable pub pick :
    Option (Map Bytes ℕ) → Option (Map Bytes ℕ) → ℕ → Map Bytes ℕ → List Record → List Record
pick epochs slots zero used rs = []
pick epochs slots (suc n) used [] = []
pick epochs slots (suc n) used (r ∷ rs) =
    let taken = pick epochs slots n (insert r.broker (suc (count_of r.broker used)) used) rs in
    let passed = pick epochs slots (suc n) used rs in
    if selects epochs slots used r then r ∷ taken else passed

-- What `s.records[eventID]` is where the map lacks the event.
abbrev zero_record : Record
zero_record = record {
  content = record {
    event_id = [];
    payload = [];
    topic = [];
    properties = [];
    ordering_key = [];
    group = [];
    hash = [];
    hash_contract = [];
    library_version = [];
  };
  routing_algorithm = [];
  broker_endpoint = [];
  epoch = 0;
  broker = [];
  destination = [];
  state = unset;
  attempts = 0;
  last_error = [];
  sequence = 0;
  accepted_at = 0;
  updated_at = 0;
  size_bytes = 0;
}

abbrev record_or_zero : Records → Bytes → Record
record_or_zero records id = elim (lookup id records) [ none ↦ zero_record | some r ↦ r ]

-- `refreshLane` puts a lane in the heap only where its head lies within its events; past their end
-- the code would stop with an index out of range, and the lane is left out here.
abbrev pub head_records : Records → List Lane → List Record
head_records records [] = []
head_records records (lane ∷ rest) =
    let more = head_records records rest in
    elim (head_id lane) [ none ↦ more | some id ↦ record_or_zero records id ∷ more ]

-- `EligibleFor` on an open store: a limit of 0 stands for one that is not positive.
unfoldable pub eligible_for :
    Records → Lanes → ℕ → Option (Map Bytes ℕ) → Option (Map Bytes ℕ) → List Record
eligible_for records lanes limit epochs slots =
    pick epochs slots limit [] (head_records records (ready_lanes lanes))
