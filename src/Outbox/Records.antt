-- ===== src/Outbox/Records.antt =====
-- outbox/outbox.go: the records of the outbox and their checks. A missing map of properties is an
-- empty one.
use solace_broker_autoscale.Prelude.{Bool}
use solace_broker_autoscale.Prelude.{
  List, Map, Option, Result, [], bool_eq, contains, err, fails, false, if◌then◌else◌, is_empty,
  list_eq, nat_eq, none, not, ok, option_eq, pair_eq, true, u64, ℕ, ◌&&◌, ◌++◌, ◌+◌, ◌==◌, ◌||◌,
  ◌∷◌, ◌▸◌,
}
use solace_broker_autoscale.Text.{Bytes, bytes}
use solace_broker_autoscale.Prelude.{int_eq}

pub data Error : Type 0 where
  full duplicate not_found invalid_record invalid_state closed : Error
  sequence_exhausted not_encoded not_persisted : Error

-- `unset` is the empty text, and `other_state` any text that has no name in the code.
pub data State : Type 0 where
  unset unassigned ready in_events_a ack_uncertain : State
  other_state : Bytes → State

abbrev pub state_beq : State → State → Bool
state_beq unset unset = true
state_beq unassigned unassigned = true
state_beq ready ready = true
state_beq in_events_a in_events_a = true
state_beq ack_uncertain ack_uncertain = true
state_beq (other_state a) (other_state b) = a == b
state_beq _ _ = false

-- What `acceptedSize` measures: the content that no operation changes.
pub record Content : Type 0 where
  pub event_id : Bytes
  pub payload : Bytes
  pub topic : Bytes
  pub properties : Map Bytes Bytes
  pub ordering_key : Bytes
  pub group : Bytes
  pub hash : Bytes
  pub hash_contract : Bytes
  pub library_version : Bytes

-- `Record`, with its content in a field of its own.
pub record Record : Type 0 where
  pub content : Content
  pub routing_algorithm : Bytes
  pub broker_endpoint : Bytes
  pub epoch : ℕ
  pub broker : Bytes
  pub destination : Bytes
  pub state : State
  pub attempts : ℕ
  pub last_error : Bytes
  pub sequence : ℕ
  pub accepted_at : ℕ
  pub updated_at : ℕ
  pub size_bytes : ℕ

pub record Assignment : Type 0 where
  pub epoch : ℕ
  pub broker : Bytes
  pub broker_endpoint : Bytes
  pub destination : Bytes

pub data CompletionOutcome : Type 0 where
  acknowledged rejected uncertain other_outcome : CompletionOutcome

pub record Completion : Type 0 where
  pub event_id : Bytes
  pub attempts : ℕ
  pub epoch : ℕ
  pub outcome : CompletionOutcome
  pub reason : Bytes

pub record Limits : Type 0 where
  pub max_messages : ℕ
  pub max_bytes : ℕ

abbrev pub id_of : Record → Bytes
id_of r = r.content.event_id

abbrev lacks_field : Content → Bool
lacks_field c =
    is_empty c.event_id
    || is_empty c.topic
    || is_empty c.ordering_key
    || is_empty c.group
    || is_empty c.hash
    || is_empty c.hash_contract
    || is_empty c.library_version

-- The record lacks a part of its route, or carries one.
abbrev pub lacks_route : Record → Bool
lacks_route r = r.epoch == 0 || is_empty r.broker || is_empty r.destination

abbrev pub carries_route : Record → Bool
carries_route r = not (r.epoch == 0) || not (is_empty r.broker) || not (is_empty r.destination)

unfoldable pub validate_new_record : Record → Option Error
validate_new_record r =
    fails (lacks_field r.content) invalid_record
    ▸ fails
        (not (state_beq r.state unset)
          && not (state_beq r.state unassigned)
          && not (state_beq r.state ready))
        invalid_record
    ▸ fails (state_beq r.state ready && lacks_route r) invalid_record
    ▸ fails (not (state_beq r.state ready) && carries_route r) invalid_record

abbrev route_matches : State → Record → Bool
route_matches unset r = false
route_matches (other_state text) r = false
route_matches unassigned r = not (carries_route r)
route_matches ready r = not (lacks_route r)
route_matches in_events_a r = not (lacks_route r)
route_matches ack_uncertain r = not (lacks_route r)

-- `acceptedSize`, by the length of the JSON text of a content.
abbrev pub accepted_size : (Content → ℕ) → Record → ℕ
accepted_size encoded_size r = encoded_size r.content

unfoldable pub validate_stored_record : (Content → ℕ) → Record → Option Error
validate_stored_record encoded_size r =
    fails
      (lacks_field r.content
        || r.sequence == 0
        || r.size_bytes == 0
        || not (r.size_bytes == accepted_size encoded_size r))
      invalid_record
    ▸ fails (not (route_matches r.state r)) invalid_record

unfoldable pub effective_ordering_key : Record → Bytes
effective_ordering_key r =
    if not (is_empty r.content.ordering_key)
    then r.content.ordering_key
    else r.content.group ++ 0 ∷ r.content.hash

-- `validateUniqueEventIDs`, with `seen`.
unfoldable pub check_unique : List Bytes → List Bytes → Option Error
check_unique seen [] = none
check_unique seen (id ∷ rest) =
    fails (is_empty id) invalid_record
    ▸ fails (contains seen id) invalid_record
    ▸ check_unique (id ∷ seen) rest

-- The mutations that `updateMany` is given.
unfoldable pub assign_record : Assignment → Record → Result Error Record
assign_record a r =
    if a.epoch == 0 || is_empty a.broker || is_empty a.broker_endpoint || is_empty a.destination
    then err invalid_record
    else if state_beq r.state ready
        && r.epoch == a.epoch
        && r.broker == a.broker
        && r.broker_endpoint == a.broker_endpoint
        && r.destination == a.destination
    then ok r
    else if not (state_beq r.state unassigned) && not (state_beq r.state ready)
    then err invalid_state
    else ok (record r {
      epoch = a.epoch;
      broker = a.broker;
      broker_endpoint = a.broker_endpoint;
      destination = a.destination;
      state = ready;
      last_error = [];
    })

unfoldable pub publish_record : Record → Result Error Record
publish_record r =
    if not (state_beq r.state ready)
    then err invalid_state
    else ok (record r { state = in_events_a; attempts = u64 (r.attempts + 1); last_error = [] })

unfoldable pub reject_record : Bytes → Record → Result Error Record
reject_record reason r =
    if not (state_beq r.state in_events_a)
    then err invalid_state
    else ok (record r { state = ready; last_error = reason })

unfoldable pub doubt_record : Bytes → Record → Result Error Record
doubt_record reason r =
    if not (state_beq r.state in_events_a)
    then err invalid_state
    else ok (record r { state = ack_uncertain; last_error = reason })

unfoldable pub retry_record : Record → Result Error Record
retry_record r =
    if not (state_beq r.state ack_uncertain)
    then err invalid_state
    else ok (record r {
      state = ready;
      last_error = bytes "explicit retry after uncertain ACK; duplicate delivery is possible";
    })
