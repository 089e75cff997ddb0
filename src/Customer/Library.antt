-- ===== src/Customer/Library.antt =====
-- customer/customer.go: what an application supplies. A message's payload is of any type.
use solace_broker_autoscale.Customer.Keys.{Error}
use solace_broker_autoscale.Customer.Keys.{
  ScoreInput, entity_hash, no_algorithm, not_a_policy, not_configured, rendezvous_contract,
  sha256_rendezvous_score, unsupported_group,
}
use solace_broker_autoscale.Prelude.{
  Map, Option, Result, [], bool_eq, err, if◌then◌else◌, is_empty, list_eq, lookup, nat_eq, none,
  not, ok, option_eq, some, ◌&&◌, ◌==◌,
}
use solace_broker_autoscale.Text.{Bytes, bytes}

pub record MessageView (P : Type 0) : Type 0 where
  pub topic : Bytes
  pub headers : Map Bytes Bytes
  pub payload : P
  pub event_id : Bytes

abbrev pub header : {P : Type 0} → MessageView P → Bytes → Option Bytes
header m name = lookup name m.headers

-- `m.Headers[name]`, which is empty where there is no such header.
abbrev pub header_or_empty : {P : Type 0} → MessageView P → Bytes → Bytes
header_or_empty m name = elim (lookup name m.headers) [ none ↦ [] | some v ↦ v ]

-- The score contract that the router uses.
pub record RoutingHashPolicy : Type 0 where
  pub get_rendezvous_score : ScoreInput → Result Error Bytes
  pub routing_algorithm : Bytes

-- `CustomerLibraryFuncs`; a function that is not configured is `none`.
pub record CustomerLibraryFuncs (P : Type 0) : Type 0 where
  pub scaling_group : Option (MessageView P → Result Error Bytes)
  pub business_hash : Option (MessageView P → Result Error Bytes)
  pub rendezvous_score : Option (ScoreInput → Result Error Bytes)
  pub algorithm : Bytes

abbrev configured : {A : Type 0} → Option (A → Result Error Bytes) → A → Result Error Bytes
configured none a = err not_configured
configured (some f) a = f a

module _ {P : Type 0} where
  unfoldable pub get_scaling_group : CustomerLibraryFuncs P → MessageView P → Result Error Bytes
  get_scaling_group f m = configured f.scaling_group m

  unfoldable pub get_business_hash : CustomerLibraryFuncs P → MessageView P → Result Error Bytes
  get_business_hash f m = configured f.business_hash m

  unfoldable pub get_rendezvous_score :
      (Bytes → Bytes) → CustomerLibraryFuncs P → ScoreInput → Result Error Bytes
  get_rendezvous_score sha256 f i = elim f.rendezvous_score [
    | none ↦ sha256_rendezvous_score sha256 i
    | some score ↦ score i
  ]

  unfoldable pub routing_algorithm : CustomerLibraryFuncs P → Bytes
  routing_algorithm f = if is_empty f.algorithm then rendezvous_contract else f.algorithm

-- A library that does not implement the score contract is `none`.
unfoldable pub routing_policy : Option RoutingHashPolicy → Result Error RoutingHashPolicy
routing_policy none = err not_a_policy
routing_policy (some p) = if is_empty p.routing_algorithm then err no_algorithm else ok p

-- `EntityCustomerLibrary`.
module _ {P : Type 0} where
  unfoldable pub entity_scaling_group : MessageView P → Result Error Bytes
  entity_scaling_group m =
      let group = header_or_empty m (bytes "scaling-group") in
      if not (group == bytes "events-a") && not (group == bytes "events-b")
      then err unsupported_group
      else ok group

  unfoldable pub entity_business_hash : (Bytes → Bytes) → MessageView P → Result Error Bytes
  entity_business_hash sha256 m =
      entity_hash sha256 (header_or_empty m (bytes "scaling-group"))
        (header_or_empty m (bytes "entity_id"))

unfoldable pub entity_policy : (Bytes → Bytes) → RoutingHashPolicy
entity_policy sha256 = record {
  get_rendezvous_score = sha256_rendezvous_score sha256;
  routing_algorithm = rendezvous_contract;
}
