-- ===== src/Controller/Sources.antt =====
-- controller/controller.go: the source queues whose drain a transition must see.
use solace_broker_autoscale.Control.Snapshot.{
  EpochResourceIdentity, descriptor_eq, destination_eq, kind_eq, phase_eq, queue_eq, resource_eq,
  transition_eq,
}
use solace_broker_autoscale.Controller.Commands.{has_typed_requirements}
use solace_broker_autoscale.Controller.Phases.{observer, role_eq, transition_phase_eq}
use solace_broker_autoscale.Controller.Spec.{Broker, TransitionSpec, broker_eq, requirement_eq}
use solace_broker_autoscale.Controller.State.{Telemetry}
use solace_broker_autoscale.Prelude.{
  Bool, List, Option, [], all, bool_eq, contains, false, if◌then◌else◌, is_empty, list_eq, map,
  nat_eq, none, not, option_eq, some, true, ◌&&◌, ◌++◌, ◌==◌, ◌||◌, ◌∷◌,
}
use solace_broker_autoscale.Text.{Bytes, bytes, bytes_lt}

pub record TelemetrySource : Type 0 where
  pub broker : Bytes
  pub queue : Bytes

unfoldable pub source_key : TelemetrySource → Bytes
source_key s = s.broker ++ 0 ∷ s.queue

abbrev source : Bytes → Bytes → TelemetrySource
source broker queue = record { broker = broker; queue = queue }

-- `queuesByBroker[broker]`.
unfoldable pub queues_of : Bytes → List EpochResourceIdentity → List Bytes
queues_of broker [] = []
queues_of broker (r ∷ rest) =
    let others = queues_of broker rest in
    if r.broker_id == broker then r.queue_name ∷ others else others

abbrev broker_ids : List Broker → List Bytes
broker_ids = map (λ b. b.id)

-- Every resource names a source broker, and every source broker has a resource.
unfoldable pub has_exact_sources : TransitionSpec → Bool
has_exact_sources s =
    not (is_empty s.current_resources)
    && all (λ r. contains (broker_ids s.current) r.broker_id) s.current_resources
    && all (λ b. not (is_empty (queues_of b.id s.current_resources))) s.current

abbrev pair_all : Bytes → List Bytes → List TelemetrySource
pair_all broker queues = map (source broker) queues

unfoldable pub exact_sources : List EpochResourceIdentity → List Broker → List TelemetrySource
exact_sources resources [] = []
exact_sources resources (b ∷ rest) =
    pair_all b.id (queues_of b.id resources) ++ exact_sources resources rest

unfoldable pub distinct_queues : List Bytes → List EpochResourceIdentity → List Bytes
distinct_queues seen [] = []
distinct_queues seen (r ∷ rest) =
    let known = contains seen r.queue_name in
    let others = distinct_queues (if known then seen else r.queue_name ∷ seen) rest in
    if known then others else r.queue_name ∷ others

unfoldable pub crossed_sources : List Bytes → List Broker → List TelemetrySource
crossed_sources queues [] = []
crossed_sources queues (b ∷ rest) = pair_all b.id queues ++ crossed_sources queues rest

unfoldable pub every_queue : TransitionSpec → List Bytes
every_queue s =
    if is_empty s.current_resources
    then s.queue.name ∷ []
    else distinct_queues [] s.current_resources

abbrev source_before : TelemetrySource → TelemetrySource → Bool
source_before a b =
    if a.broker == b.broker then bytes_lt a.queue b.queue else bytes_lt a.broker b.broker

unfoldable pub insert_source : TelemetrySource → List TelemetrySource → List TelemetrySource
insert_source s [] = s ∷ []
insert_source s (t ∷ rest) = if source_before t s then t ∷ insert_source s rest else s ∷ t ∷ rest

unfoldable pub sort_sources : List TelemetrySource → List TelemetrySource
sort_sources [] = []
sort_sources (s ∷ rest) = insert_source s (sort_sources rest)

unfoldable pub required_telemetry_sources : TransitionSpec → List TelemetrySource
required_telemetry_sources s =
    if is_empty s.current_resources && not (has_typed_requirements s)
    then []
    else sort_sources (
        if has_exact_sources s
        then exact_sources s.current_resources s.current
        else crossed_sources (every_queue s) s.current)

-- `resourceIngressTopic`: the topic of a queue, or empty where two resources disagree.
unfoldable pub ingress_topic_from : Bytes → Bytes → List EpochResourceIdentity → Bytes
ingress_topic_from queue so_far [] = so_far
ingress_topic_from queue so_far (r ∷ rest) =
    let skip = not (r.queue_name == queue) in
    let clash = not (is_empty so_far) && not (so_far == r.ingress_topic) in
    let onward = ingress_topic_from queue (if skip then so_far else r.ingress_topic) rest in
    if not skip && clash then [] else onward

unfoldable pub resource_ingress_topic : TransitionSpec → Bytes → Bytes
resource_ingress_topic s queue = ingress_topic_from queue [] s.current_resources

unfoldable pub find_source : Bytes → Bytes → List TelemetrySource → Option TelemetrySource
find_source broker queue [] = none
find_source broker queue (s ∷ rest) =
    if s.broker == broker && s.queue == queue then some s else find_source broker queue rest

abbrev is_aggregate : Telemetry → Bool
is_aggregate t =
    is_empty t.message_id
    && is_empty t.namespace
    && t.role == observer
    && t.source_broker == bytes "aggregate"

abbrev names_queue : TransitionSpec → Telemetry → TelemetrySource → Bool
names_queue s t source =
    source.queue == t.source_queue || resource_ingress_topic s source.queue == t.source_queue

-- The sources that a sample speaks for, and whether it is the trusted aggregate.
unfoldable pub telemetry_sources_for_sample :
    TransitionSpec → Telemetry → List TelemetrySource × Bool
telemetry_sources_for_sample s t =
    let required = required_telemetry_sources s in
    if is_empty required
    then (source t.source_broker t.source_queue ∷ [], false)
    else elim (find_source t.source_broker t.source_queue required) [
      | some found ↦ (found ∷ [], false)
      | none ↦
          if is_aggregate t && all (names_queue s t) required then (required, true) else ([], false)
    ]
