-- ===== src/Policy/Assess.antt =====
-- policy/aggregate.go: what one telemetry cycle says of each broker and each group. The texts of a
-- `Reason` are data.
use solace_broker_autoscale.Policy.Types.{
  Floats, Resources, BrokerSample, GroupSample, CapacityLimits, ProfileCatalog, Broker, GroupState,
  all_known,
}
use solace_broker_autoscale.Policy.Checks.{lookup_profile}
use solace_broker_autoscale.Prelude.{
  Bool, List, Map, Option, [], bool_eq, contains, difference, entry, err, false, if◌then◌else◌,
  is_empty, leb_ℤ, list_eq, lookup, ltb, ltb_ℤ, nat_eq, none, not, ok, option_eq, pair_eq, pos,
  some, true, zero, ℕ, ℤ, ◌&&◌, ◌++◌, ◌==◌, ◌||◌, ◌∷◌,
}
use solace_broker_autoscale.Text.{Bytes}

-- `state_unset` and `pressure_unset` are the empty text, which a zero value has.
pub data TelemetryState : Type 0 where
  state_known state_unknown state_stale state_unset : TelemetryState

pub record Utilization (V : Type 0) : Type 0 where
  pub ingress : V
  pub egress : V
  pub spool : V
  pub connections : V

pub data BrokerIssue : Type 0 where
  sample_missing sample_late resources_unknown : BrokerIssue
  group_sample_missing group_sample_late group_resources_unknown : Bytes → BrokerIssue

pub record BrokerAssessment (V : Type 0) : Type 0 where
  pub broker_id : Bytes
  pub state : TelemetryState
  pub reason : List BrokerIssue
  pub observed_at : ℕ
  pub broker_utilization : Utilization V
  pub grouped_utilization : Utilization V
  pub shared_utilization : Utilization V
  pub contributing_groups : List Bytes

pub data PressureKind : Type 0 where
  pressure_unknown pressure_none broker_saturation downstream_backlog : PressureKind
  pressure_unset : PressureKind

pub data GroupIssue : Type 0 where
  no_members : GroupIssue
  of_broker : Bytes → List BrokerIssue → GroupIssue
  row_missing row_late row_unknown backlog_unknown : Bytes → GroupIssue

pub record GroupAssessment (V : Type 0) : Type 0 where
  pub group_id : Bytes
  pub state : TelemetryState
  pub reason : List GroupIssue
  pub pressure : PressureKind
  pub workload_utilization : Utilization V
  pub shared_utilization : Utilization V
  pub queued : V
  pub unacked : V
  pub ready_warm_brokers : ℕ
  pub warm_broker_shortfall : ℤ
  pub sustained_since : ℕ

-- `aggregationContext`.
pub record Context (V : Type 0) : Type 0 where
  pub now : ℕ
  pub catalog : ProfileCatalog V
  pub brokers : Map Bytes Broker
  pub groups : List (GroupState V)
  pub broker_samples : Map Bytes (BrokerSample V)
  pub group_samples : Map (Bytes × Bytes) (GroupSample V)
  pub memberships : Map Bytes (List Bytes)

-- What the loop of `assessBroker` has gathered.
pub record BrokerScan (V : Type 0) : Type 0 where
  pub oldest : ℕ
  pub grouped : Utilization V
  pub stale : List BrokerIssue
  pub unknown : List BrokerIssue

-- What the loop of `assessGroup` has gathered.
pub record GroupScan (V : Type 0) : Type 0 where
  pub shared : Utilization V
  pub demand : Utilization V
  pub capacity : Utilization V
  pub queued : V
  pub unacked : V
  pub stale : List GroupIssue
  pub unknown : List GroupIssue

abbrev pub when : {A : Type 0} → Bool → A → List A
when true a = a ∷ []
when false a = []

-- `slices.Contains(group.Membership, id) && (age == 0 || group.Policy.TelemetryMaxAge < age)`.
unfoldable pub shortest_age : {V : Type 0} → Bytes → ℤ → List (GroupState V) → ℤ
shortest_age id age [] = age
shortest_age id age (g ∷ gs) =
    let limit = g.policy.telemetry_max_age in
    shortest_age id
      (if contains g.membership id && (leb_ℤ age (pos 0) && leb_ℤ (pos 0) age || ltb_ℤ limit age)
        then limit
        else age)
      gs

abbrev unlimited : ℤ → ℤ
unlimited (pos zero) = pos 9223372036854775807
unlimited age = age

unfoldable pub max_telemetry_age_for_broker : {V : Type 0} → Bytes → List (GroupState V) → ℤ
max_telemetry_age_for_broker id groups = unlimited (shortest_age id (pos 0) groups)

-- The code panics where there is no such group.
unfoldable pub find_group : {V : Type 0} → List (GroupState V) → Bytes → Option (GroupState V)
find_group [] id = none
find_group (g ∷ gs) id = if g.id == id then some g else find_group gs id

abbrev pub older_than : ℕ → ℤ → ℕ → Bool
older_than now age observed = ltb_ℤ age (difference now observed)

module _ {V : Type 0} (N : Floats V) where
  abbrev pub no_load : Utilization V
  no_load = record { ingress = N.zero; egress = N.zero; spool = N.zero; connections = N.zero }

  abbrev pub known_resources : Resources V → Utilization V
  known_resources r = record {
    ingress = r.ingress.value;
    egress = r.egress.value;
    spool = r.spool.value;
    connections = r.connections.value;
  }

  abbrev pub limits_value : CapacityLimits V → Utilization V
  limits_value l = record {
    ingress = l.ingress;
    egress = l.egress;
    spool = l.spool;
    connections = l.connections;
  }

  abbrev combine : (V → V → V) → Utilization V → Utilization V → Utilization V
  combine f a b = record {
    ingress = f a.ingress b.ingress;
    egress = f a.egress b.egress;
    spool = f a.spool b.spool;
    connections = f a.connections b.connections;
  }

  unfoldable pub add_resources : Utilization V → Utilization V → Utilization V
  add_resources = combine N.add

  unfoldable pub utilization : Utilization V → Utilization V → Utilization V
  utilization = combine N.div

  unfoldable pub max_utilization : Utilization V → Utilization V → Utilization V
  max_utilization = combine N.max

  abbrev divide : V → V → V
  divide v limit = if N.equal limit N.zero then N.infinity else N.div v limit

  unfoldable pub utilization_across : Utilization V → Utilization V → Utilization V
  utilization_across = combine divide

  unfoldable pub peak : Utilization V → V
  peak u = N.max (N.max (N.max u.ingress u.egress) u.spool) u.connections

  -- The limits of a profile that is not found are zero.
  unfoldable pub limits_of : Context V → Bytes → Utilization V
  limits_of c id = elim (lookup id c.brokers) [
    | none ↦ no_load
    | some b ↦ elim (lookup_profile c.catalog b.service_class b.broker_version) [
      | err e ↦ no_load
      | ok p ↦ limits_value p.limits
    ]
  ]

  -- One round of the loop over the groups of a broker.
  unfoldable pub scan_group_row : Context V → Bytes → GroupState V → BrokerScan V → BrokerScan V
  scan_group_row c id g a = elim (lookup (g.id, id) c.group_samples) [
    | none ↦ record a { unknown = a.unknown ++ group_sample_missing g.id ∷ [] }
    | some row ↦
        let late = older_than c.now g.policy.telemetry_max_age row.observed_at in
        record a {
          oldest = if ltb row.observed_at a.oldest then row.observed_at else a.oldest;
          stale = a.stale ++ when late (group_sample_late g.id);
          unknown =
              a.unknown ++ when (not (all_known row.resources)) (group_resources_unknown g.id);
          grouped =
              if all_known row.resources
              then add_resources a.grouped (known_resources row.resources)
              else a.grouped;
        }
  ]

  -- `none` is the panic of `findGroup`.
  unfoldable pub scan_groups : Context V → Bytes → List Bytes → BrokerScan V → Option (BrokerScan V)
  scan_groups c id [] a = some a
  scan_groups c id (group ∷ rest) a = elim (find_group c.groups group) [
    | none ↦ none
    | some g ↦ scan_groups c id rest (scan_group_row c id g a)
  ]

  abbrev pub blank_assessment : Context V → Bytes → BrokerAssessment V
  blank_assessment c id = record {
    broker_id = id;
    state = state_known;
    reason = [];
    observed_at = 0;
    broker_utilization = no_load;
    grouped_utilization = no_load;
    shared_utilization = no_load;
    contributing_groups = entry id c.memberships;
  }

  unfoldable pub conclude_broker :
      Context V → Bytes → BrokerSample V → BrokerScan V → BrokerAssessment V
  conclude_broker c id sample a =
      let seen = record (blank_assessment c id) { observed_at = a.oldest } in
      let own = utilization (known_resources sample.resources) (limits_of c id) in
      let grouped = utilization a.grouped (limits_of c id) in
      if not (is_empty a.stale)
      then record seen { state = state_stale; reason = a.stale }
      else if not (is_empty a.unknown)
      then record seen { state = state_unknown; reason = a.unknown }
      else record seen {
        broker_utilization = own;
        grouped_utilization = grouped;
        shared_utilization = max_utilization own grouped;
      }

  unfoldable pub assess_sampled_broker :
      Context V → Bytes → BrokerSample V → Option (BrokerAssessment V)
  assess_sampled_broker c id sample =
      let late = older_than c.now (max_telemetry_age_for_broker id c.groups) sample.observed_at in
      let start : BrokerScan V = record {
        oldest = sample.observed_at;
        grouped = no_load;
        stale = when late sample_late;
        unknown = when (not (all_known sample.resources)) resources_unknown;
      } in
      elim (scan_groups c id (entry id c.memberships) start) [
        | none ↦ none
        | some a ↦ some (conclude_broker c id sample a)
      ]

  unfoldable pub assess_broker : Context V → Bytes → Option (BrokerAssessment V)
  assess_broker c id = elim (lookup id c.broker_samples) [
    | none ↦
        some
          (record (blank_assessment c id) { state = state_unknown; reason = sample_missing ∷ [] })
    | some sample ↦ assess_sampled_broker c id sample
  ]
