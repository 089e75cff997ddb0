-- ===== src/Policy/Checks.antt =====
-- policy/types.go: the checks of samples, profiles, policies, groups and the inventory.
use solace_broker_autoscale.Policy.Types.{
  Floats, Error, Metric, Resources, Backlog, BrokerSample, GroupSample, TelemetrySnapshot,
  CapacityLimits, CapacityProfile, ProfileCatalog, Broker, GroupPolicy, ScaleInChoice, GroupState,
  floor, count, unknown_with_value, bad_metric, no_capture_time, incomplete_sample, bad_observation,
  duplicate_sample, incomplete_profile, bad_limits, duplicate_profile, profile_not_found,
  incomplete_broker, duplicate_broker, duplicate_eligible_group, bad_counts, bad_headroom,
  bad_durations, no_group_id, negative_active, future_transition, membership_too_large,
  unknown_broker, repeated_broker, bad_choice, choice_without_evidence,
}
use solace_broker_autoscale.Prelude.{
  Bool, List, Map, Option, Result, [], bool_eq, contains, err, fails, false, if◌then◌else◌, insert,
  is_empty, leb_ℤ, list_eq, lookup, ltb, ltb_ℤ, nat_eq, none, not, ok, option_eq, pair_eq, pos,
  some, sort_by, true, ℕ, ◌&&◌, ◌==◌, ◌||◌, ◌∷◌, ◌▸◌,
}
use solace_broker_autoscale.Text.{Bytes, bytes_lt}

abbrev pub has_name : {W : Type 0} → Map Bytes W → Bytes → Bool
has_name m k = elim (lookup k m) [ none ↦ false | some w ↦ true ]

module _ {V : Type 0} (N : Floats V) where
  abbrev pub not_finite : V → Bool
  not_finite v = N.is_nan v || N.is_inf v

  unfoldable pub validate_metric : Metric V → Option Error
  validate_metric m =
      if not m.known
      then fails (not (N.equal m.value N.zero)) unknown_with_value
      else fails (not_finite m.value || N.less m.value N.zero) bad_metric

  unfoldable pub validate_resources : Resources V → Option Error
  validate_resources r =
      validate_metric r.ingress
      ▸ validate_metric r.egress
      ▸ validate_metric r.spool
      ▸ validate_metric r.connections

  unfoldable pub validate_backlog : Backlog V → Option Error
  validate_backlog b = validate_metric b.queued ▸ validate_metric b.unacked

  -- The loop over the broker samples, with `seenBrokers`.
  unfoldable pub check_broker_samples : ℕ → List Bytes → List (BrokerSample V) → Option Error
  check_broker_samples captured seen [] = none
  check_broker_samples captured seen (s ∷ rest) =
      fails (is_empty s.broker_id || is_empty s.service_class || is_empty s.broker_version)
        incomplete_sample
      ▸ fails (s.observed_at == 0 || ltb captured s.observed_at) bad_observation
      ▸ fails (contains seen s.broker_id) duplicate_sample
      ▸ validate_resources s.resources
      ▸ check_broker_samples captured (s.broker_id ∷ seen) rest

  unfoldable pub check_group_samples :
      ℕ → List (Bytes × Bytes) → List (GroupSample V) → Option Error
  check_group_samples captured seen [] = none
  check_group_samples captured seen (s ∷ rest) =
      fails (is_empty s.group_id || is_empty s.broker_id) incomplete_sample
      ▸ fails (s.observed_at == 0 || ltb captured s.observed_at) bad_observation
      ▸ fails (contains seen (s.group_id, s.broker_id)) duplicate_sample
      ▸ validate_resources s.resources
      ▸ validate_backlog s.backlog
      ▸ check_group_samples captured ((s.group_id, s.broker_id) ∷ seen) rest

  -- `TelemetrySnapshot.Validate`.
  unfoldable pub validate_snapshot : TelemetrySnapshot V → Option Error
  validate_snapshot s =
      fails (s.captured_at == 0) no_capture_time
      ▸ check_broker_samples s.captured_at [] s.brokers
      ▸ check_group_samples s.captured_at [] s.groups

  abbrev bad_limit : V → Bool
  bad_limit v = not_finite v || not (N.less N.zero v)

  unfoldable pub validate_limits : CapacityLimits V → Option Error
  validate_limits l =
      fails
        (bad_limit l.ingress || bad_limit l.egress || bad_limit l.spool || bad_limit l.connections)
        bad_limits

  -- The loop of `NewProfileCatalog`.
  unfoldable pub add_profiles :
      ProfileCatalog V → List (CapacityProfile V) → Result Error (ProfileCatalog V)
  add_profiles catalog [] = ok catalog
  add_profiles catalog (p ∷ rest) =
      let key : Bytes × Bytes = (p.service_class, p.broker_version) in
      let more = add_profiles (insert key p catalog) rest in
      if is_empty p.service_class || is_empty p.broker_version
      then err incomplete_profile
      else elim (validate_limits p.limits) [
        | some e ↦ err e
        | none ↦ elim (lookup key catalog) [ some old ↦ err duplicate_profile | none ↦ more ]
      ]

  unfoldable pub new_profile_catalog : List (CapacityProfile V) → Result Error (ProfileCatalog V)
  new_profile_catalog profiles = add_profiles [] profiles

  -- `GroupPolicy.validate`.
  unfoldable pub validate_policy : GroupPolicy V → Option Error
  validate_policy p =
      fails
        (ltb_ℤ p.minimum_brokers (pos 1)
          || ltb_ℤ p.maximum_brokers p.minimum_brokers
          || ltb_ℤ p.warm_brokers (pos 0)
          || ltb_ℤ p.maximum_brokers (floor p))
        bad_counts
      ▸ fails
          (not_finite p.headroom_percent
            || N.less p.headroom_percent N.zero
            || not (N.less p.headroom_percent N.hundred))
          bad_headroom
      ▸ fails
          (leb_ℤ p.pressure_window (pos 0)
            || leb_ℤ p.telemetry_max_age (pos 0)
            || ltb_ℤ p.cooldown (pos 0)
            || ltb_ℤ p.max_concurrent_changes (pos 1))
          bad_durations

  unfoldable pub saturation_threshold : GroupPolicy V → V
  saturation_threshold p = N.sub N.one (N.div p.headroom_percent N.hundred)

module _ {V : Type 0} where
  unfoldable pub lookup_profile :
      ProfileCatalog V → Bytes → Bytes → Result Error (CapacityProfile V)
  lookup_profile catalog service_class version = elim (lookup (service_class, version) catalog) [
    | none ↦ err profile_not_found
    | some p ↦ ok p
  ]

unfoldable pub check_members : Map Bytes Broker → List Bytes → List Bytes → Option Error
check_members brokers seen [] = none
check_members brokers seen (id ∷ rest) =
    fails (not (has_name brokers id)) unknown_broker
    ▸ fails (contains seen id) repeated_broker
    ▸ check_members brokers (id ∷ seen) rest

abbrev check_choice : List Bytes → Option ScaleInChoice → Option Error
check_choice membership none = none
check_choice membership (some c) =
    fails (is_empty c.broker_id || not (contains membership c.broker_id)) bad_choice
    ▸ fails (c.safe && is_empty c.evidence) choice_without_evidence

module _ {V : Type 0} (N : Floats V) where
  -- `GroupState.validate`.
  unfoldable pub validate_group : ℕ → Map Bytes Broker → GroupState V → Option Error
  validate_group now brokers g =
      fails (is_empty g.id) no_group_id
      ▸ validate_policy N g.policy
      ▸ fails (ltb_ℤ g.active_transitions (pos 0)) negative_active
      ▸ fails (not (g.last_transition_at == 0) && ltb now g.last_transition_at) future_transition
      ▸ fails (ltb_ℤ g.policy.maximum_brokers (count g.membership)) membership_too_large
      ▸ check_members brokers [] g.membership
      ▸ check_choice g.membership g.scale_in_choice

-- The empty text stands for no duplicate.
unfoldable pub adjacent_duplicate : List Bytes → Bytes
adjacent_duplicate [] = []
adjacent_duplicate (a ∷ []) = []
adjacent_duplicate (a ∷ b ∷ rest) = if b == a then b else adjacent_duplicate (b ∷ rest)

module _ {V : Type 0} (catalog : ProfileCatalog V) where
  -- The loop of `validateInventory`.
  unfoldable pub add_brokers : Map Bytes Broker → List Broker → Result Error (Map Bytes Broker)
  add_brokers brokers [] = ok brokers
  add_brokers brokers (b ∷ rest) =
      let groups = sort_by bytes_lt b.eligible_groups in
      let more = add_brokers (insert b.id (record b { eligible_groups = groups }) brokers) rest in
      if is_empty b.id || is_empty b.service_class || is_empty b.broker_version
      then err incomplete_broker
      else if has_name brokers b.id
      then err duplicate_broker
      else elim (lookup_profile catalog b.service_class b.broker_version) [
        | err e ↦ err e
        | ok profile ↦
            if is_empty (adjacent_duplicate groups) then more else err duplicate_eligible_group
      ]

  unfoldable pub validate_inventory : List Broker → Result Error (Map Bytes Broker)
  validate_inventory inventory = add_brokers [] inventory
