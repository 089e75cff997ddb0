-- ===== src/Policy/Telemetry.antt =====
-- What policy/aggregate.go has seen when it reports the telemetry of a group as known.
use solace_broker_autoscale.Prelude.{Bool}
use solace_broker_autoscale.Policy.Aggregate.{broker_assessment, scan_member_row}
use solace_broker_autoscale.Policy.Assess.{
  BrokerAssessment, Context, GroupIssue, GroupScan, backlog_unknown, older_than, row_late,
  row_missing, state_stale, state_unknown, when,
}
use solace_broker_autoscale.Policy.Types.{Floats, GroupSample, GroupState, all_known, backlog_known}
use solace_broker_autoscale.Prelude.{
  List, Option, [], arith, bool_eq, false, is_empty, list_eq, lookup, nat_eq, none, not, option_eq,
  pair_eq, refl, some, true, ◌++◌, ◌∷◌, ◌≡◌, ◌≢◌,
}
use solace_broker_autoscale.Text.{Bytes}
use solace_broker_autoscale.Policy.Aggregate.{
  assess_group, conclude_group, first_scan, scan_member, scan_members,
}
use solace_broker_autoscale.Policy.Assess.{
  GroupAssessment, TelemetryState, no_members, row_unknown, state_known, state_unset,
}
use solace_broker_autoscale.Prelude.{All, if-both}
use solace_broker_autoscale.Policy.Aggregate.{stale_issue, unknown_issue}
use solace_broker_autoscale.Policy.Assess.{of_broker}

module _ {V : Type 0} (N : Floats V) (c : Context V) (assessed : List (BrokerAssessment V))
    (g : GroupState V) where
  -- One broker of the group: its row is present, of the right age and complete.
  pub record Reading (id : Bytes) : Type 0 where
    pub row : GroupSample V
    pub found : lookup (g.id, id) c.group_samples ≡ some row
    pub fresh : older_than c.now g.policy.telemetry_max_age row.observed_at ≡ false
    pub resources : all_known row.resources ≡ true
    pub backlog : backlog_known row.backlog ≡ true
    pub not_stale : (broker_assessment N assessed id).state ≢ state_stale
    pub not_unknown : (broker_assessment N assessed id).state ≢ state_unknown

  Quiet : GroupScan V → Type 0
  Quiet a = (is_empty a.stale ≡ true) × (is_empty a.unknown ≡ true)

  is_empty-append :
      (xs ys : List GroupIssue)
      → is_empty (xs ++ ys) ≡ true
      → (is_empty xs ≡ true) × (is_empty ys ≡ true)
  is_empty-append [] ys h = (refl, h)
  is_empty-append (x ∷ xs) ys h = cc

  when-is_empty : (b : Bool) (x : GroupIssue) → is_empty (when b x) ≡ true → b ≡ false
  when-is_empty true x h = cc
  when-is_empty false x h = refl

  Row : Bytes → Type 0
  Row id =
      (row : GroupSample V) × (lookup (g.id, id) c.group_samples ≡ some row)
      × (older_than c.now g.policy.telemetry_max_age row.observed_at ≡ false)
      × (all_known row.resources ≡ true)
      × (backlog_known row.backlog ≡ true)

  scan_member_row-Quiet :
      (id : Bytes) (o : Option (GroupSample V)) (a : GroupScan V)
      → lookup (g.id, id) c.group_samples ≡ o
      → Quiet (scan_member_row N c g id o a)
      → Row id × Quiet a
  unfolding scan_member_row Quiet Row
  scan_member_row-Quiet id none a e (s, u) =
      ground (arith, is_empty-append a.unknown (row_missing id ∷ []) u)
  scan_member_row-Quiet id (some row) a e (s, u) =
      let late = older_than c.now g.policy.telemetry_max_age row.observed_at in
      let (stale, age) = is_empty-append a.stale (when late (row_late id)) s in
      let lacks = when (not (all_known row.resources)) (row_unknown id) in
      let gaps = when (not (backlog_known row.backlog)) (backlog_unknown id) in
      let (rest, backlog) = is_empty-append (a.unknown ++ lacks) gaps u in
      let (unknown, resources) = is_empty-append a.unknown lacks rest in
      (
        (
          row,
          e,
          when-is_empty late (row_late id) age,
          ground (arith, when-is_empty (not (all_known row.resources)) (row_unknown id) resources),
          ground
              (arith, when-is_empty (not (backlog_known row.backlog)) (backlog_unknown id) backlog),
        ),
        (stale, unknown),
      )

  no_issue :
      (k : TelemetryState) (x : GroupIssue)
      → is_empty (stale_issue k x) ≡ true
      → is_empty (unknown_issue k x) ≡ true
      → (k ≢ state_stale) × (k ≢ state_unknown)
  no_issue state_known x s u = ((λ p. cc), (λ p. cc))
  no_issue state_unset x s u = ((λ p. cc), (λ p. cc))
  no_issue state_stale x s u = cc
  no_issue state_unknown x s u = cc

  scan_member-Quiet :
      (id : Bytes) (a : GroupScan V)
      → Quiet (scan_member N c assessed g id a)
      → Reading id × Quiet a
  unfolding scan_member Quiet Row
  scan_member-Quiet id a h =
      let b = broker_assessment N assessed id in
      let ((row, found, fresh, resources, backlog), (s, u)) =
        scan_member_row-Quiet id (lookup (g.id, id) c.group_samples) _ refl h in
      let (stale, of_stale) =
        is_empty-append a.stale (stale_issue b.state (of_broker id b.reason)) s in
      let (unknown, of_unknown) =
        is_empty-append a.unknown (unknown_issue b.state (of_broker id b.reason)) u in
      let (not_stale, not_unknown) = no_issue b.state (of_broker id b.reason) of_stale of_unknown in
      (
        record {
          row = row;
          found = found;
          fresh = fresh;
          resources = resources;
          backlog = backlog;
          not_stale = not_stale;
          not_unknown = not_unknown;
        },
        (stale, unknown),
      )

  scan_members-Quiet :
      (ids : List Bytes) (a : GroupScan V)
      → Quiet (scan_members N c assessed g ids a)
      → All Reading ids × Quiet a
  unfolding scan_members
  scan_members-Quiet [] a h = (tt, h)
  scan_members-Quiet (id ∷ rest) a h =
      let (more, quiet) = scan_members-Quiet rest (scan_member N c assessed g id a) h in
      let (reading, before) = scan_member-Quiet id a quiet in ((reading, more), before)

  conclude_group-Quiet : (a : GroupScan V) → (conclude_group N c g a).state ≡ state_known → Quiet a
  unfolding conclude_group Quiet
  conclude_group-Quiet a =
      if-both (λ (r : GroupAssessment V). r.state ≡ state_known → Quiet a) (not (is_empty a.stale))
        (λ stale h. cc)
        (λ fresh.
          if-both (λ (r : GroupAssessment V). r.state ≡ state_known → Quiet a)
            (not (is_empty a.unknown)) (λ unknown h. cc) (λ known h. (ground arith, ground arith)))

  -- A group whose telemetry is reported as known has brokers, and of each the row is present, not too
  -- old, with all resources and both backlog counts known, and the broker is neither stale nor unknown.
  pub assess_group-Reading :
      (assess_group N c assessed g).state ≡ state_known
      → (is_empty g.membership ≡ false) × All Reading g.membership
  unfolding assess_group Quiet
  assess_group-Reading h =
      let start = first_scan N g in
      let (readings, (s, u)) =
        scan_members-Quiet g.membership start
          (conclude_group-Quiet (scan_members N c assessed g g.membership start) h) in
      (when-is_empty (is_empty g.membership) no_members u, readings)
