-- ===== src/Control/Advance.antt =====
-- `compareSnapshots` and `validateAdvance` (control/reconciler.go) allow the moves of the protocol, and
-- no others.
use solace_broker_autoscale.Control.Succession.{
  GivesWay, IsOpen, KeepsCurrent, Promotes, RoutesAlike, Succeeds, activate, commit, proceed,
  roll_back, serve_on, start,
}
use solace_broker_autoscale.Control.Compare.{
  adopts_proposal, advance, advance_to_active, advance_to_committed, advance_transition,
  compare_snapshots, same_current, same_transition, targets_epoch, validate_advance,
  validate_routing_compatibility,
}
use solace_broker_autoscale.Control.Order.{compare-advance_guards}
use solace_broker_autoscale.Control.Snapshot.{
  MembershipSnapshot, Transition, active, committed, descriptor_eq, destination_eq, drain, kind_eq,
  phase_eq, prepare, queue_eq, resource_eq, transition_eq,
}
use mathlib.Core.Option.{some-injective}
use solace_broker_autoscale.Prelude.{
  ==_iff, ==_refl, Bool-cases, Option, Option-cases, arith, bool_eq, false, inl, inr, list_eq,
  nat_eq, none, ok, option_eq, refl, some, sym, ap, ◌∙◌, Eq, true, ℕ, ◌==◌, ◌≡◌, ◌≢◌, ◌↔◌,
}
use solace_broker_autoscale.Controller.Phases.{role_eq, transition_phase_eq}
use solace_broker_autoscale.Controller.Spec.{broker_eq, requirement_eq}
use solace_broker_autoscale.Prelude.{ap, pair_eq, sym, ◌∙◌}
use solace_broker_autoscale.Controller.Phases.{activate, commit}

module _ (l r : MembershipSnapshot) where
  routing-RoutesAlike : validate_routing_compatibility l r ≡ none → RoutesAlike l r
  unfolding validate_routing_compatibility
  routing-RoutesAlike h = record {
    namespace_kept = ground (arith, ==_iff l.namespace r.namespace);
    library_kept = ground (arith, ==_iff l.library_version r.library_version);
    hash_kept = ground (arith, ==_iff l.hash_contract r.hash_contract);
    algorithm_kept = ground (arith, ==_iff l.algorithm r.algorithm);
    queue_kept = ground (arith, ==_iff l.queue r.queue);
    destination_kept = ground (arith, ==_iff l.destination r.destination);
  }

  RoutesAlike-routing : RoutesAlike l r → validate_routing_compatibility l r ≡ none
  unfolding validate_routing_compatibility
  RoutesAlike-routing h =
      let n = (==_iff l.namespace r.namespace).1 h.namespace_kept in
      let v = (==_iff l.library_version r.library_version).1 h.library_kept in
      let c = (==_iff l.hash_contract r.hash_contract).1 h.hash_kept in
      let a = (==_iff l.algorithm r.algorithm).1 h.algorithm_kept in
      let q = (==_iff l.queue r.queue).1 h.queue_kept in
      let d = (==_iff l.destination r.destination).1 h.destination_kept in ground arith

  same_current_iff : (same_current l r ≡ true) ↔ KeepsCurrent l r
  unfolding same_current
  same_current_iff =
      let m = ==_iff r.current_membership l.current_membership in
      let s = ==_iff r.current_resources l.current_resources in
      (
        λ h. (m.0 (ground arith), s.0 (ground arith)),
        λ (a, b). let p = m.1 a in let q = s.1 b in ground arith,
      )

  adopts_proposal_iff : (adopts_proposal l r ≡ true) ↔ Promotes l r
  unfolding adopts_proposal
  adopts_proposal_iff =
      let m = ==_iff r.current_membership l.proposed_membership in
      let s = ==_iff r.current_resources l.proposed_resources in
      (
        λ h. (m.0 (ground arith), s.0 (ground arith)),
        λ (a, b). let p = m.1 a in let q = s.1 b in ground arith,
      )

targets_epoch_iff :
    (o : Option Transition) (n : ℕ)
    → (targets_epoch o n ≡ true) ↔ ((t : Transition) × (o ≡ some t) × (n ≡ t.to_epoch))
targets_epoch_iff o n = (
  λ h. elim (Option-cases o) [
    | inl e ↦ ground (arith, e)
    | inr (t, e) ↦ (t, e, (==_iff n t.to_epoch).0 (ground (arith, e)))
  ],
  λ (t, e, f). rw (e, f) (==_refl t.to_epoch),
)

same_transition_iff :
    (o p : Option Transition)
    → (same_transition o p ≡ true) ↔ ((t : Transition) × (o ≡ some t) × (p ≡ some t))
same_transition_iff (some a) (some b) =
    (λ h. (a, refl, ap some (sym ((==_iff a b).0 h))), λ (t, e, f). (==_iff a b).1 cc)
same_transition_iff (some a) none = (λ h. ground arith, λ (t, e, f). ground (arith, f))
same_transition_iff none p = (λ h. ground arith, λ (t, e, f). ground (arith, e))

==-neq_iff {ℓ} : {A : Type ℓ} ⦃test : Eq A⦄ (a b : A) → ((a == b) ≡ false) ↔ (a ≢ b)
==-neq_iff a b = (
  λ h e. let q = (==_iff a b).1 e in ground arith,
  λ h. elim (Bool-cases (a == b)) [ inl e ↦ absurd (h ((==_iff a b).0 e)) | inr e ↦ e ],
)

module _ (l r : MembershipSnapshot) where
  active-Succeeds : r.phase ≡ active → advance_to_active l r ≡ none → Succeeds l r
  unfolding advance_to_active
  active-Succeeds a h =
      let same = ==_iff r.epoch l.epoch in
      elim (Bool-cases (l.phase == active)) [
        | inl p ↦
            serve_on ((==_iff l.phase active).0 p) a
              (λ e. let at = same.1 e in (same_current_iff l r).0 (ground arith))
        | inr p ↦ elim (Option-cases l.transition) [
          | inl e ↦ ground (arith, e)
          | inr (t, e) ↦ elim (Bool-cases (r.epoch == l.epoch)) [
            | inl q ↦
                roll_back t ((==-neq_iff l.phase active).0 p) a e (same.0 q)
                  ((same_current_iff l r).0 (ground (arith, e)))
            | inr q ↦
                let (u, g, k) = (targets_epoch_iff l.transition r.epoch).0 (ground (arith, e)) in
                activate u ((==-neq_iff l.phase active).0 p) a g ((==-neq_iff r.epoch l.epoch).0 q)
                  k ((adopts_proposal_iff l r).0 (ground (arith, e)))
          ]
        ]
      ]

  committed-Succeeds : r.phase ≡ committed → advance_to_committed l r ≡ none → Succeeds l r
  unfolding advance_to_committed
  committed-Succeeds c h =
      let (t, e, f) = (same_transition_iff l.transition r.transition).0 (ground arith) in
      let (u, g, k) = (targets_epoch_iff l.transition r.epoch).0 (ground arith) in
      let drained = (==_iff l.phase drain).0 (ground arith) in
      commit t drained c e f
        (k ∙ ap (λ (x : Transition). x.to_epoch) (some-injective u t (sym g ∙ e)))
        ((adopts_proposal_iff l r).0 (ground arith))

  open-Succeeds : IsOpen r.phase → advance_transition l r ≡ none → Succeeds l r
  unfolding advance_transition
  open-Succeeds o h =
      let nc = ==-neq_iff l.phase committed in
      elim (Bool-cases (l.phase == active)) [
        | inl p ↦
            start ((==_iff l.phase active).0 p) ((==_iff r.phase prepare).0 (ground arith))
              ((==_iff r.epoch l.epoch).0 (ground arith)) ((same_current_iff l r).0 (ground arith))
        | inr p ↦
            let (t, e, f) = (same_transition_iff l.transition r.transition).0 (ground arith) in
            let m = (==_iff r.proposed_membership l.proposed_membership).0 (ground arith) in
            let s = (==_iff r.proposed_resources l.proposed_resources).0 (ground arith) in
            proceed t ((==-neq_iff l.phase active).0 p, nc.0 (ground arith)) o (ground arith) e f
              ((==_iff r.epoch l.epoch).0 (ground arith)) ((same_current_iff l r).0 (ground arith))
              (m, s)
      ]

  validate-Succeeds : validate_advance l r ≡ none → RoutesAlike l r × Succeeds l r
  unfolding validate_advance
  validate-Succeeds h = (
    routing-RoutesAlike l r (ground arith),
    elim (Bool-cases (r.phase == active)) [
      | inl a ↦ active-Succeeds ((==_iff r.phase active).0 a) (ground arith)
      | inr a ↦ elim (Bool-cases (r.phase == committed)) [
        | inl c ↦ committed-Succeeds ((==_iff r.phase committed).0 c) (ground arith)
        | inr c ↦
            open-Succeeds ((==-neq_iff r.phase active).0 a, (==-neq_iff r.phase committed).0 c)
              (ground arith)
      ]
    ],
  )

  Succeeds-validate : RoutesAlike l r → Succeeds l r → validate_advance l r ≡ none
  unfolding validate_advance advance_to_active advance_to_committed advance_transition
  Succeeds-validate alike (serve_on p q keeps) =
      let routes = RoutesAlike-routing l r alike in
      elim (Bool-cases (r.epoch == l.epoch)) [
        | inl e ↦
            let k = (same_current_iff l r).1 (keeps ((==_iff r.epoch l.epoch).0 e)) in
            rw (p, q) (ground arith)
        | inr e ↦ rw (p, q) (ground arith)
      ]
  Succeeds-validate alike (start p q e keeps) =
      let routes = RoutesAlike-routing l r alike in
      let same = (==_iff r.epoch l.epoch).1 e in
      let k = (same_current_iff l r).1 keeps in rw (p, q) (ground arith)
  Succeeds-validate alike (proceed t (na, nc) (ra, rc) rank e f same keeps (m, s)) =
      let routes = RoutesAlike-routing l r alike in
      let la = (==-neq_iff l.phase active).1 na in
      let lc = (==-neq_iff l.phase committed).1 nc in
      let ra' = (==-neq_iff r.phase active).1 ra in
      let rc' = (==-neq_iff r.phase committed).1 rc in
      let tr = (same_transition_iff l.transition r.transition).1 (t, e, f) in
      let se = (==_iff r.epoch l.epoch).1 same in
      let k = (same_current_iff l r).1 keeps in
      let pm = (==_iff r.proposed_membership l.proposed_membership).1 m in
      let ps = (==_iff r.proposed_resources l.proposed_resources).1 s in ground arith
  Succeeds-validate alike (commit t p q e f k promotes) =
      let routes = RoutesAlike-routing l r alike in
      let tr = (same_transition_iff l.transition r.transition).1 (t, e, f) in
      let te = (targets_epoch_iff l.transition r.epoch).1 (t, e, k) in
      let pr = (adopts_proposal_iff l r).1 promotes in rw (p, q) (ground arith)
  Succeeds-validate alike (activate t p q e n k promotes) =
      let routes = RoutesAlike-routing l r alike in
      let np = (==-neq_iff l.phase active).1 p in
      let ne = (==-neq_iff r.epoch l.epoch).1 n in
      let te = (targets_epoch_iff l.transition r.epoch).1 (t, e, k) in
      let pr = (adopts_proposal_iff l r).1 promotes in rw q (ground (arith, e))
  Succeeds-validate alike (roll_back t p q e k keeps) =
      let routes = RoutesAlike-routing l r alike in
      let np = (==-neq_iff l.phase active).1 p in
      let ke = (==_iff r.epoch l.epoch).1 k in
      let kc = (same_current_iff l r).1 keeps in rw q (ground (arith, e))

-- `compareSnapshots` reports an advance exactly when the version, the group and the routing fields
-- are kept, the revision grows, the epoch does not fall, and the update is one of six moves: ACTIVE
-- serves on, a transition starts, proceeds, is committed from DRAIN or is activated at its epoch with
-- the proposed membership and resources, or it is rolled back to the current ones.
pub compare-GivesWay_iff :
    (l r : MembershipSnapshot) → (compare_snapshots l r ≡ ok advance) ↔ GivesWay l r
compare-GivesWay_iff l r = (
  λ h.
      let a = (compare-advance_guards l r).0 h in
      let (alike, move) = validate-Succeeds l r a.allowed in
      record {
        version_same = a.version_kept;
        group_same = a.group_kept;
        revision_grows = a.revision_grows;
        epoch_kept = a.epoch_kept;
        alike = alike;
        move = move;
      },
  λ g. (compare-advance_guards l r).1 (record {
    version_kept = g.version_same;
    group_kept = g.group_same;
    revision_grows = g.revision_grows;
    epoch_kept = g.epoch_kept;
    allowed = Succeeds-validate l r g.alike g.move;
  }),
)
