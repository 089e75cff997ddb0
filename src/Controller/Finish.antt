-- ===== src/Controller/Finish.antt =====
-- DRAIN, COMMIT, ACTIVATE and the rollback of controller/controller.go `Reconcile` against the
-- protocol of a transition, and `Reconcile` as a whole.
use solace_broker_autoscale.Controller.Refinement.{
  Moves-if, Moves-if_proof, stays_put, allow, At, At-found, publish-Moves,
}
use solace_broker_autoscale.Controller.Rounds.{
  Moving, Forward-of_Moving, change-Step, announce-Step, reconcile_prepare-Moves,
  reconcile_pause-Moves,
}
use solace_broker_autoscale.Controller.Protocol.{
  Backward, stage_of, Forward, publishes_drain, enters_commit, publishes_commit, enters_activate,
  enables_ingress, verifies_ingress, publishes_activate, completes, unfences, publishes_rollback,
  completes_rollback,
}
use solace_broker_autoscale.Controller.Phases.{
  Phase, prepare, pause, drain, commit, activate, unknown_phase, verify_failed,
  transition_not_found,
}
use solace_broker_autoscale.Controller.Reconcile.{
  enter, is_fresh_proof, reconcile, reconcile_phase, deadline_passed,
}
use solace_broker_autoscale.Controller.Commands.{all_acknowledged, readiness_fresh}
use solace_broker_autoscale.Controller.Drain.{drain_complete}
use solace_broker_autoscale.Controller.Moves.{Moves}
use solace_broker_autoscale.Controller.Reconcile.{
  enter_commit, mark_activated, mark_committed, mark_verified, publish_commit, reconcile_activate,
  reconcile_commit, reconcile_drain, reconcile_rollback, verify_drain, with_ingress_proof,
}
use solace_broker_autoscale.Controller.State.{
  GroupState, Options, PersistentState, complete_state, enter_phase,
}
use solace_broker_autoscale.Controller.Update.{get_group}
use solace_broker_autoscale.Controller.World.{Env, Reply, fence_request, target_ingress_request}
use solace_broker_autoscale.Prelude.{
  arith, bool_eq, false, list_eq, nat_eq, not, option_eq, refl, true, ℕ, ◌&&◌, ◌||◌, ◌≡◌,
}
use solace_broker_autoscale.Text.{Bytes, UrlParser, bytes}

module _ (parse : UrlParser) (o : Options) (env : Env) (group : Bytes) where
  verify_drain-Moves :
      (g : GroupState) (p : PersistentState)
      → At group g p
      → Forward drain (stage_of g)
      → g.drain_published ≡ true
      → Moves p (verify_drain parse o env group g p).state
  unfolding verify_drain enter_commit enter enter_phase
  verify_drain-Moves g p at f published =
      Moves-if p
        (not (all_acknowledged g drain)
          || not (readiness_fresh g env.readiness_now o.readiness_freshness))
        _ _ (λ waiting. stays_put p)
        (λ ready.
          Moves-if_proof p verify_failed (env.verify_fence (fence_request g (bytes "verify-fence")))
            _
            (λ status seen.
              Moves-if p (is_fresh_proof parse o env group status.fenced status.observed_at) _ _
                (λ proven.
                  change-Step parse o env group g
                    (enter_commit parse o env group status.observed_at) p at
                    (λ s. record s { phase = commit; fence_verified = true }) (λ h. refl)
                    (enters_commit f published refl))
                (λ unproven. stays_put p)))

  reconcile_drain-Moves :
      (g : GroupState) (p : PersistentState)
      → At group g p
      → Moving g
      → g.phase ≡ drain
      → Moves p (reconcile_drain parse o env group g p).state
  unfolding reconcile_drain
  reconcile_drain-Moves g p at m e =
      let f = Forward-of_Moving g drain m e in
      Moves-if p (not g.drain_published) _ _
        (λ fresh.
          announce-Step parse o env group g drain (λ s. record s { drain_published = true }) p at
            (λ s. record s { drain_published = true }) (λ h. refl)
            (publishes_drain f (ground arith) refl))
        (λ old.
          Moves-if p (drain_complete g env.drain_now (o.telemetry_freshness g.spec.group)) _ _
            (λ drained. verify_drain-Moves g p at f (ground arith)) (λ full. stays_put p))

  reconcile_commit-Moves :
      (g : GroupState) (p : PersistentState)
      → At group g p
      → Moving g
      → g.phase ≡ commit
      → Moves p (reconcile_commit parse o env group g p).state
  unfolding reconcile_commit publish_commit mark_committed enter enter_phase
  reconcile_commit-Moves g p at m e =
      let f = Forward-of_Moving g commit m e in
      Moves-if p (not g.commit_published) _ _
        (λ fresh.
          Moves-if_proof p verify_failed
            (env.verify_fence (fence_request g (bytes "commit-verify-fence"))) _
            (λ status seen.
              Moves-if p (is_fresh_proof parse o env group status.fenced status.observed_at) _ _
                (λ proven.
                  let mark = mark_committed parse o env group status.observed_at in
                  publish-Moves parse o env group g g commit false false mark p at (
                    allow g mark
                      (λ s. record s {
                        fence_attempted = true;
                        fenced = true;
                        fence_verified = true;
                        commit_published = true;
                      })
                      (λ h. refl) (publishes_commit f (ground arith) refl)))
                (λ unproven. stays_put p)))
        (λ old.
          change-Step parse o env group g (enter parse o env group activate) p at
            (λ s. record s { phase = activate }) (λ h. refl)
            (enters_activate f (ground arith) refl))

  with_ingress_proof-Moves :
      (action : Bytes) (next : ℕ → Reply) (g : GroupState) (p : PersistentState)
      → ((at : ℕ) → Moves p (next at).state)
      → Moves p (with_ingress_proof parse o env group action next g p).state
  unfolding with_ingress_proof
  with_ingress_proof-Moves action next g p moves =
      Moves-if_proof p verify_failed (env.verify_ingress (target_ingress_request g action)) _
        (λ status seen.
          Moves-if p (is_fresh_proof parse o env group status.enabled status.observed_at) _ _
            (λ proven. moves status.observed_at) (λ unproven. stays_put p))

  reconcile_activate-Moves :
      (g : GroupState) (p : PersistentState)
      → At group g p
      → Moving g
      → g.phase ≡ activate
      → Moves p (reconcile_activate parse o env group g p).state
  unfolding reconcile_activate mark_verified mark_activated complete_state
  reconcile_activate-Moves g p at m e =
      let f = Forward-of_Moving g activate m e in
      Moves-if p (not g.target_ingress_enabled) _ _
        (λ disabled.
          Moves-if p (env.enable_ingress (target_ingress_request g (bytes "enable-target-ingress")))
            _ _
            (λ done.
              change-Step parse o env group g (λ s. record s { target_ingress_enabled = true }) p at
                (λ s. record s { ingress_enabled = true }) (λ h. refl)
                (enables_ingress f (ground arith) refl))
            (λ failed. stays_put p))
        (λ enabled.
          Moves-if p (not g.target_ingress_verified) _ _
            (λ unproven. with_ingress_proof-Moves (bytes "verify-target-ingress") _ g p (λ seen.
              change-Step parse o env group g (mark_verified parse o env group seen) p at
                (λ s. record s { ingress_verified = true }) (λ h. refl)
                (verifies_ingress f (ground arith) (ground arith) refl)))
            (λ proven.
              Moves-if p (not g.activate_published) _ _
                (λ fresh.
                  with_ingress_proof-Moves (bytes "activate-verify-target-ingress") _ g p (λ seen.
                    announce-Step parse o env group g activate
                      (mark_activated parse o env group seen) p at
                      (λ s. record s { activate_published = true }) (λ h. refl)
                      (publishes_activate f (ground arith) (ground arith) (ground arith) refl)))
                (λ old.
                  Moves-if p (all_acknowledged g activate) _ _
                    (λ acked.
                      change-Step parse o env group g (complete_state env.entry_now) p at
                        (λ s. record s { completed = true }) (λ h. refl)
                        (completes f (ground arith) refl))
                    (λ missing. stays_put p))))

  reconcile_rollback-Moves :
      (g : GroupState) (p : PersistentState)
      → At group g p
      → Backward (stage_of g)
      → Moves p (reconcile_rollback parse o env group g p).state
  unfolding reconcile_rollback complete_state
  reconcile_rollback-Moves g p at b =
      Moves-if p ((g.fence_attempted || g.fenced) && not g.unfenced) _ _
        (λ held.
          Moves-if p (env.unfence (fence_request g (bytes "unfence"))) _ _
            (λ done.
              change-Step parse o env group g (λ s. record s { unfenced = true }) p at
                (λ s. record s { unfenced = true }) (λ h. refl) (unfences b (ground arith) refl))
            (λ failed. stays_put p))
        (λ clear.
          Moves-if p (not g.rollback_published) _ _
            (λ fresh.
              publish-Moves parse o env group g g activate true false
                (λ s. record s { rollback_published = true }) p at
                (allow g (λ s. record s { rollback_published = true })
                  (λ s. record s { rollback_published = true }) (λ h. refl)
                  (publishes_rollback b (ground arith) (ground arith) refl)))
            (λ old.
              change-Step parse o env group g (complete_state env.entry_now) p at
                (λ s. record s { completed = true }) (λ h. refl)
                (completes_rollback b (ground arith) refl)))

  reconcile_phase-Moves :
      (g : GroupState) (p : PersistentState) (phase : Phase)
      → At group g p
      → Moving g
      → g.phase ≡ phase
      → Moves p (reconcile_phase parse o env group phase g p).state
  reconcile_phase-Moves g p prepare at m e = reconcile_prepare-Moves parse o env group g p at m e
  reconcile_phase-Moves g p pause at m e = reconcile_pause-Moves parse o env group g p at m e
  reconcile_phase-Moves g p drain at m e = reconcile_drain-Moves g p at m e
  reconcile_phase-Moves g p commit at m e = reconcile_commit-Moves g p at m e
  reconcile_phase-Moves g p activate at m e = reconcile_activate-Moves g p at m e
  reconcile_phase-Moves g p (unknown_phase text) at m e = stays_put p

  -- Whatever the store, the brokers, the publisher, the clock and the participants answer, each
  -- group that `Reconcile` leaves behind was there before and has the same stage or has moved along
  -- the protocol.
  pub reconcile-Moves : (p : PersistentState) → Moves p (reconcile parse o env group p).state
  unfolding reconcile
  reconcile-Moves p = Moves-if_proof p transition_not_found (get_group group p) _ (λ g found.
      let at = At-found group g p found in
      Moves-if p g.completed _ _ (λ done. stays_put p)
        (λ unfinished.
          Moves-if p g.rolling_back _ _
            (λ back.
              reconcile_rollback-Moves g p at
                (record { rolling = back; not_completed = unfinished }))
            (λ ahead.
              Moves-if p (deadline_passed parse o env group g) _ _ (λ late. stays_put p)
                (λ intime.
                  reconcile_phase-Moves g p g.phase at
                    (record { open_group = unfinished; forward = ahead }) refl))))
