-- ===== src/Controller/Rounds.antt =====
-- PREPARE and PAUSE of controller/controller.go `Reconcile` against the protocol of a transition.
use solace_broker_autoscale.Controller.Refinement.{
  Moves-if, stays_put, allow, At, change-Moves, announce-Moves,
}
use solace_broker_autoscale.Controller.Protocol.{
  stage_of, Forward, publishes_prepare, enters_pause, fences, enters_drain,
}
use solace_broker_autoscale.Controller.Phases.{Phase, prepare, pause, drain}
use solace_broker_autoscale.Controller.Reconcile.{reconcile_prepare, enter}
use solace_broker_autoscale.Controller.Commands.{all_acknowledged}
use solace_broker_autoscale.Controller.Moves.{Moves}
use solace_broker_autoscale.Controller.Reconcile.{apply_fence}
use solace_broker_autoscale.Controller.State.{GroupState, Options, PersistentState, enter_phase}
use solace_broker_autoscale.Controller.World.{Env, fence_request}
use solace_broker_autoscale.Prelude.{
  arith, bool_eq, false, list_eq, nat_eq, not, option_eq, refl, true, ◌≡◌,
}
use solace_broker_autoscale.Text.{Bytes, UrlParser, bytes}
use solace_broker_autoscale.Controller.Moves.{Moves-trans}
use solace_broker_autoscale.Controller.Updates.{update_group-Moves, update_group-stored}
use solace_broker_autoscale.Controller.Phases.{Error}
use solace_broker_autoscale.Controller.Protocol.{Stage, Step}
use solace_broker_autoscale.Controller.Reconcile.{
  announce, attempt_fence, change, fence_reread, reconcile_pause, reread,
}
use solace_broker_autoscale.Controller.Refinement.{At-found, Moves-to}
use solace_broker_autoscale.Controller.Update.{get_group, update_group}
use solace_broker_autoscale.Prelude.{Option, Option-cases, ap, inl, inr, none, some, ◌∙◌}
use solace_broker_autoscale.Controller.Protocol.{attempts_fence, publishes_pause}

abbrev fence_begun : Stage → Stage
fence_begun s = record s { fence_attempted = true }

abbrev attempted : GroupState → GroupState
attempted s = record s { fence_attempted = true }

-- A transition that `Reconcile` moves forward.
pub record Moving (g : GroupState) : Type 0 where
  pub open_group : g.completed ≡ false
  pub forward : g.rolling_back ≡ false

pub Forward-of_Moving :
    (g : GroupState) (phase : Phase) → Moving g → g.phase ≡ phase → Forward phase (stage_of g)
Forward-of_Moving g phase m e = record {
  in_phase = e;
  not_rolling = m.forward;
  not_completed = m.open_group;
}

module _ (parse : UrlParser) (o : Options) (env : Env) (group : Bytes) where
  pub change-Step :
      (g : GroupState) (f : GroupState → GroupState) (p : PersistentState)
      → At group g p
      → (move : Stage → Stage) → ((h : GroupState) → stage_of (f h) ≡ move (stage_of h))
      → Step (stage_of g) (move (stage_of g))
      → Moves p (change parse o env group f p).state
  change-Step g f p at move same step =
      change-Moves parse o env group g f p at (allow g f move same step)

  pub announce-Step :
      (g : GroupState) (phase : Phase) (f : GroupState → GroupState) (p : PersistentState)
      → At group g p
      → (move : Stage → Stage) → ((h : GroupState) → stage_of (f h) ≡ move (stage_of h))
      → Step (stage_of g) (move (stage_of g))
      → Moves p (announce parse o env group phase f g p).state
  announce-Step g phase f p at move same step =
      announce-Moves parse o env group g phase f p at (allow g f move same step)

  pub reconcile_prepare-Moves :
      (g : GroupState) (p : PersistentState)
      → At group g p
      → Moving g
      → g.phase ≡ prepare
      → Moves p (reconcile_prepare parse o env group g p).state
  unfolding reconcile_prepare enter enter_phase
  reconcile_prepare-Moves g p at m e =
      let f = Forward-of_Moving g prepare m e in
      Moves-if p (not g.prepare_published) _ _
        (λ fresh.
          announce-Step g prepare (λ s. record s { prepare_published = true }) p at
            (λ s. record s { prepare_published = true }) (λ h. refl)
            (publishes_prepare f (ground arith) refl))
        (λ old.
          Moves-if p (all_acknowledged g prepare) _ _
            (λ acked.
              change-Step g (enter parse o env group pause) p at (λ s. record s { phase = pause })
                (λ h. refl) (enters_pause f (ground arith) refl))
            (λ missing. stays_put p))

  apply_fence-Moves :
      (g : GroupState) (p : PersistentState)
      → At group g p
      → Forward pause (stage_of g)
      → g.pause_published ≡ true
      → g.fence_attempted ≡ true
      → Moves p (apply_fence parse o env group g p).state
  unfolding apply_fence enter enter_phase
  apply_fence-Moves g p at f published attempted =
      Moves-if p (not g.fenced) _ _
        (λ unfenced.
          Moves-if p (env.fence (fence_request g (bytes "fence"))) _ _
            (λ done.
              change-Step g (λ s. record s { fenced = true }) p at (λ s. record s { fenced = true })
                (λ h. refl) (fences f published attempted refl))
            (λ failed. stays_put p))
        (λ held.
          change-Step g (enter parse o env group drain) p at (λ s. record s { phase = drain })
            (λ h. refl) (enters_drain f published attempted (ground arith) refl))

  fence_reread-Moves :
      (x : PersistentState × Option Error)
      → (x.1 ≡ none
          → (h : GroupState) → get_group group x.0 ≡ some h
          → Moves x.0 (apply_fence parse o env group h x.0).state)
      → Moves x.0 (fence_reread parse o env group (reread parse o env group x)).state
  unfolding reread
  fence_reread-Moves (p, some e) next = stays_put p
  fence_reread-Moves (p, none) next = elim (Option-cases (get_group group p)) [
    | inl missing ↦
        Moves-to p p (fence_reread parse o env group (reread parse o env group (p, none))).state
          (rw (reread, missing) refl) (stays_put p)
    | inr (h, found) ↦
        Moves-to p (apply_fence parse o env group h p).state
          (fence_reread parse o env group (reread parse o env group (p, none))).state
          (rw (reread, found) refl) (next refl h found)
  ]

  attempt_fence-Moves :
      (g : GroupState) (p : PersistentState)
      → At group g p
      → Forward pause (stage_of g)
      → g.pause_published ≡ true
      → Moves p (attempt_fence parse o env group g p).state
  unfolding attempt_fence
  attempt_fence-Moves g p at f published =
      let mark = attempted in
      let x = update_group group o.history_limit env.attempt_saved mark p in
      Moves-if p g.fence_attempted _ _ (λ again. apply_fence-Moves g p at f published again)
        (λ first.
          Moves-trans p x.0 (fence_reread parse o env group (reread parse o env group x)).state
            (update_group-Moves group o.history_limit env.attempt_saved mark p (λ h found.
              allow g mark fence_begun (λ h. refl) (attempts_fence f published refl) h
                (at h found)))
            (fence_reread-Moves x (λ fine h now.
              let (g', old, same) =
                update_group-stored group o.history_limit env.attempt_saved mark p h fine now in
              let stage = same ∙ ap fence_begun (at g' old) in
              apply_fence-Moves h x.0 (At-found group h x.0 now)
                (record {
                  in_phase = ap (λ s. s.phase) stage ∙ f.in_phase;
                  not_rolling = ap (λ s. s.rolling_back) stage ∙ f.not_rolling;
                  not_completed = ap (λ s. s.completed) stage ∙ f.not_completed;
                })
                (ap (λ s. s.pause_published) stage ∙ published)
                (ap (λ s. s.fence_attempted) stage))))

  pub reconcile_pause-Moves :
      (g : GroupState) (p : PersistentState)
      → At group g p
      → Moving g
      → g.phase ≡ pause
      → Moves p (reconcile_pause parse o env group g p).state
  unfolding reconcile_pause
  reconcile_pause-Moves g p at m e =
      let f = Forward-of_Moving g pause m e in
      Moves-if p (not g.pause_published) _ _
        (λ fresh.
          announce-Step g pause (λ s. record s { pause_published = true }) p at
            (λ s. record s { pause_published = true }) (λ h. refl)
            (publishes_pause f (ground arith) refl))
        (λ old.
          Moves-if p (not (all_acknowledged g pause)) _ _ (λ missing. stays_put p)
            (λ acked. attempt_fence-Moves g p at f (ground arith)))
