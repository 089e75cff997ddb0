-- ===== src/Controller/Protocol.antt =====
-- The protocol of a transition, apart from messages and telemetry: what controller/controller.go
-- may do to the phase and the flags of a group, one durable write at a time.
use solace_broker_autoscale.Controller.Acceptance.{transition_rank}
use solace_broker_autoscale.Controller.Phases.{Phase, prepare, pause, drain, commit, activate}
use solace_broker_autoscale.Controller.Spec.{TransitionSpec}
use solace_broker_autoscale.Controller.State.{GroupState}
use solace_broker_autoscale.Prelude.{◌≡◌, Bool, true, false, Option, none, some, ◌<◌, ◌⊎◌}

pub record Stage : Type 0 where
  pub spec : TransitionSpec
  pub phase : Phase
  pub prepare_published : Bool
  pub pause_published : Bool
  pub fence_attempted : Bool
  pub fenced : Bool
  pub drain_published : Bool
  pub fence_verified : Bool
  pub commit_published : Bool
  pub ingress_enabled : Bool
  pub ingress_verified : Bool
  pub activate_published : Bool
  pub rolling_back : Bool
  pub unfenced : Bool
  pub rollback_published : Bool
  pub completed : Bool

abbrev pub is_some {ℓ} : {A : Type ℓ} → Option A → Bool
is_some none = false
is_some (some a) = true

abbrev pub stage_of : GroupState → Stage
stage_of g = record {
  spec = g.spec;
  phase = g.phase;
  prepare_published = g.prepare_published;
  pause_published = g.pause_published;
  fence_attempted = g.fence_attempted;
  fenced = g.fenced;
  drain_published = g.drain_published;
  fence_verified = is_some g.fence_verified_at;
  commit_published = g.commit_published;
  ingress_enabled = g.target_ingress_enabled;
  ingress_verified = g.target_ingress_verified;
  activate_published = g.activate_published;
  rolling_back = g.rolling_back;
  unfenced = g.unfenced;
  rollback_published = g.rollback_published;
  completed = g.completed;
}

-- A transition that moves forward in a phase.
pub record Forward (phase : Phase) (s : Stage) : Type 0 where
  pub in_phase : s.phase ≡ phase
  pub not_rolling : s.rolling_back ≡ false
  pub not_completed : s.completed ≡ false

-- A transition that is on its way back.
pub record Backward (s : Stage) : Type 0 where
  pub rolling : s.rolling_back ≡ true
  pub not_completed : s.completed ≡ false

pub data Step (s t : Stage) : Type 0 where
  publishes_prepare :
      Forward prepare s
      → s.prepare_published ≡ false
      → t ≡ record s { prepare_published = true }
      → Step s t
  enters_pause :
      Forward prepare s → s.prepare_published ≡ true → t ≡ record s { phase = pause } → Step s t
  publishes_pause :
      Forward pause s
      → s.pause_published ≡ false
      → t ≡ record s { pause_published = true }
      → Step s t
  attempts_fence :
      Forward pause s
      → s.pause_published ≡ true
      → t ≡ record s { fence_attempted = true }
      → Step s t
  fences :
      Forward pause s
      → s.pause_published ≡ true
      → s.fence_attempted ≡ true
      → t ≡ record s { fenced = true }
      → Step s t
  enters_drain :
      Forward pause s
      → s.pause_published ≡ true
      → s.fence_attempted ≡ true
      → s.fenced ≡ true
      → t ≡ record s { phase = drain }
      → Step s t
  publishes_drain :
      Forward drain s
      → s.drain_published ≡ false
      → t ≡ record s { drain_published = true }
      → Step s t
  enters_commit :
      Forward drain s
      → s.drain_published ≡ true
      → t ≡ record s { phase = commit; fence_verified = true }
      → Step s t
  publishes_commit :
      Forward commit s
      → s.commit_published ≡ false
      → t ≡ record s {
        fence_attempted = true;
        fenced = true;
        fence_verified = true;
        commit_published = true;
      }
      → Step s t
  enters_activate :
      Forward commit s → s.commit_published ≡ true → t ≡ record s { phase = activate } → Step s t
  enables_ingress :
      Forward activate s
      → s.ingress_enabled ≡ false
      → t ≡ record s { ingress_enabled = true }
      → Step s t
  verifies_ingress :
      Forward activate s
      → s.ingress_enabled ≡ true
      → s.ingress_verified ≡ false
      → t ≡ record s { ingress_verified = true }
      → Step s t
  publishes_activate :
      Forward activate s
      → s.ingress_enabled ≡ true
      → s.ingress_verified ≡ true
      → s.activate_published ≡ false
      → t ≡ record s { activate_published = true }
      → Step s t
  completes :
      Forward activate s
      → s.activate_published ≡ true
      → t ≡ record s { completed = true }
      → Step s t
  requests_rollback :
      transition_rank s.phase < 4
      → s.rolling_back ≡ false
      → s.commit_published ≡ false
      → s.activate_published ≡ false
      → t ≡ record s { rolling_back = true }
      → Step s t
  unfences : Backward s → s.unfenced ≡ false → t ≡ record s { unfenced = true } → Step s t
  publishes_rollback :
      Backward s
      → (s.fence_attempted ≡ false) ⊎ (s.unfenced ≡ true)
      → s.rollback_published ≡ false
      → t ≡ record s { rollback_published = true }
      → Step s t
  completes_rollback :
      Backward s → s.rollback_published ≡ true → t ≡ record s { completed = true } → Step s t

pub data Steps (s : Stage) : Stage → Type 0 where
  stays : Steps s s
  onward : {t u : Stage} → Steps s t → Step t u → Steps s u

pub Steps-trans : {s t u : Stage} → Steps s t → Steps t u → Steps s u
Steps-trans p stays = p
Steps-trans p (onward q step) = onward (Steps-trans p q) step

-- What holds of every group.
pub record Sound (s : Stage) : Type 0 where
  pub known_phase : 0 < transition_rank s.phase
  pub prepared_first : 1 < transition_rank s.phase → s.prepare_published ≡ true
  pub paused_first : 2 < transition_rank s.phase → (s.pause_published ≡ true) × (s.fenced ≡ true)
  pub drained_first :
      3 < transition_rank s.phase → (s.drain_published ≡ true) × (s.fence_verified ≡ true)
  pub committed_first : 4 < transition_rank s.phase → s.commit_published ≡ true
  pub commit_late : s.commit_published ≡ true → 3 < transition_rank s.phase
  pub attempt_first : s.fenced ≡ true → s.fence_attempted ≡ true
  pub fence_after_pause : s.fence_attempted ≡ true → s.pause_published ≡ true
  pub ingress_late : s.ingress_enabled ≡ true → transition_rank s.phase ≡ 5
  pub ingress_first : s.ingress_verified ≡ true → s.ingress_enabled ≡ true
  pub verified_first : s.activate_published ≡ true → s.ingress_verified ≡ true
  pub no_return : s.rolling_back ≡ true → transition_rank s.phase < 4
  pub unfenced_first :
      s.rollback_published ≡ true → (s.fence_attempted ≡ false) ⊎ (s.unfenced ≡ true)
  pub rollback_only : (s.unfenced ≡ true) ⊎ (s.rollback_published ≡ true) → s.rolling_back ≡ true
  pub finished :
      s.completed ≡ true
      → ((s.rolling_back ≡ false) × (s.activate_published ≡ true))
        ⊎ ((s.rolling_back ≡ true) × (s.rollback_published ≡ true))
