-- ===== src/Tests/Rounds.antt =====
-- The theorems on runs of the controller at inputs that meet their hypotheses.
use solace_broker_autoscale.Controller.Guarantees.{
  Operation, reconciles, perform, perform_all, reconcile-Steps, perform_all-AllSound,
  rollback-uncommitted, completed-published, rolled_back-unfenced,
}
use solace_broker_autoscale.Controller.Phases.{activate, pause}
use solace_broker_autoscale.Controller.Protocol.{Sound, Steps, stage_of}
use solace_broker_autoscale.Controller.Safety.{AllSound}
use solace_broker_autoscale.Controller.Operations.{created_group}
use solace_broker_autoscale.Controller.Reconcile.{
  reconcile, reconcile_activate, reconcile_rollback, change,
}
use solace_broker_autoscale.Controller.State.{GroupState, PersistentState, Options, complete_state}
use solace_broker_autoscale.Controller.Update.{
  get_group, update_group, changed_group, record_completion,
}
use solace_broker_autoscale.Controller.Commands.{all_acknowledged}
use solace_broker_autoscale.Controller.World.{Env}
use solace_broker_autoscale.Tests.Transitions.{any_url, grow}
use solace_broker_autoscale.Prelude.{
  List, [], ap, arith, bool_eq, false, inl, inr, insert, list_eq, lookup-insert_cases, nat_eq,
  option_eq, refl, some, true, ◌∙◌, ◌∷◌, ◌≡◌, ◌⊎◌,
}
use solace_broker_autoscale.Text.{bytes}

abbrev settings : Options
settings = record {
  telemetry_freshness = λ group. 10;
  readiness_freshness = 10;
  fence_freshness = 10;
  zero_grace = λ group. 5;
  phase_timeout = λ group. 100;
  history_limit = 4;
}

-- Every answer is a good one.
abbrev calm : Env
calm = record {
  deadline_now = 20;
  drain_now = 20;
  readiness_now = 20;
  verify_now = 20;
  entry_now = 20;
  intent_saved = true;
  membership_saved = true;
  attempt_saved = true;
  change_saved = true;
  fence = λ request. true;
  unfence = λ request. true;
  enable_ingress = λ request. true;
  verify_fence = λ request. some (record { fenced = true; observed_at = 20 });
  verify_ingress = λ request. some (record { enabled = true; observed_at = 20 });
  publish = λ update. true;
  delivered = [];
}

-- A group that has only to complete.
abbrev almost_active : GroupState
almost_active =
    let g = created_group settings 10 grow in
    record g {
      phase = activate;
      prepare_published = true;
      pause_published = true;
      fence_attempted = true;
      fenced = true;
      drain_published = true;
      fence_verified_at = some 15;
      commit_published = true;
      target_ingress_enabled = true;
      target_ingress_verified = true;
      activate_published = true;
    }

-- A group that has only to complete its rollback.
abbrev almost_back : GroupState
almost_back =
    let g = created_group settings 10 grow in
    record g {
      phase = pause;
      prepare_published = true;
      pause_published = true;
      fence_attempted = true;
      fenced = true;
      rolling_back = true;
      unfenced = true;
      rollback_published = true;
    }

abbrev only : GroupState → PersistentState
only g = record {
  membership = [];
  groups = insert (bytes "g") g [];
  history = [];
  cleanup_evidence = [];
}

only-AllSound : (g : GroupState) → Sound (stage_of g) → AllSound (only g)
only-AllSound g v k h e = elim (lookup-insert_cases (bytes "g") k g h [] e) [
  | inl (same, stored) ↦ rw stored v
  | inr missing ↦ cc
]

almost_active-Sound : Sound (stage_of almost_active)
unfolding created_group
almost_active-Sound = ground arith

almost_back-Sound : Sound (stage_of almost_back)
unfolding created_group
almost_back-Sound = ground arith

abbrev one_round : List Operation
one_round = reconciles settings calm (bytes "g") ∷ []

completed_at_last :
    get_group (bytes "g") (perform_all any_url (only almost_active) one_round)
    ≡ some (complete_state 20 almost_active)
unfolding perform_all perform reconcile reconcile_activate change update_group changed_group
    record_completion complete_state all_acknowledged created_group
completed_at_last = refl

back_at_last :
    get_group (bytes "g") (perform_all any_url (only almost_back) one_round)
    ≡ some (complete_state 20 almost_back)
unfolding perform_all perform reconcile reconcile_rollback change update_group changed_group
    record_completion complete_state created_group
back_at_last = refl

active_state :
    (reconcile any_url settings calm (bytes "g") (only almost_active)).state
    ≡ perform_all any_url (only almost_active) one_round
unfolding perform_all perform
active_state = refl

reconcile-Steps_example :
    (g : GroupState) × (get_group (bytes "g") (only almost_active) ≡ some g)
    × Steps (stage_of g) (stage_of (complete_state 20 almost_active))
reconcile-Steps_example =
    reconcile-Steps any_url settings calm (bytes "g") (bytes "g") (only almost_active)
      (complete_state 20 almost_active)
      (ap (get_group (bytes "g")) active_state ∙ completed_at_last)

perform_all-AllSound_example : AllSound (perform_all any_url (only almost_active) one_round)
perform_all-AllSound_example =
    perform_all-AllSound any_url (only almost_active) one_round
      (only-AllSound almost_active almost_active-Sound)

rollback-uncommitted_example :
    ((complete_state 20 almost_back).commit_published ≡ false)
    × ((complete_state 20 almost_back).activate_published ≡ false)
    × ((complete_state 20 almost_back).target_ingress_enabled ≡ false)
unfolding complete_state
rollback-uncommitted_example =
    rollback-uncommitted any_url (only almost_back) one_round (bytes "g")
      (complete_state 20 almost_back) (only-AllSound almost_back almost_back-Sound) back_at_last
      refl

completed-published_example :
    ((complete_state 20 almost_active).prepare_published ≡ true)
    × ((complete_state 20 almost_active).pause_published ≡ true)
    × ((complete_state 20 almost_active).fenced ≡ true)
    × ((complete_state 20 almost_active).drain_published ≡ true)
    × ((complete_state 20 almost_active).commit_published ≡ true)
    × ((complete_state 20 almost_active).target_ingress_verified ≡ true)
    × ((complete_state 20 almost_active).activate_published ≡ true)
unfolding complete_state created_group
completed-published_example =
    completed-published any_url (only almost_active) one_round (bytes "g")
      (complete_state 20 almost_active) (only-AllSound almost_active almost_active-Sound)
      completed_at_last refl refl

rolled_back-unfenced_example :
    ((complete_state 20 almost_back).rollback_published ≡ true)
    × (((complete_state 20 almost_back).fence_attempted ≡ false)
        ⊎ ((complete_state 20 almost_back).unfenced ≡ true))
unfolding complete_state created_group
rolled_back-unfenced_example =
    rolled_back-unfenced any_url (only almost_back) one_round (bytes "g")
      (complete_state 20 almost_back) (only-AllSound almost_back almost_back-Sound) back_at_last
      refl refl
