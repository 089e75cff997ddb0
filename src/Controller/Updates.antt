-- ===== src/Controller/Updates.antt =====
-- `updateGroup` of controller/controller.go as a move of one group.
use solace_broker_autoscale.Controller.Protocol.{Steps, stage_of}
use solace_broker_autoscale.Controller.State.{GroupState, PersistentState}
use solace_broker_autoscale.Controller.Update.{
  get_group, update_group, changed_group, record_cleanup_evidence, record_completion,
}
use solace_broker_autoscale.Prelude.{
  ◌≡◌, Bool, some, inl, inr, arith, ℕ, list_eq, nat_eq, refl, ◌∙◌, Option-cases,
}
use solace_broker_autoscale.Text.{Bytes}
use solace_broker_autoscale.Control.Snapshot.{
  descriptor_eq, destination_eq, kind_eq, phase_eq, queue_eq, resource_eq, transition_eq,
}
use solace_broker_autoscale.Controller.Phases.{role_eq, transition_phase_eq}
use solace_broker_autoscale.Controller.Spec.{broker_eq, requirement_eq}
use solace_broker_autoscale.Prelude.{ap, bool_eq, option_eq}
use solace_broker_autoscale.Prelude.{Bool-cases}
use solace_broker_autoscale.Prelude.{none}
use solace_broker_autoscale.Controller.Phases.{save_failed, transition_not_found}
use solace_broker_autoscale.Prelude.{false, lookup-insert_self, true}
use solace_broker_autoscale.Controller.Moves.{
  Moves, Moves-of_Quiet, Quiet, Quiet-same, Written, store-Moves, store-Quiet,
}

-- The evidence that a change causes leaves the stage and the other groups alone.
changed_group-stage :
    (group : Bytes) (limit : ℕ) (f : GroupState → GroupState) (g : GroupState) (p : PersistentState)
    → stage_of (changed_group group limit f g p).0 ≡ stage_of (f g)
unfolding changed_group record_cleanup_evidence
changed_group-stage group limit f g p = ground arith

changed_group-groups :
    (group : Bytes) (limit : ℕ) (f : GroupState → GroupState) (g : GroupState) (p : PersistentState)
    → (changed_group group limit f g p).1.groups ≡ p.groups
unfolding changed_group record_cleanup_evidence record_completion
changed_group-groups group limit f g p = ground arith

-- One update of a group, saved or not.
update_group_cases :
    (group : Bytes) (limit : ℕ) (saved : Bool) (f : GroupState → GroupState) (p : PersistentState)
    → Written group (λ g g'. stage_of g' ≡ stage_of (f g)) p (update_group group limit saved f p).0
unfolding update_group
update_group_cases group limit saved f p = elim (Option-cases (get_group group p)) [
  | inl missing ↦ inl (rw (update_group, missing) refl)
  | inr (g, found) ↦ elim (Bool-cases saved) [
    | inl kept ↦ inr (
      g,
      (changed_group group limit f g p).0,
      found,
      changed_group-stage group limit f g p,
      rw (update_group, found, kept, changed_group-groups group limit f g p) refl,
    )
    | inr lost ↦ inl (rw (update_group, found, lost) refl)
  ]
]

pub update_group-Quiet :
    (group : Bytes) (limit : ℕ) (saved : Bool) (f : GroupState → GroupState) (p : PersistentState)
    → ((g : GroupState) → stage_of (f g) ≡ stage_of g)
    → Quiet p (update_group group limit saved f p).0
update_group-Quiet group limit saved f p same = elim (update_group_cases group limit saved f p) [
  | inl unchanged ↦
      Quiet-same p (update_group group limit saved f p).0 (ap (λ q. q.groups) unchanged)
  | inr (g, g', found, stage, stored) ↦
      store-Quiet group g g' p (update_group group limit saved f p).0 found stored (stage ∙ same g)
]

pub update_group-Moves :
    (group : Bytes) (limit : ℕ) (saved : Bool) (f : GroupState → GroupState) (p : PersistentState)
    → ((g : GroupState) → get_group group p ≡ some g → Steps (stage_of g) (stage_of (f g)))
    → Moves p (update_group group limit saved f p).0
update_group-Moves group limit saved f p step = elim (update_group_cases group limit saved f p) [
  | inl unchanged ↦
      let q = (update_group group limit saved f p).0 in
      Moves-of_Quiet p q (Quiet-same p q (ap (λ r. r.groups) unchanged))
  | inr (g, g', found, stage, stored) ↦
      store-Moves group g g' p (update_group group limit saved f p).0 found stored
        (rw stage (step g found))
]

update_group-missing :
    (group : Bytes) (limit : ℕ) (saved : Bool) (f : GroupState → GroupState) (p : PersistentState)
    → get_group group p ≡ none
    → (update_group group limit saved f p).1 ≡ some transition_not_found
unfolding update_group
update_group-missing group limit saved f p missing = rw (update_group, missing) refl

update_group-lost :
    (group : Bytes) (limit : ℕ) (f : GroupState → GroupState) (p : PersistentState) (g : GroupState)
    → get_group group p ≡ some g
    → (update_group group limit false f p).1 ≡ some save_failed
unfolding update_group
update_group-lost group limit f p g found = rw (update_group, found) refl

update_group-kept :
    (group : Bytes) (limit : ℕ) (f : GroupState → GroupState) (p : PersistentState) (g : GroupState)
    → get_group group p ≡ some g
    → get_group group (update_group group limit true f p).0
      ≡ some (changed_group group limit f g p).0
unfolding update_group
update_group-kept group limit f p g found =
    rw (update_group, found, changed_group-groups group limit f g p)
      (lookup-insert_self group (changed_group group limit f g p).0 p.groups)

-- An update that is saved leaves the changed group.
pub update_group-stored :
    (group : Bytes) (limit : ℕ) (saved : Bool) (f : GroupState → GroupState) (p : PersistentState)
    (h : GroupState)
    → (update_group group limit saved f p).1 ≡ none
    → get_group group (update_group group limit saved f p).0 ≡ some h
    → (g : GroupState) × (get_group group p ≡ some g) × (stage_of h ≡ stage_of (f g))
update_group-stored group limit saved f p h fine now = elim (Option-cases (get_group group p)) [
  | inl missing ↦ let e = update_group-missing group limit saved f p missing in cc
  | inr (g, found) ↦ elim (Bool-cases saved) [
    | inr lost ↦ let e = update_group-lost group limit f p g found in cc
    | inl kept ↦
        let stored = (changed_group group limit f g p).0 in
        let same : h ≡ stored = let e = update_group-kept group limit f p g found in cc in
        (g, found, ap stage_of same ∙ changed_group-stage group limit f g p)
  ]
]
