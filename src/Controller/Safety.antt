-- ===== src/Controller/Safety.antt =====
-- What holds of every group of controller/controller.go after any calls of `Begin`, `Acknowledge`,
-- `RequestRollback`, `SaveMembership` and `Reconcile`, in any order, with any answers from outside.
use solace_broker_autoscale.Controller.Acceptance.{transition_rank}
use solace_broker_autoscale.Controller.Moves.{Moves}
use solace_broker_autoscale.Controller.Updates.{update_group-Moves}
use solace_broker_autoscale.Controller.Refinement.{allow, At-found, stays_put}
use solace_broker_autoscale.Controller.Operations.{
  created_group, store_created, begin_normalized, request_rollback,
}
use solace_broker_autoscale.Controller.Phases.{
  Phase, prepare, pause, drain, commit, activate, unknown_phase,
}
use solace_broker_autoscale.Controller.Protocol.{Sound, stage_of, requests_rollback}
use solace_broker_autoscale.Controller.Soundness.{Steps-Sound}
use solace_broker_autoscale.Controller.State.{GroupState, PersistentState, Options, RollbackProof}
use solace_broker_autoscale.Control.Snapshot.{
  descriptor_eq, destination_eq, kind_eq, phase_eq, queue_eq, resource_eq, transition_eq,
}
use solace_broker_autoscale.Controller.Operations.{can_replace_completed, equal_spec}
use solace_broker_autoscale.Controller.Phases.{role_eq, transition_phase_eq}
use solace_broker_autoscale.Controller.Spec.{TransitionSpec, broker_eq, requirement_eq}
use solace_broker_autoscale.Controller.Update.{get_group}
use solace_broker_autoscale.Prelude.{
  Bool, Option, arith, bool_eq, false, if◌then◌else◌, inl, inr, list_eq, lookup-insert_cases,
  nat_eq, none, not, option_eq, refl, some, true, ℕ, ◌<◌, ◌==◌, ◌||◌, ◌≡◌,
}
use solace_broker_autoscale.Text.{Bytes}
use solace_broker_autoscale.Controller.Phases.{Error}
use solace_broker_autoscale.Prelude.{Result, ◌&&◌}
use solace_broker_autoscale.Controller.Operations.{begin, normalized_spec, with_grace}
use solace_broker_autoscale.Controller.Publication.{validate}
use solace_broker_autoscale.Controller.Spec.{normalized_role_requirements}
use solace_broker_autoscale.Prelude.{Option-cases, Result-cases}
use solace_broker_autoscale.Text.{UrlParser}

branch {ℓ κ} :
    {A : Type ℓ} (P : A → Type κ) (b : Bool) (x y : A)
    → (b ≡ true → P x)
    → (b ≡ false → P y)
    → P (if b then x else y)
branch P true x y hx hy = hx refl
branch P false x y hx hy = hy refl

branch_option {ℓ κ ι} :
    {A : Type ℓ} {B : Type ι} (P : A → Type κ) (o : Option B) (x : A) (next : B → A)
    → P x
    → ((b : B) → o ≡ some b → P (next b))
    → P (elim o as (λ _. A) [ none ↦ x | some b ↦ next b ])
branch_option P none x next hx h = hx
branch_option P (some b) x next hx h = h b refl

abbrev pub AllSound : PersistentState → Type 0
AllSound p = (k : Bytes) (h : GroupState) → get_group k p ≡ some h → Sound (stage_of h)

abbrev Safe : PersistentState × Result Error GroupState → Type 0
Safe r = AllSound r.0

abbrev MovedFrom : PersistentState → PersistentState × Option Error → Type 0
MovedFrom p r = Moves p r.0

pub AllSound-of_Moves : (p q : PersistentState) → Moves p q → AllSound p → AllSound q
AllSound-of_Moves p q moves sound k h e =
    let (g, old, steps) = moves k h e in Steps-Sound steps (sound k g old)

created_group-Sound :
    (o : Options) (now : ℕ) (s : TransitionSpec) → Sound (stage_of (created_group o now s))
unfolding created_group
created_group-Sound o now s = ground arith

store_created-AllSound :
    (o : Options) (now : ℕ) (saved : Bool) (s : TransitionSpec) (p : PersistentState)
    → AllSound p
    → AllSound (store_created o now saved s p).0
unfolding store_created
store_created-AllSound o now saved s p v =
    branch Safe saved _ _
      (λ kept k h e. elim (lookup-insert_cases s.group k (created_group o now s) h p.groups e) [
        | inl (same, new) ↦ rw new (created_group-Sound o now s)
        | inr old ↦ v k h old
      ])
      (λ lost. v)

begin_normalized-AllSound :
    (o : Options) (now : ℕ) (saved : Bool) (s : TransitionSpec) (p : PersistentState)
    → AllSound p
    → AllSound (begin_normalized o now saved s p).0
unfolding begin_normalized
begin_normalized-AllSound o now saved s p v =
    branch_option Safe (get_group s.group p) _ _ (store_created-AllSound o now saved s p v)
      (λ existing found.
        branch Safe (equal_spec existing.spec s) _ _ (λ same. v)
          (λ other.
            branch Safe (not (can_replace_completed existing s)) _ _ (λ busy. v)
              (λ free. store_created-AllSound o now saved s p v)))

abbrev Early : Phase → Type 0
Early phase = transition_rank phase < 4

Early-phase : (phase : Phase) → phase == commit ≡ false → phase == activate ≡ false → Early phase
Early-phase prepare c a = omega arith
Early-phase pause c a = omega arith
Early-phase drain c a = omega arith
Early-phase commit c a = cc
Early-phase activate c a = cc
Early-phase (unknown_phase text) c a = omega arith

pub request_rollback-Moves :
    (o : Options) (saved : Bool) (group : Bytes) (proof : RollbackProof) (p : PersistentState)
    → Moves p (request_rollback o saved group proof p).0
unfolding request_rollback
request_rollback-Moves o saved group proof p =
    branch_option (MovedFrom p) (get_group group p) _ _ (stays_put p) (λ g found.
      branch (MovedFrom p)
        (g.phase == commit || g.phase == activate || g.commit_published || g.activate_published) _ _
        (λ late. stays_put p)
        (λ intime.
          branch (MovedFrom p)
            (not (proof.transition_id == g.spec.id)
              || not proof.source_membership_intact
              || not proof.proposed_not_activated
              || ((g.fence_attempted || g.fenced) && not proof.fence_reversible))
            _ _ (λ unproven. stays_put p)
            (λ proven.
              branch (MovedFrom p) g.rolling_back _ _ (λ again. stays_put p)
                (λ first.
                  update_group-Moves group o.history_limit saved
                    (λ s. record s { rolling_back = true }) p
                    (λ h now.
                      allow g (λ s. record s { rolling_back = true })
                        (λ s. record s { rolling_back = true }) (λ h. refl)
                        (requests_rollback (Early-phase g.phase (ground arith) (ground arith)) first
                          (ground arith) (ground arith) refl)
                        h (At-found group g p found h now))))))

pub begin-AllSound :
    (parse : UrlParser) (o : Options) (now : ℕ) (saved : Bool) (s : TransitionSpec)
    (p : PersistentState)
    → AllSound p
    → AllSound (begin parse o now saved s p).0
unfolding begin
begin-AllSound parse o now saved given p v =
    let s = with_grace o given in
    elim (Option-cases (validate parse s)) [
      | inr (e, refused) ↦
          let same : (begin parse o now saved given p).0 ≡ p = rw (begin, refused) refl in rw same v
      | inl fine ↦ elim (Result-cases (normalized_role_requirements s)) [
        | inl (e, refused) ↦
            let same : (begin parse o now saved given p).0 ≡ p = rw (begin, fine, refused) refl in
            rw same v
        | inr (m, taken) ↦
            let q = (begin_normalized o now saved (normalized_spec s m) p).0 in
            let same : (begin parse o now saved given p).0 ≡ q = rw (begin, fine, taken) refl in
            rw same (begin_normalized-AllSound o now saved (normalized_spec s m) p v)
      ]
    ]
