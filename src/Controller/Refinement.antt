-- ===== src/Controller/Refinement.antt =====
-- controller/controller.go `Reconcile` against the protocol of a transition.
use solace_broker_autoscale.Controller.Moves.{Moves, Quiet}
use solace_broker_autoscale.Controller.Protocol.{Stage, Step, Steps, stays, onward, stage_of}
use solace_broker_autoscale.Controller.Reconcile.{
  publish, reread, ensure_command_intent, change, after_publish, after_intent, announce,
}
use solace_broker_autoscale.Controller.World.{Env, Reply, reply}
use solace_broker_autoscale.Controller.Moves.{Moves-of_Quiet, Quiet-refl}
use solace_broker_autoscale.Controller.Updates.{update_group-Moves}
use solace_broker_autoscale.Controller.Phases.{Error, Phase}
use solace_broker_autoscale.Controller.State.{GroupState, Options, PersistentState}
use solace_broker_autoscale.Controller.Update.{get_group}
use solace_broker_autoscale.Prelude.{
  Bool, Option, Option-cases, ap, bool_eq, false, if◌then◌else◌, inl, inr, list_eq, nat_eq, none,
  option_eq, refl, some, true, ◌∙◌, ◌≡◌,
}
use solace_broker_autoscale.Text.{Bytes, UrlParser}
use solace_broker_autoscale.Controller.Commands.{commands_issued, record_issued_commands}
use solace_broker_autoscale.Controller.Moves.{
  Moves-trans, Quiet-trans, Quiet-same, deliver-Quiet, save_membership-groups,
}
use solace_broker_autoscale.Controller.Updates.{update_group-Quiet}
use solace_broker_autoscale.Controller.Publication.{control_snapshot}
use solace_broker_autoscale.Controller.Update.{save_membership, update_group}
use solace_broker_autoscale.Controller.World.{deliver}
use solace_broker_autoscale.Prelude.{Bool-cases, Result, err, ok}
use solace_broker_autoscale.Controller.World.{control_update}

-- The branches of a call, each with what its test showed.
pub Moves-if :
    (p : PersistentState) (b : Bool) (x y : Reply)
    → (b ≡ true → Moves p x.state)
    → (b ≡ false → Moves p y.state)
    → Moves p (if b then x else y).state
Moves-if p true x y hx hy = hx refl
Moves-if p false x y hx hy = hy refl

pub Moves-if_proof :
    {S : Type 0} (p : PersistentState) (e : Error) (status : Option S) (next : S → Reply)
    → ((s : S) → status ≡ some s → Moves p (next s).state)
    → Moves p
        (elim status as (λ _. Reply) [ none ↦ reply p false (some e) | some s ↦ next s ]).state
Moves-if_proof p e none next h = Moves-of_Quiet p p (Quiet-refl p)
Moves-if_proof p e (some s) next h = h s refl

pub Moves-to : (p q r : PersistentState) → r ≡ q → Moves p q → Moves p r
Moves-to p q r e h = rw e h

pub stays_put : (p : PersistentState) → Moves p p
stays_put p = Moves-of_Quiet p p (Quiet-refl p)

-- The change takes a group in the stage of `g` along the protocol.
abbrev pub Allows : GroupState → (GroupState → GroupState) → Type 0
Allows g f = (h : GroupState) → stage_of h ≡ stage_of g → Steps (stage_of h) (stage_of (f h))

pub allow :
    (g : GroupState) (f : GroupState → GroupState) (move : Stage → Stage)
    → ((h : GroupState) → stage_of (f h) ≡ move (stage_of h))
    → Step (stage_of g) (move (stage_of g))
    → Allows g f
allow g f move same step h e = rw (same h, e) (onward stays step)

-- The group, if it is there, is in the stage of `g`.
abbrev pub At : Bytes → GroupState → PersistentState → Type 0
At group g p = (h : GroupState) → get_group group p ≡ some h → stage_of h ≡ stage_of g

pub At-found :
    (group : Bytes) (g : GroupState) (p : PersistentState)
    → get_group group p ≡ some g
    → At group g p
At-found group g p found h e = let same : h ≡ g = cc in ap stage_of same

pub At-Quiet :
    (group : Bytes) (g : GroupState) (p q : PersistentState)
    → Quiet p q
    → At group g p
    → At group g q
At-Quiet group g p q pq at h e = let (f, old, same) = pq group h e in same ∙ at f old

Quiet-to : (p q r : PersistentState) → r ≡ q → Quiet p q → Quiet p r
Quiet-to p q r e h = rw e h

recorded-stage :
    (phase : Phase) (g : GroupState) → stage_of (record_issued_commands phase g) ≡ stage_of g
unfolding record_issued_commands
recorded-stage phase g = refl

module _ (parse : UrlParser) (o : Options) (env : Env) (group : Bytes) where
  publish-Quiet :
      (g : GroupState) (phase : Phase) (rollback : Bool) (p : PersistentState)
      → Quiet p (publish parse o env group g phase rollback p).0
  unfolding publish control_update
  publish-Quiet g phase rollback p =
      let snapshot = control_snapshot g.spec phase rollback in
      let q = (save_membership parse env.membership_saved snapshot p).0 in
      let saves = Quiet-same p q (save_membership-groups parse env.membership_saved snapshot p) in
      let r = (publish parse o env group g phase rollback p).0 in
      elim (Option-cases (save_membership parse env.membership_saved snapshot p).1) [
        | inl fine ↦
            Quiet-to p (deliver env.delivered q) r (rw (publish, fine) refl)
              (Quiet-trans p q (deliver env.delivered q) saves (deliver-Quiet env.delivered q))
        | inr (e, failed) ↦ Quiet-to p q r (rw (publish, failed) refl) saves
      ]

  pub reread-state : (x : PersistentState × Option Error) → (reread parse o env group x).0 ≡ x.0
  unfolding reread
  reread-state (p, some e) = refl
  reread-state (p, none) = elim (Option-cases (get_group group p)) [
    | inl missing ↦ rw (reread, missing) refl
    | inr (g, found) ↦ rw (reread, found) refl
  ]

  ensure_command_intent-Quiet :
      (phase : Phase) (g : GroupState) (p : PersistentState)
      → Quiet p (ensure_command_intent parse o env group phase g p).0
  unfolding ensure_command_intent
  ensure_command_intent-Quiet phase g p =
      let x =
        update_group group o.history_limit env.intent_saved (record_issued_commands phase) p in
      let r = (ensure_command_intent parse o env group phase g p).0 in
      elim (Bool-cases (commands_issued g phase)) [
        | inl issued ↦ Quiet-to p p r (rw (ensure_command_intent, issued) refl) (Quiet-refl p)
        | inr fresh ↦ Quiet-to p x.0 r (rw (ensure_command_intent, fresh) (reread-state x)) (
            update_group-Quiet group o.history_limit env.intent_saved (record_issued_commands phase)
              p (recorded-stage phase))
      ]

  pub change-Moves :
      (g : GroupState) (f : GroupState → GroupState) (p : PersistentState)
      → At group g p
      → Allows g f
      → Moves p (change parse o env group f p).state
  unfolding change
  change-Moves g f p at allows =
      update_group-Moves group o.history_limit env.change_saved f p (λ h e. allows h (at h e))

  after_publish-Moves :
      (g : GroupState) (intent : Bool) (f : GroupState → GroupState)
      (x : PersistentState × Option Error)
      → At group g x.0
      → Allows g f
      → Moves x.0 (after_publish parse o env group intent f x).state
  after_publish-Moves g intent f (p, some e) at allows = stays_put p
  after_publish-Moves g intent f (p, none) at allows = change-Moves g f p at allows

  -- A publication, then the change that marks it.
  pub publish-Moves :
      (g h : GroupState) (phase : Phase) (rollback intent : Bool) (f : GroupState → GroupState)
      (p : PersistentState)
      → At group g p
      → Allows g f
      → Moves p
          (after_publish parse o env group intent f
            (publish parse o env group h phase rollback p)).state
  publish-Moves g h phase rollback intent f p at allows =
      let x = publish parse o env group h phase rollback p in
      let quiet = publish-Quiet h phase rollback p in
      Moves-trans p x.0 (after_publish parse o env group intent f x).state
        (Moves-of_Quiet p x.0 quiet)
        (after_publish-Moves g intent f x (At-Quiet group g p x.0 quiet at) allows)

  after_intent-Moves :
      (g : GroupState) (phase : Phase) (f : GroupState → GroupState)
      (x : PersistentState × Result Error (GroupState × Bool))
      → At group g x.0
      → Allows g f
      → Moves x.0 (after_intent parse o env group phase f x).state
  after_intent-Moves g phase f (p, err e) at allows = stays_put p
  after_intent-Moves g phase f (p, ok (h, intent)) at allows =
      publish-Moves g h phase false intent f p at allows

  pub announce-Moves :
      (g : GroupState) (phase : Phase) (f : GroupState → GroupState) (p : PersistentState)
      → At group g p
      → Allows g f
      → Moves p (announce parse o env group phase f g p).state
  unfolding announce
  announce-Moves g phase f p at allows =
      let x = ensure_command_intent parse o env group phase g p in
      let quiet = ensure_command_intent-Quiet phase g p in
      Moves-trans p x.0 (after_intent parse o env group phase f x).state
        (Moves-of_Quiet p x.0 quiet)
        (after_intent-Moves g phase f x (At-Quiet group g p x.0 quiet at) allows)
