-- ===== src/Controller/Guarantees.antt =====
-- Runs of controller/controller.go: any calls in any order, with any answers from outside, and what
-- they guarantee of a group.
use solace_broker_autoscale.Controller.Finish.{reconcile-Moves}
use solace_broker_autoscale.Controller.Protocol.{Steps, stage_of}
use solace_broker_autoscale.Controller.Reconcile.{reconcile}
use solace_broker_autoscale.Controller.Safety.{
  AllSound, AllSound-of_Moves, begin-AllSound, request_rollback-Moves,
}
use solace_broker_autoscale.Controller.Moves.{
  Moves-of_Quiet, acknowledge-Quiet, Quiet-same, save_membership-groups,
}
use solace_broker_autoscale.Controller.Operations.{begin, acknowledge, request_rollback}
use solace_broker_autoscale.Controller.Update.{save_membership, get_group}
use solace_broker_autoscale.Controller.State.{
  GroupState, PersistentState, Options, RollbackProof, Acknowledgement,
}
use solace_broker_autoscale.Controller.World.{Env}
use solace_broker_autoscale.Control.Snapshot.{MembershipSnapshot}
use solace_broker_autoscale.Controller.Spec.{TransitionSpec}
use solace_broker_autoscale.Prelude.{
  Bool, List, [], arith, bool_eq, false, list_eq, nat_eq, option_eq, some, true, ℕ, ◌∷◌, ◌≡◌, ◌⊎◌,
}
use solace_broker_autoscale.Text.{Bytes, UrlParser}

-- A call of the controller, with what it meets outside.
pub data Operation : Type 0 where
  begins : Options → ℕ → Bool → TransitionSpec → Operation
  acknowledges : ℕ → Bool → Acknowledgement → Operation
  requests : Options → Bool → Bytes → RollbackProof → Operation
  saves : Bool → MembershipSnapshot → Operation
  reconciles : Options → Env → Bytes → Operation

module _ (parse : UrlParser) where
  unfoldable pub perform : PersistentState → Operation → PersistentState
  perform p (begins o now saved s) = (begin parse o now saved s p).0
  perform p (acknowledges now saved a) = (acknowledge now saved a p).0
  perform p (requests o saved group proof) = (request_rollback o saved group proof p).0
  perform p (saves saved s) = (save_membership parse saved s p).0
  perform p (reconciles o env group) = (reconcile parse o env group p).state

  unfoldable pub perform_all : PersistentState → List Operation → PersistentState
  perform_all p [] = p
  perform_all p (c ∷ cs) = perform_all (perform p c) cs

  -- Each group that `Reconcile` leaves behind was there before, and its stage is the same or was
  -- reached by steps of the protocol, whatever the store, the brokers, the publisher, the clock and
  -- the participants answer.
  pub reconcile-Steps :
      (o : Options) (env : Env) (group k : Bytes) (p : PersistentState) (h : GroupState)
      → get_group k (reconcile parse o env group p).state ≡ some h
      → (g : GroupState) × (get_group k p ≡ some g) × Steps (stage_of g) (stage_of h)
  reconcile-Steps o env group k p h e = reconcile-Moves parse o env group p k h e

  perform-AllSound : (p : PersistentState) (c : Operation) → AllSound p → AllSound (perform p c)
  unfolding perform
  perform-AllSound p (begins o now saved s) v = begin-AllSound parse o now saved s p v
  perform-AllSound p (acknowledges now saved a) v =
      let q = (acknowledge now saved a p).0 in
      AllSound-of_Moves p q (Moves-of_Quiet p q (acknowledge-Quiet now saved a p)) v
  perform-AllSound p (requests o saved group proof) v =
      AllSound-of_Moves p (request_rollback o saved group proof p).0
        (request_rollback-Moves o saved group proof p) v
  perform-AllSound p (saves saved s) v =
      let q = (save_membership parse saved s p).0 in
      AllSound-of_Moves p q
        (Moves-of_Quiet p q (Quiet-same p q (save_membership-groups parse saved s p))) v
  perform-AllSound p (reconciles o env group) v =
      AllSound-of_Moves p (reconcile parse o env group p).state
        (reconcile-Moves parse o env group p) v

  -- Calls keep the invariant of the groups: each phase rests on what the phases before it
  -- published, on the fence and on its verification, the target takes no traffic before ACTIVATE,
  -- a rollback is never under way from COMMIT on, and a completed group has published its outcome.
  pub perform_all-AllSound :
      (p : PersistentState) (cs : List Operation) → AllSound p → AllSound (perform_all p cs)
  unfolding perform_all
  perform_all-AllSound p [] v = v
  perform_all-AllSound p (c ∷ cs) v = perform_all-AllSound (perform p c) cs (perform-AllSound p c v)

  -- From a state with the invariant, after any calls, a group that is rolling back or was rolled
  -- back has published neither COMMIT nor ACTIVATE and has not opened the ingress of its target.
  pub rollback-uncommitted :
      (p : PersistentState) (cs : List Operation) (k : Bytes) (h : GroupState)
      → AllSound p
      → get_group k (perform_all p cs) ≡ some h
      → h.rolling_back ≡ true
      → (h.commit_published ≡ false)
        × (h.activate_published ≡ false)
        × (h.target_ingress_enabled ≡ false)
  rollback-uncommitted p cs k h v e back =
      let s = perform_all-AllSound p cs v k h e in
      let early = s.no_return back in (ground arith, ground arith, ground arith)

  -- From a state with the invariant, after any calls, a group that completed without a rollback has
  -- published every phase, has fenced its source brokers and has verified the ingress of its target.
  pub completed-published :
      (p : PersistentState) (cs : List Operation) (k : Bytes) (h : GroupState)
      → AllSound p
      → get_group k (perform_all p cs) ≡ some h
      → h.completed ≡ true
      → h.rolling_back ≡ false
      → (h.prepare_published ≡ true)
        × (h.pause_published ≡ true)
        × (h.fenced ≡ true)
        × (h.drain_published ≡ true)
        × (h.commit_published ≡ true)
        × (h.target_ingress_verified ≡ true)
        × (h.activate_published ≡ true)
  completed-published p cs k h v e done ahead =
      let s = perform_all-AllSound p cs v k h e in
      let active : h.activate_published ≡ true = ground arith in
      let verified = s.verified_first active in
      let last = s.ingress_late (s.ingress_first verified) in
      let drained = s.drained_first (omega arith) in
      let paused = s.paused_first (omega arith) in
      (
        s.prepared_first (omega arith),
        paused.0,
        paused.1,
        drained.0,
        s.committed_first (omega arith),
        verified,
        active,
      )

  -- From a state with the invariant, after any calls, a group that completed by a rollback has
  -- published it, and has lifted the fence if a fence was ever attempted.
  pub rolled_back-unfenced :
      (p : PersistentState) (cs : List Operation) (k : Bytes) (h : GroupState)
      → AllSound p
      → get_group k (perform_all p cs) ≡ some h
      → h.completed ≡ true
      → h.rolling_back ≡ true
      → (h.rollback_published ≡ true) × ((h.fence_attempted ≡ false) ⊎ (h.unfenced ≡ true))
  rolled_back-unfenced p cs k h v e done back =
      let s = perform_all-AllSound p cs v k h e in
      let published : h.rollback_published ≡ true = ground arith in
      (published, s.unfenced_first published)
