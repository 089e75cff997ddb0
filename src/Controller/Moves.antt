-- ===== src/Controller/Moves.antt =====
-- How one durable state follows another: each group of the later state was there before, and its
-- stage is the same or has moved along the protocol (controller/controller.go).
use solace_broker_autoscale.Controller.Operations.{
  acknowledge, acknowledge_group, put_acknowledgement,
}
use solace_broker_autoscale.Controller.Protocol.{Stage, Steps, stage_of, stays, Steps-trans}
use solace_broker_autoscale.Controller.State.{GroupState, PersistentState, Acknowledgement}
use solace_broker_autoscale.Controller.Update.{get_group, save_membership, save_valid_membership}
use solace_broker_autoscale.Controller.World.{deliver, Delivery}
use solace_broker_autoscale.Control.Snapshot.{MembershipSnapshot}
use solace_broker_autoscale.Prelude.{
  ◌≡◌, Bool, some, inl, inr, arith, ℕ, insert, lookup, list_eq, nat_eq, refl, ◌∙◌, sym, List, [],
  ◌∷◌, Option-cases, Result-cases, ◌⊎◌,
}
use solace_broker_autoscale.Text.{Bytes, UrlParser}
use solace_broker_autoscale.Control.Snapshot.{
  descriptor_eq, destination_eq, kind_eq, phase_eq, queue_eq, resource_eq, transition_eq,
}
use solace_broker_autoscale.Controller.Phases.{role_eq, transition_phase_eq}
use solace_broker_autoscale.Controller.Spec.{broker_eq, requirement_eq}
use solace_broker_autoscale.Prelude.{ap, bool_eq, lookup-insert_cases, ok, option_eq}
use solace_broker_autoscale.Controller.Operations.{or_default}
use solace_broker_autoscale.Prelude.{Bool-cases}

-- No group has moved.
abbrev pub Quiet : PersistentState → PersistentState → Type 0
Quiet p q =
    (k : Bytes) (h : GroupState)
    → get_group k q ≡ some h
    → (g : GroupState) × (get_group k p ≡ some g) × (stage_of h ≡ stage_of g)

abbrev pub Moves : PersistentState → PersistentState → Type 0
Moves p q =
    (k : Bytes) (h : GroupState)
    → get_group k q ≡ some h
    → (g : GroupState) × (get_group k p ≡ some g) × Steps (stage_of g) (stage_of h)

pub Quiet-refl : (p : PersistentState) → Quiet p p
Quiet-refl p k h e = (h, e, refl)

pub Quiet-trans : (p q r : PersistentState) → Quiet p q → Quiet q r → Quiet p r
Quiet-trans p q r pq qr k h e =
    let (g, now, same) = qr k h e in let (f, old, before) = pq k g now in (f, old, same ∙ before)

Steps-same : (s t : Stage) → t ≡ s → Steps s t
Steps-same s t e = rw e stays

pub Moves-of_Quiet : (p q : PersistentState) → Quiet p q → Moves p q
Moves-of_Quiet p q pq k h e =
    let (g, old, same) = pq k h e in (g, old, Steps-same (stage_of g) (stage_of h) same)

pub Moves-trans : (p q r : PersistentState) → Moves p q → Moves q r → Moves p r
Moves-trans p q r pq qr k h e =
    let (g, now, last) = qr k h e in
    let (f, old, first) = pq k g now in (f, old, Steps-trans first last)

-- One group is stored anew, from an old stage to a new one.
pub store-Moves :
    (group : Bytes) (g g' : GroupState) (p q : PersistentState)
    → get_group group p ≡ some g
    → q.groups ≡ insert group g' p.groups
    → Steps (stage_of g) (stage_of g')
    → Moves p q
store-Moves group g g' p q old new st k h e =
    elim (lookup-insert_cases group k g' h p.groups (ap (λ m. lookup k m) (sym new) ∙ e)) [
      | inl (same, stored) ↦ (g, rw (← same) old, rw stored st)
      | inr before ↦ (h, before, stays)
    ]

pub store-Quiet :
    (group : Bytes) (g g' : GroupState) (p q : PersistentState)
    → get_group group p ≡ some g
    → q.groups ≡ insert group g' p.groups
    → stage_of g' ≡ stage_of g
    → Quiet p q
store-Quiet group g g' p q old new st k h e =
    elim (lookup-insert_cases group k g' h p.groups (ap (λ m. lookup k m) (sym new) ∙ e)) [
      | inl (same, stored) ↦ (g, rw (← same) old, rw stored st)
      | inr before ↦ (h, before, refl)
    ]

-- A state with the same groups.
pub Quiet-same : (p q : PersistentState) → q.groups ≡ p.groups → Quiet p q
Quiet-same p q same k h e = (h, ap (λ m. lookup k m) (sym same) ∙ e, refl)

acknowledge_group-stage :
    (a : Acknowledgement) (g g' : GroupState)
    → acknowledge_group a g ≡ ok (some g')
    → stage_of g' ≡ stage_of g
unfolding acknowledge_group put_acknowledgement
acknowledge_group-stage a g g' h = ground arith

-- A state that is left as it was, or in which one group is stored anew from an old one.
abbrev pub Written :
    Bytes → (GroupState → GroupState → Type 0) → PersistentState → PersistentState → Type 0
Written group Becomes p q =
    (q ≡ p)
    ⊎ ((g : GroupState) × (g' : GroupState) × (get_group group p ≡ some g)
        × Becomes g g'
        × (q.groups ≡ insert group g' p.groups))

acknowledge_cases :
    (now : ℕ) (saved : Bool) (a : Acknowledgement) (p : PersistentState)
    → Written a.group (λ g g'. stage_of g' ≡ stage_of g) p (acknowledge now saved a p).0
unfolding acknowledge
acknowledge_cases now saved a p =
    let dated = record a { observed_at = or_default now a.observed_at } in
    elim (Option-cases (get_group a.group p)) [
      | inl missing ↦ inl (rw (acknowledge, missing) refl)
      | inr (g, found) ↦ elim (Result-cases (acknowledge_group dated g)) [
        | inl (e, refused) ↦ inl (rw (acknowledge, found, refused) refl)
        | inr (o, taken) ↦ elim (Option-cases o) [
          | inl replayed ↦ inl (rw (acknowledge, found, taken, replayed) refl)
          | inr (g', changed) ↦ elim (Bool-cases saved) [
            | inl kept ↦ inr (
              g,
              g',
              found,
              acknowledge_group-stage dated g g' (taken ∙ ap ok changed),
              rw (acknowledge, found, taken, changed, kept) refl,
            )
            | inr lost ↦ inl (rw (acknowledge, found, taken, changed, lost) refl)
          ]
        ]
      ]
    ]

Quiet-of_Written :
    (group : Bytes) (p q : PersistentState)
    → Written group (λ g g'. stage_of g' ≡ stage_of g) p q
    → Quiet p q
Quiet-of_Written group p q (inl same) = Quiet-same p q (ap (λ r. r.groups) same)
Quiet-of_Written group p q (inr (g, g', found, stage, stored)) =
    store-Quiet group g g' p q found stored stage

pub acknowledge-Quiet :
    (now : ℕ) (saved : Bool) (a : Acknowledgement) (p : PersistentState)
    → Quiet p (acknowledge now saved a p).0
acknowledge-Quiet now saved a p =
    Quiet-of_Written a.group p (acknowledge now saved a p).0 (acknowledge_cases now saved a p)

pub deliver-Quiet : (ds : List Delivery) (p : PersistentState) → Quiet p (deliver ds p)
unfolding deliver
deliver-Quiet [] p = Quiet-refl p
deliver-Quiet (d ∷ ds) p =
    let q = (acknowledge d.now d.saved d.ack p).0 in
    Quiet-trans p q (deliver ds q) (acknowledge-Quiet d.now d.saved d.ack p) (deliver-Quiet ds q)

save_valid_membership-groups :
    (saved : Bool) (s : MembershipSnapshot) (p : PersistentState)
    → (save_valid_membership saved s p).0.groups ≡ p.groups
unfolding save_valid_membership
save_valid_membership-groups saved s p = ground arith

pub save_membership-groups :
    (parse : UrlParser) (saved : Bool) (s : MembershipSnapshot) (p : PersistentState)
    → (save_membership parse saved s p).0.groups ≡ p.groups
unfolding save_membership
save_membership-groups parse saved s p = ground (arith, save_valid_membership-groups saved s p)
