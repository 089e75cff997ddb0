-- ===== src/Control/Progress.antt =====
-- How the installed snapshot of a reconciler (control/reconciler.go) moves.
use solace_broker_autoscale.Control.Bootstrap.{Inv}
use solace_broker_autoscale.Control.Compare.{advance, compare_snapshots, replay, stale}
use solace_broker_autoscale.Control.Order.{compare-advance_guards}
use solace_broker_autoscale.Control.Reconciler.{
  Call, Reconciler, apply_baseline, apply_locked, apply_update, begin_subscribe, call,
  finish_bootstrap, finishes, installed, offer_baseline, offers_baseline, offers_update,
  store_baseline, store_update, subscribes,
}
use solace_broker_autoscale.Control.Snapshot.{MembershipSnapshot}
use solace_broker_autoscale.Prelude.{
  Result-cases, arith, bool_eq, false, inl, inr, list_eq, nat_eq, ok, option_eq, refl, some, true,
  ◌<◌, ◌≡◌, ◌≤◌, ◌⊎◌,
}
use solace_broker_autoscale.Text.{UrlParser}
use solace_broker_autoscale.Control.Bootstrap.{Owned}
use solace_broker_autoscale.Control.Order.{compare_refl}
use solace_broker_autoscale.Control.Reconciler.{claim_group}
use solace_broker_autoscale.Control.Snapshot.{
  descriptor_eq, destination_eq, kind_eq, phase_eq, queue_eq, resource_eq, transition_eq,
}
use solace_broker_autoscale.Prelude.{==_iff, is_empty}
use solace_broker_autoscale.Control.Bootstrap.{call-Inv}
use solace_broker_autoscale.Control.Reconciler.{run}
use solace_broker_autoscale.Prelude.{List, [], ◌∷◌}

-- The same snapshot, or one of a later revision and an epoch that is not lower.
abbrev pub Follows : MembershipSnapshot → MembershipSnapshot → Type 0
Follows s t = (s ≡ t) ⊎ ((s.revision < t.revision) × (s.epoch ≤ t.epoch))

pub Follows-trans : (s t u : MembershipSnapshot) → Follows s t → Follows t u → Follows s u
Follows-trans s t u (inl e) q = rw e q
Follows-trans s t u (inr p) (inl e) = rw (← e) (inr p)
Follows-trans s t u (inr p) (inr q) = inr (omega arith, omega arith)

pub Follows-advance : (s t : MembershipSnapshot) → compare_snapshots s t ≡ ok advance → Follows s t
Follows-advance s t h =
    let a = (compare-advance_guards s t).0 h in inr (a.revision_grows, a.epoch_kept)

-- What an update does to a reconciler that is ready, by the outcome of the comparison.
apply_locked-Follows :
    (r : Reconciler) (s u : MembershipSnapshot)
    → r.current ≡ some s
    → r.ready ≡ true
    → (t : MembershipSnapshot) × (installed (apply_locked r (some s) u).0 ≡ some t) × Follows s t
unfolding apply_locked installed
apply_locked-Follows r s u held now = elim (Result-cases (compare_snapshots s u)) [
  | inl (e, out) ↦ rw (out, apply_locked) (s, ground arith, inl refl)
  | inr (stale, out) ↦ rw (out, apply_locked) (s, ground arith, inl refl)
  | inr (replay, out) ↦ rw (out, apply_locked) (s, ground arith, inl refl)
  | inr (advance, out) ↦ rw (out, apply_locked) (u, ground arith, Follows-advance s u out)
]

module _ (parse : UrlParser) where
  record Installed (r : Reconciler) (s : MembershipSnapshot) : Type 0 where
    is_ready : r.ready ≡ true
    is_started : r.started ≡ true
    held : r.current ≡ some s
    owned : Owned parse r.group s
    claimed : is_empty r.group ≡ false

  Installed-of_installed :
      (r : Reconciler) (s : MembershipSnapshot) → Inv parse r → installed r ≡ some s → Installed r s
  unfolding installed
  Installed-of_installed r s v h = ground (arith, v.current_owned, v.unclaimed_empty)

  -- Only a snapshot of its own group passes, and its name is claimed already.
  claim_group-same :
      (r : Reconciler) (s : MembershipSnapshot) → is_empty r.group ≡ false → claim_group r s ≡ r
  claim_group-same r s h = rw h

  -- While the invariant holds, `ApplyUpdate` takes the installed snapshot without an error, reports
  -- no change and leaves the reconciler as it is.
  pub apply_update-replay :
      (r : Reconciler) (s : MembershipSnapshot)
      → Inv parse r
      → installed r ≡ some s
      → apply_update parse s r ≡ (r, ok false)
  unfolding apply_update installed store_update apply_locked
  apply_update-replay r s v h =
      let i = Installed-of_installed r s v h in
      ground
        (arith, i, claim_group-same r s i.claimed, compare_refl s, ==_iff s.scaling_group r.group)

  apply_update_cases :
      (r : Reconciler) (u s : MembershipSnapshot)
      → Installed r s
      → ((apply_update parse u r).0 ≡ r)
        ⊎ ((apply_update parse u r).0 ≡ (apply_locked r (some s) u).0)
  unfolding apply_update store_update
  apply_update_cases r u s i = ground (arith, claim_group-same r u i.claimed)

  apply_update-Follows :
      (r : Reconciler) (u s : MembershipSnapshot)
      → Installed r s
      → (t : MembershipSnapshot) × (installed (apply_update parse u r).0 ≡ some t) × Follows s t
  unfolding installed
  apply_update-Follows r u s i = elim (apply_update_cases r u s i) [
    | inl e ↦ rw e (s, ground arith, inl refl)
    | inr e ↦ rw e (apply_locked-Follows r s u i.held i.is_ready)
  ]

  pub call-Follows :
      (r : Reconciler) (c : Call) (s : MembershipSnapshot)
      → Inv parse r
      → installed r ≡ some s
      → (t : MembershipSnapshot) × (installed (call parse r c) ≡ some t) × Follows s t
  unfolding call installed begin_subscribe apply_baseline apply_update finish_bootstrap
      store_baseline offer_baseline store_update
  call-Follows r subscribes s v h = (s, ground arith, inl refl)
  call-Follows r finishes s v h = (s, ground arith, inl refl)
  call-Follows r (offers_baseline u) s v h = (s, ground arith, inl refl)
  call-Follows r (offers_update u) s v h =
      apply_update-Follows r u s (Installed-of_installed r s v h)

  -- While its invariant holds, a reconciler that has installed a snapshot has one installed after any
  -- further calls: the same one, or one of a later revision and of no earlier epoch.
  pub run-Follows :
      (r : Reconciler) (cs : List Call) (s : MembershipSnapshot)
      → Inv parse r
      → installed r ≡ some s
      → (t : MembershipSnapshot) × (installed (run parse r cs) ≡ some t) × Follows s t
  unfolding run
  run-Follows r [] s v h = (s, h, inl refl)
  run-Follows r (c ∷ cs) s v h =
      let (t, now, st) = call-Follows r c s v h in
      let (u, end, tu) = run-Follows (call parse r c) cs t (call-Inv parse r c v) now in
      (u, end, Follows-trans s t u st tu)
