-- ===== src/Control/Bootstrap.antt =====
-- What holds of a reconciler (control/reconciler.go) after any calls.
use solace_broker_autoscale.Control.Reconciler.{
  Reconciler, absorb, absorb_all, claim_group, insert_sorted, is_foreign, new_reconciler,
  sort_updates,
}
use solace_broker_autoscale.Control.Snapshot.{
  MembershipSnapshot, descriptor_eq, destination_eq, kind_eq, phase_eq, queue_eq, resource_eq,
  transition_eq,
}
use solace_broker_autoscale.Control.Validate.{validate}
use solace_broker_autoscale.Prelude.{
  ==_iff, >>=-eq-ok, All, Bool-cases, List, Option, [], arith, bool_eq, false, inl, inr, is_empty,
  list_eq, nat_eq, none, ok, option_eq, some, true, ◌∷◌, ◌≡◌, ◌≢◌,
}
use solace_broker_autoscale.Text.{Bytes, UrlParser}
use solace_broker_autoscale.Control.Reconciler.{
  apply_locked, finish_bootstrap, install_baseline, offer_baseline, store_baseline, store_update,
}
use solace_broker_autoscale.Control.Valid.{validate-split, validate_identifier-nonempty}
use solace_broker_autoscale.Prelude.{All-append}
use solace_broker_autoscale.Prelude.{Option-cases, Result-cases}
use solace_broker_autoscale.Control.Reconciler.{
  Call, apply_baseline, apply_update, begin_subscribe, call, finishes, offers_baseline,
  offers_update, run, subscribes,
}

module _ (parse : UrlParser) where
  -- A snapshot that passed validation and belongs to the group.
  pub record Owned (group : Bytes) (s : MembershipSnapshot) : Type 0 where
    pub sound : validate parse s ≡ none
    pub owner : s.scaling_group ≡ group

  abbrev pub OwnedOption : Bytes → Option MembershipSnapshot → Type 0
  OwnedOption group none = Unit
  OwnedOption group (some s) = Owned group s

  pub record Inv (r : Reconciler) : Type 0 where
    pub baseline_owned : OwnedOption r.group r.baseline
    pub buffered_owned : All (Owned r.group) r.buffered
    pub current_owned : OwnedOption r.group r.current
    pub ready_installed : r.ready ≡ true → r.current ≢ none
    pub waiting_hidden : r.ready ≡ false → r.current ≡ none
    pub unclaimed_empty :
        is_empty r.group ≡ true → (r.baseline ≡ none) × (r.buffered ≡ []) × (r.current ≡ none)
    pub unstarted_unready : r.started ≡ false → r.ready ≡ false

  pub new_reconciler-Inv : Inv new_reconciler
  unfolding new_reconciler
  new_reconciler-Inv = ground arith

  validate-group :
      (s : MembershipSnapshot) → validate parse s ≡ none → is_empty s.scaling_group ≡ false
  validate-group s h =
      validate_identifier-nonempty parse s.scaling_group (validate-split parse s h).0.group_fine

  claim_fresh-Inv :
      (r : Reconciler) (s : MembershipSnapshot)
      → Inv r
      → validate parse s ≡ none
      → is_empty r.group ≡ true
      → Inv (claim_group r s)
  claim_fresh-Inv r s v h e =
      let (no_baseline, no_buffer, no_current) = v.unclaimed_empty e in
      rw (e, no_baseline, no_buffer, no_current) (ground (arith, validate-group s h))

  claim_group-Inv :
      (r : Reconciler) (s : MembershipSnapshot)
      → Inv r
      → validate parse s ≡ none
      → is_foreign r s ≡ false
      → Inv (claim_group r s)
  claim_group-Inv r s v h f = elim (Bool-cases (is_empty r.group)) [
    | inl e ↦ claim_fresh-Inv r s v h e
    | inr e ↦ rw e v
  ]

  claim_group-owner :
      (r : Reconciler) (s : MembershipSnapshot)
      → is_foreign r s ≡ false
      → s.scaling_group ≡ (claim_group r s).group
  claim_group-owner r s f = ground (arith, ==_iff s.scaling_group r.group)

  All-insert_sorted :
      (g : Bytes) (s : MembershipSnapshot) (xs : List MembershipSnapshot)
      → Owned g s
      → All (Owned g) xs
      → All (Owned g) (insert_sorted s xs)
  unfolding insert_sorted
  All-insert_sorted g s [] o h = (o, tt)
  All-insert_sorted g s (t ∷ xs) o h = ground (arith, All-insert_sorted g s xs o h.1)

  All-sort_updates :
      (g : Bytes) (xs : List MembershipSnapshot)
      → All (Owned g) xs
      → All (Owned g) (sort_updates xs)
  unfolding sort_updates
  All-sort_updates g [] h = tt
  All-sort_updates g (s ∷ xs) h = All-insert_sorted g s _ h.0 (All-sort_updates g xs h.1)

  absorb-Owned :
      (g : Bytes) (s u t : MembershipSnapshot)
      → Owned g s
      → Owned g u
      → absorb s u ≡ ok t
      → Owned g t
  unfolding absorb
  absorb-Owned g s u t o p e = ground arith

  absorb_all-Owned :
      (g : Bytes) (s t : MembershipSnapshot) (us : List MembershipSnapshot)
      → Owned g s
      → All (Owned g) us
      → absorb_all s us ≡ ok t
      → Owned g t
  unfolding absorb_all
  absorb_all-Owned g s t [] o h e = ground arith
  absorb_all-Owned g s t (u ∷ us) o h e =
      let (next, e₁, e₂) = >>=-eq-ok (absorb s u) (λ n. absorb_all n us) e in
      absorb_all-Owned g next t us (absorb-Owned g s u next o h.0 e₁) h.1 e₂

  store_baseline-Inv :
      (r : Reconciler) (s : MembershipSnapshot)
      → Inv r
      → Owned r.group s
      → is_empty r.group ≡ false
      → Inv (store_baseline r s).0
  unfolding store_baseline offer_baseline
  store_baseline-Inv r s v o g = ground arith

  store_update-Inv :
      (r : Reconciler) (s : MembershipSnapshot)
      → Inv r
      → Owned r.group s
      → is_empty r.group ≡ false
      → Inv (store_update r s).0
  unfolding store_update apply_locked
  store_update-Inv r s v o g =
      ground (arith, All-append (Owned r.group) r.buffered (s ∷ []) v.buffered_owned (o, tt))

  install_baseline-Inv :
      (r : Reconciler) (start : MembershipSnapshot)
      → Inv r
      → r.baseline ≡ some start
      → r.started ≡ true
      → r.ready ≡ false
      → Inv (install_baseline r start).0
  unfolding install_baseline
  install_baseline-Inv r start v b st nr =
      elim (Result-cases (absorb_all start (sort_updates r.buffered))) [
        | inl (e, failed) ↦ rw (failed, install_baseline) (ground (arith, sorted))
        | inr (final, done) ↦
            rw (done, install_baseline)
              (ground (arith, absorb_all-Owned r.group start final _ first sorted done))
      ]
    where
      sorted : All (Owned r.group) (sort_updates r.buffered)
      sorted = All-sort_updates r.group r.buffered v.buffered_owned

      first : Owned r.group start
      first = ground (arith, v.baseline_owned)

  finish_bootstrap-Inv : (r : Reconciler) → Inv r → Inv (finish_bootstrap r).0
  unfolding finish_bootstrap
  finish_bootstrap-Inv r v = elim (Option-cases r.baseline) [
    | inl missing ↦ ground arith
    | inr (start, held) ↦ ground (arith, install_baseline-Inv r start v held)
  ]

  claim_group-nonempty :
      (r : Reconciler) (s : MembershipSnapshot)
      → validate parse s ≡ none
      → is_empty (claim_group r s).group ≡ false
  claim_group-nonempty r s h = ground (arith, validate-group s h)

  claimed-Owned :
      (r : Reconciler) (s : MembershipSnapshot)
      → validate parse s ≡ none
      → is_foreign r s ≡ false
      → Owned (claim_group r s).group s
  claimed-Owned r s h f = record { sound = h; owner = claim_group-owner r s f }

  accept_baseline-Inv :
      (r : Reconciler) (s : MembershipSnapshot)
      → Inv r
      → validate parse s ≡ none
      → is_foreign r s ≡ false
      → Inv (store_baseline (claim_group r s) s).0
  accept_baseline-Inv r s v h f =
      store_baseline-Inv (claim_group r s) s (claim_group-Inv r s v h f) (claimed-Owned r s h f)
        (claim_group-nonempty r s h)

  accept_update-Inv :
      (r : Reconciler) (s : MembershipSnapshot)
      → Inv r
      → validate parse s ≡ none
      → is_foreign r s ≡ false
      → Inv (store_update (claim_group r s) s).0
  accept_update-Inv r s v h f =
      store_update-Inv (claim_group r s) s (claim_group-Inv r s v h f) (claimed-Owned r s h f)
        (claim_group-nonempty r s h)

  -- A run of calls.
  pub call-Inv : (r : Reconciler) (c : Call) → Inv r → Inv (call parse r c)
  unfolding call begin_subscribe apply_baseline apply_update
  call-Inv r subscribes v = ground arith
  call-Inv r finishes v = finish_bootstrap-Inv r v
  call-Inv r (offers_baseline s) v = elim (Option-cases (validate parse s)) [
    | inl valid ↦ ground (arith, accept_baseline-Inv r s v valid)
    | inr (e, refused) ↦ ground arith
  ]
  call-Inv r (offers_update s) v = elim (Option-cases (validate parse s)) [
    | inl valid ↦ ground (arith, accept_update-Inv r s v valid)
    | inr (e, refused) ↦ ground arith
  ]

  -- No call breaks the invariant of a reconciler: all it holds is valid and of its own group, a
  -- snapshot is installed once it is ready and never before, it holds nothing while its group is
  -- unclaimed, and it is not ready unless it has started.
  pub run-Inv : (r : Reconciler) (cs : List Call) → Inv r → Inv (run parse r cs)
  unfolding run
  run-Inv r [] v = v
  run-Inv r (c ∷ cs) v = run-Inv (call parse r c) cs (call-Inv r c v)
