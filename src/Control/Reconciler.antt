-- ===== src/Control/Reconciler.antt =====
-- control/reconciler.go: the subscribe-first bootstrap. Each operation returns the state that it
-- leaves, on an error too. `Clone` copies values, so a snapshot here is its own copy; the lock
-- makes each operation one step.
use solace_broker_autoscale.Control.Compare.{advance, compare_snapshots, replay, stale}
use solace_broker_autoscale.Control.Snapshot.{
  MembershipSnapshot, descriptor_eq, destination_eq, kind_eq, phase_eq, queue_eq, resource_eq,
  transition_eq,
}
use solace_broker_autoscale.Control.Validate.{
  Error, already_started, baseline_finished, group_changed, nil_dereference, not_subscribed,
  snapshot_required, stale_update, validate,
}
use solace_broker_autoscale.Prelude.{
  Bool, List, Option, Result, [], bool_eq, err, fails, false, if◌then◌else◌, is_empty, list_eq, ltb,
  nat_eq, none, not, ok, option_eq, some, true, ◌&&◌, ◌++◌, ◌==◌, ◌>>=◌, ◌∷◌,
}
use solace_broker_autoscale.Text.{Bytes, UrlParser}

pub record Reconciler : Type 0 where
  pub started : Bool
  pub ready : Bool
  pub baseline : Option MembershipSnapshot
  pub buffered : List MembershipSnapshot
  pub current : Option MembershipSnapshot
  pub group : Bytes

unfoldable pub new_reconciler : Reconciler
new_reconciler = record {
  started = false;
  ready = false;
  baseline = none;
  buffered = [];
  current = none;
  group = [];
}

unfoldable pub begin_subscribe : Reconciler → Reconciler × Option Error
begin_subscribe r =
    if r.started then (r, some already_started) else (record r { started = true }, none)

-- `r.group != "" && snapshot.ScalingGroup != r.group`.
abbrev pub is_foreign : Reconciler → MembershipSnapshot → Bool
is_foreign r s = not (is_empty r.group) && not (s.scaling_group == r.group)

abbrev pub claim_group : Reconciler → MembershipSnapshot → Reconciler
claim_group r s = record r { group = if is_empty r.group then s.scaling_group else r.group }

-- A further baseline against the first one.
unfoldable pub offer_baseline :
    Reconciler → MembershipSnapshot → MembershipSnapshot → Reconciler × Option Error
offer_baseline r held s = elim (compare_snapshots held s) [
  | err e ↦ (r, some e)
  | ok advance ↦ (record r { baseline = some s }, none)
  | ok replay ↦ (r, none)
  | ok stale ↦ (r, fails (ltb held.revision s.revision) stale_update)
]

unfoldable pub store_baseline : Reconciler → MembershipSnapshot → Reconciler × Option Error
store_baseline r s = if r.ready then (r, some baseline_finished) else elim r.baseline [
  | none ↦ (record r { baseline = some s }, none)
  | some held ↦ offer_baseline r held s
]

-- `applyLocked`, on the snapshot installed.
unfoldable pub apply_locked :
    Reconciler → Option MembershipSnapshot → MembershipSnapshot → Reconciler × Result Error Bool
apply_locked r none s = (r, err nil_dereference)
apply_locked r (some installed) s = elim (compare_snapshots installed s) [
  | err e ↦ (r, err e)
  | ok stale ↦ (r, err stale_update)
  | ok replay ↦ (r, ok false)
  | ok advance ↦ (record r { current = some s }, ok true)
]

unfoldable pub store_update : Reconciler → MembershipSnapshot → Reconciler × Result Error Bool
store_update r s =
    if r.ready
    then apply_locked r r.current s
    else (record r { buffered = r.buffered ++ s ∷ [] }, ok false)

-- The order of `sort.SliceStable`: by revision, then by epoch.
abbrev pub comes_before : MembershipSnapshot → MembershipSnapshot → Bool
comes_before a b =
    if a.revision == b.revision then ltb a.epoch b.epoch else ltb a.revision b.revision

unfoldable pub insert_sorted :
    MembershipSnapshot → List MembershipSnapshot → List MembershipSnapshot
insert_sorted s [] = s ∷ []
insert_sorted s (t ∷ rest) = if comes_before t s then t ∷ insert_sorted s rest else s ∷ t ∷ rest

unfoldable pub sort_updates : List MembershipSnapshot → List MembershipSnapshot
sort_updates [] = []
sort_updates (s ∷ rest) = insert_sorted s (sort_updates rest)

-- One buffered update against the snapshot reached so far.
unfoldable pub absorb : MembershipSnapshot → MembershipSnapshot → Result Error MembershipSnapshot
absorb reached update = elim (compare_snapshots reached update) [
  | err e ↦ err e
  | ok stale ↦ if ltb reached.revision update.revision then err stale_update else ok reached
  | ok replay ↦ ok reached
  | ok advance ↦ ok update
]

unfoldable pub absorb_all :
    MembershipSnapshot → List MembershipSnapshot → Result Error MembershipSnapshot
absorb_all reached [] = ok reached
absorb_all reached (update ∷ rest) = absorb reached update >>= λ next. absorb_all next rest

unfoldable pub install_baseline :
    Reconciler → MembershipSnapshot → Reconciler × Result Error MembershipSnapshot
install_baseline r start =
    let updates = sort_updates r.buffered in
    elim (absorb_all start updates) [
      | err e ↦ (record r { buffered = updates; current = none }, err e)
      | ok final ↦ (
        record r { ready = true; baseline = none; buffered = []; current = some final },
        ok final,
      )
    ]

abbrev installed_or_nil : Option MembershipSnapshot → Result Error MembershipSnapshot
installed_or_nil none = err nil_dereference
installed_or_nil (some s) = ok s

unfoldable pub finish_bootstrap : Reconciler → Reconciler × Result Error MembershipSnapshot
finish_bootstrap r =
    if not r.started
    then (r, err not_subscribed)
    else if r.ready
    then (r, installed_or_nil r.current)
    else elim r.baseline [
      | none ↦ (r, err snapshot_required)
      | some start ↦ install_baseline r start
    ]

-- `Snapshot`.
unfoldable pub installed : Reconciler → Option MembershipSnapshot
installed r = if r.ready then r.current else none

-- What a client calls.
pub data Call : Type 0 where
  subscribes finishes : Call
  offers_baseline offers_update : MembershipSnapshot → Call

module _ (parse : UrlParser) where
  unfoldable pub apply_baseline : MembershipSnapshot → Reconciler → Reconciler × Option Error
  apply_baseline s r = elim (validate parse s) [
    | some e ↦ (r, some e)
    | none ↦
        if not r.started
        then (r, some not_subscribed)
        else if is_foreign r s
        then (r, some group_changed)
        else store_baseline (claim_group r s) s
  ]

  unfoldable pub apply_update : MembershipSnapshot → Reconciler → Reconciler × Result Error Bool
  apply_update s r = elim (validate parse s) [
    | some e ↦ (r, err e)
    | none ↦
        if not r.started
        then (r, err not_subscribed)
        else if is_foreign r s
        then (r, err group_changed)
        else store_update (claim_group r s) s
  ]

  unfoldable pub call : Reconciler → Call → Reconciler
  call r subscribes = (begin_subscribe r).0
  call r finishes = (finish_bootstrap r).0
  call r (offers_baseline s) = (apply_baseline s r).0
  call r (offers_update s) = (apply_update s r).0

  unfoldable pub run : Reconciler → List Call → Reconciler
  run r [] = r
  run r (c ∷ cs) = run (call r c) cs
