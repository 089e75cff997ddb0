-- ===== src/Tests/Bootstraps.antt =====
-- The theorems on the reconciler (control) at inputs that meet their hypotheses.
use solace_broker_autoscale.Control.Snapshot.{Phase, topic}
use solace_broker_autoscale.Control.Validate.{validate}
use solace_broker_autoscale.Control.Agreement.{
  Bootstrapping, Settled, finish_bootstrap-Settled, finish_bootstrap-agree,
}
use solace_broker_autoscale.Control.Bootstrap.{Inv, new_reconciler-Inv, run-Inv}
use solace_broker_autoscale.Control.Compare.{
  advance, advance_to_active, compare_snapshots, replay, same_current, snapshots_equal, stale,
  validate_advance, validate_routing_compatibility,
}
use solace_broker_autoscale.Control.Succession.{GivesWay}
use solace_broker_autoscale.Control.Advance.{compare-GivesWay_iff}
use solace_broker_autoscale.Control.Order.{compare-flip, compare-replay_iff}
use solace_broker_autoscale.Control.Progress.{Follows, apply_update-replay, run-Follows}
use solace_broker_autoscale.Control.Reconciler.{
  Call, Reconciler, absorb, absorb_all, apply_baseline, apply_update, begin_subscribe, call,
  finish_bootstrap, finishes, insert_sorted, install_baseline, installed, new_reconciler,
  offers_baseline, offers_update, run, sort_updates, store_baseline, store_update, subscribes,
}
use solace_broker_autoscale.Control.Snapshot.{MembershipSnapshot}
use solace_broker_autoscale.Control.Validate.{
  check_brokers, check_coverage, check_descriptors, check_resource, has_credentials,
  is_amqp_endpoint, resource_key, scan_resources, tally_resource, validate_broker_descriptors,
  validate_fields, validate_identifier, validate_membership, validate_name_component,
  validate_resources,
}
use solace_broker_autoscale.Prelude.{
  List, Memᴰ, [], bool_eq, false, list_eq, nat_eq, none, ok, option_eq, refl, some, true, ℕ, ◌↔◌,
  ◌∷◌, ◌≡◌, ◌⊎◌,
}
use solace_broker_autoscale.Text.{
  UrlParser, bytes, decode, decode_byte, first_byte, next_byte, runes,
}
use solace_broker_autoscale.Prelude.{int_eq, pair_eq}

-- A parser that reads every text as one AMQP address without credentials.
abbrev any_url : UrlParser
any_url text = some (record {
  scheme = bytes "amqp";
  host = bytes "h";
  has_user = false;
  path = [];
  raw_query = [];
  fragment = [];
})

-- An ACTIVE snapshot of one broker.
abbrev serving : ℕ → ℕ → MembershipSnapshot
serving revision epoch = record {
  version = 3;
  namespace = [];
  library_version = [];
  scaling_group = bytes "g";
  revision = revision;
  epoch = epoch;
  phase = Phase.active;
  hash_contract = bytes "h1";
  algorithm = bytes "r1";
  current_membership = bytes "a" ∷ [];
  proposed_membership = [];
  current_brokers = record { id = bytes "a"; endpoint = bytes "amqp://h" } ∷ [];
  proposed_brokers = [];
  transition = none;
  queue = record { name = bytes "q"; durable = true };
  destination = record { kind = topic; name = bytes "t" };
  current_resources =
      record {
        epoch = epoch;
        broker_id = bytes "a";
        consumer_set = bytes "c";
        queue_name = bytes "q1";
        ingress_topic = bytes "t";
      }
      ∷ [];
  proposed_resources = [];
}

abbrev start_up : List Call
start_up =
    subscribes
    ∷ offers_update (serving 9 3)
    ∷ offers_baseline (serving 7 3)
    ∷ offers_update (serving 8 3)
    ∷ finishes
    ∷ []

-- The buffered updates are taken in the order of their revisions.
started_up : installed (run any_url new_reconciler start_up) ≡ some (serving 9 3)
unfolding run call new_reconciler begin_subscribe apply_update apply_baseline finish_bootstrap
    install_baseline absorb_all absorb sort_updates insert_sorted store_update store_baseline
    installed compare_snapshots snapshots_equal validate_advance validate_routing_compatibility
    advance_to_active same_current validate validate_fields validate_identifier
    validate_name_component validate_membership check_brokers validate_broker_descriptors
    check_descriptors is_amqp_endpoint validate_resources scan_resources check_resource
    tally_resource resource_key check_coverage has_credentials runes decode decode_byte first_byte
    next_byte
started_up = refl

run-Inv_example : Inv any_url (run any_url new_reconciler start_up)
run-Inv_example = run-Inv any_url new_reconciler start_up (new_reconciler-Inv any_url)

run-Follows_example :
    (t : MembershipSnapshot) × (installed
        (run any_url (run any_url new_reconciler start_up) (offers_update (serving 12 5) ∷ []))
      ≡ some t)
    × Follows (serving 9 3) t
run-Follows_example =
    run-Follows any_url (run any_url new_reconciler start_up) (offers_update (serving 12 5) ∷ [])
      (serving 9 3) run-Inv_example started_up

apply_update-replay_example :
    apply_update any_url (serving 9 3) (run any_url new_reconciler start_up)
    ≡ (run any_url new_reconciler start_up, ok false)
apply_update-replay_example =
    apply_update-replay any_url (run any_url new_reconciler start_up) (serving 9 3) run-Inv_example
      started_up

-- A reconciler that has a baseline and two updates.
abbrev waiting : List MembershipSnapshot → Reconciler
waiting updates = record {
  started = true;
  ready = false;
  baseline = some (serving 7 3);
  buffered = updates;
  current = none;
  group = bytes "g";
}

abbrev one_way : List MembershipSnapshot
one_way = serving 8 3 ∷ serving 9 4 ∷ []

abbrev other_way : List MembershipSnapshot
other_way = serving 9 4 ∷ serving 8 3 ∷ []

waiting-Bootstrapping :
    (updates : List MembershipSnapshot) → Bootstrapping (waiting updates) (serving 7 3)
waiting-Bootstrapping updates = record { is_started = refl; not_ready = refl; held = refl }

module _ (u : MembershipSnapshot) where
  swap_ways : Memᴰ u one_way → Memᴰ u other_way
  swap_ways (Memᴰ.head e) = Memᴰ.tail (Memᴰ.head e)
  swap_ways (Memᴰ.tail (Memᴰ.head e)) = Memᴰ.head e
  swap_ways (Memᴰ.tail (Memᴰ.tail m)) = elim m [ ]

  swap_back : Memᴰ u other_way → Memᴰ u one_way
  swap_back (Memᴰ.head e) = Memᴰ.tail (Memᴰ.head e)
  swap_back (Memᴰ.tail (Memᴰ.head e)) = Memᴰ.head e
  swap_back (Memᴰ.tail (Memᴰ.tail m)) = elim m [ ]

finished_one_way : (finish_bootstrap (waiting one_way)).1 ≡ ok (serving 9 4)
unfolding finish_bootstrap install_baseline absorb_all absorb sort_updates insert_sorted
    compare_snapshots snapshots_equal validate_advance validate_routing_compatibility
    advance_to_active same_current
finished_one_way = refl

finished_other_way : (finish_bootstrap (waiting other_way)).1 ≡ ok (serving 9 4)
unfolding finish_bootstrap install_baseline absorb_all absorb sort_updates insert_sorted
    compare_snapshots snapshots_equal validate_advance validate_routing_compatibility
    advance_to_active same_current
finished_other_way = refl

finish_bootstrap-Settled_example :
    (installed (finish_bootstrap (waiting one_way)).0 ≡ some (serving 9 4))
    × ((serving 9 4 ≡ serving 7 3) ⊎ Memᴰ (serving 9 4) one_way)
    × Follows (serving 7 3) (serving 9 4)
    × ((u : MembershipSnapshot) → Memᴰ u one_way → Settled (serving 9 4) u)
finish_bootstrap-Settled_example =
    finish_bootstrap-Settled (waiting one_way) (serving 7 3) (serving 9 4)
      (waiting-Bootstrapping one_way) finished_one_way

finish_bootstrap-agree_example : serving 9 4 ≡ serving 9 4
finish_bootstrap-agree_example =
    finish_bootstrap-agree (waiting one_way) (waiting other_way) (serving 7 3) (serving 9 4)
      (serving 9 4) (waiting-Bootstrapping one_way) (waiting-Bootstrapping other_way)
      (λ u. (swap_ways u, swap_back u)) finished_one_way finished_other_way

compare-GivesWay_iff_example :
    (compare_snapshots (serving 7 3) (serving 9 4) ≡ ok advance)
    ↔ GivesWay (serving 7 3) (serving 9 4)
compare-GivesWay_iff_example = compare-GivesWay_iff (serving 7 3) (serving 9 4)

compare-replay_iff_example :
    (compare_snapshots (serving 7 3) (serving 7 3) ≡ ok replay) ↔ (serving 7 3 ≡ serving 7 3)
compare-replay_iff_example = compare-replay_iff (serving 7 3) (serving 7 3)

advanced : compare_snapshots (serving 7 3) (serving 9 4) ≡ ok advance
unfolding compare_snapshots snapshots_equal validate_advance validate_routing_compatibility
    advance_to_active same_current
advanced = refl

compare-flip_example : compare_snapshots (serving 9 4) (serving 7 3) ≡ ok stale
compare-flip_example = compare-flip (serving 7 3) (serving 9 4) advanced
