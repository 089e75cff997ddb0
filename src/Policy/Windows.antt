-- ===== src/Policy/Windows.antt =====
-- The pressure windows of policy/engine.go: what a cycle makes of each, and which maps of windows
-- `RestoreState` accepts.
use solace_broker_autoscale.Prelude.{Bool}
use solace_broker_autoscale.Policy.Aggregate.{Aggregation, group_ids}
use solace_broker_autoscale.Policy.Engine.{
  group_assessment, is_fresh, next_window, saturated, step_window, step_windows,
}
use solace_broker_autoscale.Policy.Types.{Floats, GroupState}
use solace_broker_autoscale.Prelude.{
  ==_iff, ==_refl, Bool-cases, Distinct, List, Map, Memᴰ, Option, Option-cases, [], arith, bool_eq,
  contains, false, if◌then◌else◌, inl, inr, list_eq, lookup, lookup-delete, lookup-insert, nat_eq,
  none, option_eq, pair_eq, refl, some, true, ℕ, ◌&&◌, ◌==◌, ◌∙◌, ◌∷◌, ◌≡◌,
}
use solace_broker_autoscale.Text.{Bytes}
use solace_broker_autoscale.Policy.Engine.{check_windows}
use solace_broker_autoscale.Prelude.{
  All, ap, contains-map, delete, if-both, insert, is_empty, ltb, ◌||◌, ◌≤◌,
}
use solace_broker_autoscale.Policy.Engine.{Engine, check_state, restore_state, state}
use solace_broker_autoscale.Policy.Engine.{EngineState, restore_checked}
use solace_broker_autoscale.Outbox.Lanes.{present}
use solace_broker_autoscale.Prelude.{contains_apart}

-- A window starts or goes on with a fresh cycle of saturation, and ends otherwise.
abbrev pub new_window : ℕ → Bool → Option ℕ → Option ℕ
new_window now true none = some now
new_window now true (some since) = some since
new_window now false old = none

lookup-next_window :
    (now : ℕ) (id j : Bytes) (fresh : Bool) (m : Map Bytes ℕ)
    → lookup j (next_window now id fresh m)
      ≡ (if id == j then new_window now fresh (lookup id m) else lookup j m)
lookup-next_window now id j fresh m = elim (Option-cases (lookup id m)) [
  | inl missing ↦ rw missing (ground (arith, missing, lookup-insert id j now m, ==_iff id j))
  | inr (since, present) ↦ rw present (ground (arith, present, lookup-delete id j m, ==_iff id j))
]

module _ {V : Type 0} (N : Floats V) (now last : ℕ) (result : Aggregation V) where
  -- The group's broker resources are saturated, and the evidence is new.
  abbrev pub is_pressed : GroupState V → Bool
  is_pressed g = saturated (group_assessment N result.groups g.id) && is_fresh N last result g

  lookup-step_window :
      (g : GroupState V) (j : Bytes) (m : Map Bytes ℕ)
      → lookup j (step_window N now last result g m)
        ≡ (if g.id == j then new_window now (is_pressed g) (lookup g.id m) else lookup j m)
  unfolding step_window
  lookup-step_window g j m = elim (Bool-cases (saturated (group_assessment N result.groups g.id))) [
    | inl s ↦ rw s (lookup-next_window now g.id j (is_fresh N last result g) m)
    | inr s ↦ rw s (lookup-delete g.id j m)
  ]

  -- A group that is not in the cycle keeps its window.
  pub step_windows_unlisted :
      (gs : List (GroupState V)) (j : Bytes) (m : Map Bytes ℕ)
      → contains (group_ids gs) j ≡ false
      → lookup j (step_windows N now last result gs m) ≡ lookup j m
  unfolding step_windows
  step_windows_unlisted [] j m h = refl
  step_windows_unlisted (g ∷ rest) j m h =
      let one = lookup-step_window g j m in
      let more = step_windows_unlisted rest j (step_window N now last result g m) (ground arith) in
      more ∙ ground arith

  -- The window of a group after a cycle with groups of distinct names: it starts at the cycle's time
  -- or goes on when the group is under pressure with new evidence, and is gone otherwise.
  pub step_windows-Memᴰ :
      (gs : List (GroupState V)) (g : GroupState V) (m : Map Bytes ℕ)
      → Distinct (group_ids gs)
      → Memᴰ g gs
      → lookup g.id (step_windows N now last result gs m)
        ≡ new_window now (is_pressed g) (lookup g.id m)
  unfolding step_windows
  step_windows-Memᴰ [] g m d at = elim at [ ]
  step_windows-Memᴰ (h ∷ rest) g m (new, d) (Memᴰ.head e) = rw e (
      step_windows_unlisted rest h.id (step_window N now last result h m) new
      ∙ (lookup-step_window h h.id m ∙ ground (arith, ==_refl h.id)))
  step_windows-Memᴰ (h ∷ rest) g m (new, d) (Memᴰ.tail at) =
      let one = lookup-step_window h g.id m in
      let more = step_windows-Memᴰ rest g (step_window N now last result h m) d at in
      more
      ∙ ap (new_window now (is_pressed g)) (
          one
          ∙ rw (contains_apart h.id g.id (group_ids rest) new (contains-map (λ x. x.id) rest g at))
              refl)

-- The maps of windows that `RestoreState` accepts.
module _ (last : ℕ) where
  check_windows-insert :
      (id : Bytes) (since : ℕ) (m : Map Bytes ℕ)
      → (is_empty id || since == 0 || ltb last since) ≡ false
      → check_windows last m ≡ none
      → check_windows last (insert id since m) ≡ none
  unfolding check_windows
  check_windows-insert id since [] h v = ground arith
  check_windows-insert id since ((j, s) ∷ m) h v = ground (arith, check_windows-insert id since m h)

  check_windows-delete :
      (id : Bytes) (m : Map Bytes ℕ)
      → check_windows last m ≡ none
      → check_windows last (delete id m) ≡ none
  unfolding check_windows
  check_windows-delete id [] v = v
  check_windows-delete id ((j, s) ∷ m) v = ground (arith, check_windows-delete id m)

pub check_windows-later :
    (last now : ℕ) (m : Map Bytes ℕ)
    → last ≤ now
    → check_windows last m ≡ none
    → check_windows now m ≡ none
unfolding check_windows
check_windows-later last now [] h v = refl
check_windows-later last now ((j, s) ∷ m) h v = ground (arith, check_windows-later last now m h)

check_windows-next_window :
    (now : ℕ) (id : Bytes) (fresh : Bool) (m : Map Bytes ℕ)
    → (is_empty id || now == 0) ≡ false
    → check_windows now m ≡ none
    → check_windows now (next_window now id fresh m) ≡ none
check_windows-next_window now id true m h v = elim (Option-cases (lookup id m)) [
  | inl missing ↦ rw (missing, next_window) (check_windows-insert now id now m (ground arith) v)
  | inr (since, present) ↦ rw (present, next_window) v
]
check_windows-next_window now id false m h v = elim (Option-cases (lookup id m)) [
  | inl missing ↦ rw (missing, next_window) v
  | inr (since, present) ↦ rw (present, next_window) (check_windows-delete now id m v)
]

pub check_windows-step_windows :
    {V : Type 0} (N : Floats V) (now last : ℕ) (result : Aggregation V) (gs : List (GroupState V))
    (m : Map Bytes ℕ)
    → (now == 0) ≡ false
    → All (λ g. is_empty g.id ≡ false) gs
    → check_windows now m ≡ none
    → check_windows now (step_windows N now last result gs m) ≡ none
unfolding step_windows step_window
check_windows-step_windows N now last result [] m n h v = v
check_windows-step_windows N now last result (g ∷ rest) m n (h, more) v =
    check_windows-step_windows N now last result rest (step_window N now last result g m) n more (
      if-both (λ w. check_windows now w ≡ none) (saturated (group_assessment N result.groups g.id))
        (λ s. check_windows-next_window now g.id (is_fresh N last result g) m (ground arith) v)
        (λ s. check_windows-delete now g.id m v))

check_state-none :
    (s : EngineState) (now : ℕ)
    → (s.last_evaluated_at == 0) ≡ false
    → s.last_evaluated_at ≤ now
    → check_windows s.last_evaluated_at s.pressure_since ≡ none
    → check_state s now ≡ none
unfolding check_state
check_state-none s now nonzero h valid = ground (arith, nonzero, h, valid)

pub restore_state-ok :
    {V : Type 0} (other after : Engine V) (now : ℕ)
    → (after.last_at == 0) ≡ false
    → after.last_at ≤ now
    → check_windows after.last_at after.pressure ≡ none
    → restore_state other (state after) now
      ≡ (record other { pressure = after.pressure; last_at = after.last_at }, none)
unfolding restore_state state
restore_state-ok other after now nonzero h valid =
    ap (restore_checked other (state after)) (check_state-none (state after) now nonzero h valid)
