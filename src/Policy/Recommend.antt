-- ===== src/Policy/Recommend.antt =====
-- What a recommendation that `recommend` (policy/engine.go) marks eligible rests on.
use solace_broker_autoscale.Prelude.{Bool}
use solace_broker_autoscale.Policy.Assess.{
  GroupAssessment, broker_saturation, downstream_backlog, state_known,
}
use solace_broker_autoscale.Policy.Advice.{
  Recommendation, eligible_brokers, remove_broker, scale_in_group, scale_out_group,
}
use solace_broker_autoscale.Policy.Types.{
  Broker, GroupState, ScaleInChoice, count, eligible_for, floor,
}
use solace_broker_autoscale.Prelude.{
  All, Bool-cases, List, Memᴰ, [], arith, bool_eq, contains, difference, false, inl, inr, leb_ℤ,
  length-append, list_eq, ltb_ℤ, nat_eq, negsuc, not, option_eq, pair_eq, pos, refl, some, true, ℕ,
  ℤ, ◌&&◌, ◌++◌, ◌==◌, ◌∷◌, ◌≡◌, ◌≢◌, ◌⊎◌,
}
use solace_broker_autoscale.Text.{Bytes}
use solace_broker_autoscale.Policy.Advice.{Reason, scale_in, scale_out}
use solace_broker_autoscale.Prelude.{All-sort_by, all, sort_by}
use solace_broker_autoscale.Text.{bytes_lt}
use solace_broker_autoscale.Policy.Assess.{
  PressureKind, pressure_none, pressure_unknown, pressure_unset,
}
use solace_broker_autoscale.Policy.Advice.{
  by_pressure, first_eligible, scale_in_to, sustained, under_pressure,
}
use solace_broker_autoscale.Prelude.{if-both, ◌||◌}
use solace_broker_autoscale.Policy.Assess.{TelemetryState, state_stale, state_unknown, state_unset}
use solace_broker_autoscale.Policy.Advice.{below_floor, recommend}
use solace_broker_autoscale.Policy.Advice.{by_state, recommend_known, scale_in_by}
use solace_broker_autoscale.Prelude.{Option, none}
use solace_broker_autoscale.Prelude.{All-weaken}

-- The broker that `scaleOut` may add to the group.
pub record Candidate {V : Type 0} (g : GroupState V) (inventory : List Broker) (id : Bytes)
    : Type 0 where
  pub broker : Broker
  pub listed : Memᴰ broker inventory
  pub named : broker.id ≡ id
  pub eligible : eligible_for broker g.id ≡ true
  pub outside : contains g.membership id ≡ false

pub record Grows {V : Type 0} (g : GroupState V) (inventory : List Broker) (r : Recommendation)
    : Type 0 where
  pub of_group : r.group_id ≡ g.id
  pub current : r.current_membership ≡ g.membership
  pub action : r.action ≡ scale_out_group
  pub candidate : Candidate g inventory r.broker_id
  pub appended : r.proposed_membership ≡ g.membership ++ r.broker_id ∷ []
  pub at_most : leb_ℤ (count r.proposed_membership) g.policy.maximum_brokers ≡ true

pub record Shrinks {V : Type 0} (g : GroupState V) (r : Recommendation) : Type 0 where
  pub of_group : r.group_id ≡ g.id
  pub current : r.current_membership ≡ g.membership
  pub action : r.action ≡ scale_in_group
  pub choice : ScaleInChoice
  pub chosen : g.scale_in_choice ≡ some choice
  pub is_safe : choice.safe ≡ true
  pub named : r.broker_id ≡ choice.broker_id
  pub proof_kept : r.evidence ≡ choice.evidence
  pub removed : r.proposed_membership ≡ remove_broker g.membership choice.broker_id
  pub at_least : ltb_ℤ (count r.proposed_membership) (floor g.policy) ≡ false

-- A pressure window that has lasted long enough.
abbrev pub Sustained : {V : Type 0} → ℕ → GroupState V → GroupAssessment V → ℕ → Type 0
Sustained now g a since =
    (a.pressure ≡ broker_saturation)
    × ((since == 0) ≡ false)
    × (ltb_ℤ (difference now since) g.policy.pressure_window ≡ false)

-- Nothing in the group's own history stands against a change.
pub record Settled {V : Type 0} (now : ℕ) (g : GroupState V) (a : GroupAssessment V) : Type 0 where
  pub telemetry : a.state ≡ state_known
  pub below_limit : leb_ℤ g.policy.max_concurrent_changes g.active_transitions ≡ false
  pub idle : ltb_ℤ (pos 0) g.active_transitions ≡ false
  pub rested :
      (not (g.last_transition_at == 0)
        && ltb_ℤ (difference now g.last_transition_at) g.policy.cooldown)
      ≡ false

abbrev pub Cause : {V : Type 0} → ℕ → GroupState V → GroupAssessment V → ℕ → Type 0
Cause now g a since = (ltb_ℤ (count g.membership) (floor g.policy) ≡ true) ⊎ Sustained now g a since

abbrev pub Calm : {V : Type 0} → GroupAssessment V → Type 0
Calm a = (a.pressure ≢ broker_saturation) × (a.pressure ≢ downstream_backlog)

abbrev pub Change :
    {V : Type 0} → ℕ → GroupState V → GroupAssessment V → List Broker → ℕ → Recommendation → Type 0
Change now g a inventory since r =
    (Grows g inventory r × Cause now g a since) ⊎ (Shrinks g r × Calm a)

Candidate-of_more :
    {V : Type 0} (g : GroupState V) (b : Broker) (inventory : List Broker) (id : Bytes)
    → Candidate g inventory id
    → Candidate g (b ∷ inventory) id
Candidate-of_more g b inventory id c = record {
  broker = c.broker;
  listed = Memᴰ.tail c.listed;
  named = c.named;
  eligible = c.eligible;
  outside = c.outside;
}

eligible_brokers-Candidate :
    {V : Type 0} (g : GroupState V) (inventory : List Broker)
    → All (Candidate g inventory) (eligible_brokers g.membership g.id inventory)
unfolding eligible_brokers
eligible_brokers-Candidate g [] = tt
eligible_brokers-Candidate g (b ∷ rest) =
    let more =
      All-weaken (Candidate g rest) (Candidate g (b ∷ rest)) (Candidate-of_more g b rest)
        (eligible_brokers g.membership g.id rest) (eligible_brokers-Candidate g rest) in
    elim (Bool-cases (contains g.membership b.id)) [
      | inl inside ↦ rw inside more
      | inr outside ↦ elim (Bool-cases (eligible_for b g.id)) [
        | inr unfit ↦ rw (outside, unfit) more
        | inl fit ↦
            rw (outside, fit)
              (
                record {
                  broker = b;
                  listed = Memᴰ.head refl;
                  named = refl;
                  eligible = fit;
                  outside = outside;
                },
                more,
              )
      ]
    ]

count-append :
    (m : List Bytes) (id : Bytes) (top : ℤ)
    → leb_ℤ top (count m) ≡ false
    → leb_ℤ (count (m ++ id ∷ [])) top ≡ true
count-append m id (pos n) h = ground (arith, length-append m (id ∷ []))
count-append m id (negsuc n) h = ground (arith, length-append m (id ∷ []))

module _ {V : Type 0} (g : GroupState V) (a : GroupAssessment V) (inventory : List Broker) where
  first_eligible-Grows :
      (reason : Reason) (ids : List Bytes)
      → All (Candidate g inventory) ids
      → leb_ℤ g.policy.maximum_brokers (count g.membership) ≡ false
      → (first_eligible g a reason ids).1 ≡ true
      → Grows g inventory (first_eligible g a reason ids).0
  first_eligible-Grows reason [] all room h = cc
  first_eligible-Grows reason (id ∷ rest) all room h = record {
    of_group = refl;
    current = refl;
    action = refl;
    candidate = all.0;
    appended = refl;
    at_most = count-append g.membership id g.policy.maximum_brokers room;
  }

  abbrev SoundGrowth : Recommendation × Bool → Type 0
  SoundGrowth p = p.1 ≡ true → Grows g inventory p.0

  abbrev SoundShrinking : Recommendation × Bool → Type 0
  SoundShrinking p = p.1 ≡ true → Shrinks g p.0

  scale_out-Grows : (reason : Reason) → SoundGrowth (scale_out g a inventory reason)
  unfolding scale_out
  scale_out-Grows reason =
      let found = eligible_brokers g.membership g.id inventory in
      let fit = eligible_brokers-Candidate g inventory in
      if-both SoundGrowth (leb_ℤ g.policy.maximum_brokers (count g.membership)) (λ full h. cc)
        (λ room.
          first_eligible-Grows reason (sort_by bytes_lt found)
            (All-sort_by bytes_lt (Candidate g inventory) found fit) room)

  scale_in_to-Shrinks :
      (c : ScaleInChoice)
      → g.scale_in_choice ≡ some c
      → c.safe ≡ true
      → SoundShrinking (scale_in_to g a c (remove_broker g.membership c.broker_id))
  scale_in_to-Shrinks c chosen is_safe =
      let proposed = remove_broker g.membership c.broker_id in
      if-both SoundShrinking (ltb_ℤ (count proposed) (floor g.policy)) (λ below h. cc)
        (λ enough h. record {
          of_group = refl;
          current = refl;
          action = refl;
          choice = c;
          chosen = chosen;
          is_safe = is_safe;
          named = refl;
          proof_kept = refl;
          removed = refl;
          at_least = enough;
        })

  scale_in_by-Shrinks :
      (o : Option ScaleInChoice) → g.scale_in_choice ≡ o → SoundShrinking (scale_in_by g a o)
  scale_in_by-Shrinks none e = λ h. cc
  scale_in_by-Shrinks (some c) e =
      if-both SoundShrinking (not c.safe) (λ unsafe h. cc)
        (λ is_safe. scale_in_to-Shrinks c e (ground arith))

  scale_in-Shrinks : SoundShrinking (scale_in g a)
  unfolding scale_in
  scale_in-Shrinks =
      if-both SoundShrinking (leb_ℤ (count g.membership) (floor g.policy)) (λ at h. cc)
        (λ above. scale_in_by-Shrinks g.scale_in_choice refl)

module _ {V : Type 0} (now : ℕ) (g : GroupState V) (a : GroupAssessment V) (inventory : List Broker)
    (since : ℕ) where
  abbrev Sound : Recommendation × Bool → Type 0
  Sound p = p.1 ≡ true → Change now g a inventory since p.0

  under_pressure-Sound :
      a.pressure ≡ broker_saturation → Sound (under_pressure now g a inventory since)
  unfolding under_pressure
  under_pressure-Sound pressed =
      if-both Sound (since == 0 || ltb_ℤ (difference now since) g.policy.pressure_window)
        (λ short h. cc)
        (λ long.
          if-both Sound (leb_ℤ g.policy.maximum_brokers (count g.membership)) (λ full h. cc)
            (λ room h. inl (
              scale_out-Grows g a inventory sustained h,
              inr (pressed, ground arith, ground arith),
            )))

  Calm-Sound : Calm a → Sound (scale_in g a)
  Calm-Sound calm h = inr (scale_in-Shrinks g a inventory h, calm)

  by_pressure-Sound :
      (k : PressureKind) → a.pressure ≡ k → Sound (by_pressure now g a inventory since k)
  unfolding by_pressure
  by_pressure-Sound broker_saturation e = under_pressure-Sound e
  by_pressure-Sound downstream_backlog e = λ h. cc
  by_pressure-Sound pressure_none e = Calm-Sound ((λ p. cc), (λ p. cc))
  by_pressure-Sound pressure_unknown e = Calm-Sound ((λ p. cc), (λ p. cc))
  by_pressure-Sound pressure_unset e = Calm-Sound ((λ p. cc), (λ p. cc))

  settled :
      a.state ≡ state_known
      → leb_ℤ g.policy.max_concurrent_changes g.active_transitions ≡ false
      → ltb_ℤ (pos 0) g.active_transitions ≡ false
      → (not (g.last_transition_at == 0)
          && ltb_ℤ (difference now g.last_transition_at) g.policy.cooldown)
        ≡ false
      → Settled now g a
  settled k b i r = record { telemetry = k; below_limit = b; idle = i; rested = r }

  abbrev Justified : Recommendation × Bool → Type 0
  Justified p = p.1 ≡ true → Settled now g a × Change now g a inventory since p.0

  recommend_known-Justified :
      a.state ≡ state_known → Justified (recommend_known now g a inventory since)
  unfolding recommend_known
  recommend_known-Justified e =
      if-both Justified (leb_ℤ g.policy.max_concurrent_changes g.active_transitions) (λ c h. cc)
        (λ below_limit.
          if-both Justified (ltb_ℤ (pos 0) g.active_transitions) (λ c h. cc)
            (λ idle.
              if-both Justified
                (not (g.last_transition_at == 0)
                  && ltb_ℤ (difference now g.last_transition_at) g.policy.cooldown)
                (λ c h. cc)
                (λ rested.
                  if-both Justified (ltb_ℤ (count g.membership) (floor g.policy))
                    (λ few h. (
                      settled e below_limit idle rested,
                      inl (scale_out-Grows g a inventory below_floor h, inl few),
                    ))
                    (λ enough h.
                      (settled e below_limit idle rested, by_pressure-Sound a.pressure refl h)))))

  by_state-Justified :
      (k : TelemetryState) → a.state ≡ k → Justified (by_state now g a inventory since k)
  by_state-Justified state_known e = recommend_known-Justified e
  by_state-Justified state_stale e = λ h. cc
  by_state-Justified state_unknown e = λ h. cc
  by_state-Justified state_unset e = λ h. cc

  -- A recommendation marked eligible rests on known telemetry, a group below its limit with no
  -- transition and no cooldown, and either adds at the end a ready and eligible broker of the
  -- inventory within the maximum, for a group below its floor or under a pressure that has lasted the
  -- window, or removes the chosen broker, whose choice is proven safe, without going below the floor,
  -- when there is neither saturation nor a backlog.
  pub recommend-Justified : Justified (recommend now g a inventory since)
  unfolding recommend
  recommend-Justified = by_state-Justified a.state refl
