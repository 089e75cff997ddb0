-- ===== src/Routing/Choice.antt =====
-- What `RendezvousBroker` (routing/membership.go) chooses, and how the choice depends on the
-- membership.
use solace_broker_autoscale.Text.Order.{
  bytes_lt_trans, bytes_lt_total, bytes_lt_asym, bytes_lt_irrefl,
}
use solace_broker_autoscale.Prelude.{
  ==_iff, Bool, arith, bool_eq, false, list_eq, nat_eq, option_eq, true, ◌&&◌, ◌==◌, ◌||◌, ◌≡◌, ◌⊎◌,
}
use solace_broker_autoscale.Text.{Bytes, bytes_lt}
use solace_broker_autoscale.Prelude.{
  All, List, Memᴰ, Option, Option-cases, [], contains, if◌then◌else◌, inl, inr, is_empty, ok, refl,
  some, sym, ◌∷◌,
}
use solace_broker_autoscale.Routing.Rendezvous.{choose, replaces}
use solace_broker_autoscale.Customer.Library.{RoutingHashPolicy}
use solace_broker_autoscale.Prelude.{All_lookup, Distinct}
use solace_broker_autoscale.Routing.Rendezvous.{no_score, rendezvous_broker, score_of}
use solace_broker_autoscale.Prelude.{◌↔◌}

-- A higher score, or the same score and a smaller name.
abbrev pub wins : Bytes → Bytes → Bytes → Bytes → Bool
wins s b t c = bytes_lt t s || (s == t && bytes_lt b c)

-- At least as good: the same candidate or a better one.
abbrev pub Best : Bytes → Bytes → Bytes → Bytes → Type 0
Best s b t c = ((s ≡ t) × (b ≡ c)) ⊎ (wins s b t c ≡ true)

wins_trans : (s b t c u d : Bytes) → wins s b t c ≡ true → wins t c u d ≡ true → wins s b u d ≡ true
wins_trans s b t c u d p q =
    ground (arith, ==_iff s t, ==_iff t u, ==_iff s u, bytes_lt_trans u t s, bytes_lt_trans b c d)

wins_asym : (s b t c : Bytes) → wins s b t c ≡ true → wins t c s b ≡ false
wins_asym s b t c p =
    ground (arith, ==_iff s t, ==_iff t s, bytes_lt_asym t s, bytes_lt_asym b c, bytes_lt_irrefl s)

wins_total : (s b t c : Bytes) → Best s b t c ⊎ (wins t c s b ≡ true)
wins_total s b t c = ground (arith, ==_iff s t, ==_iff t s, bytes_lt_total s t, bytes_lt_total b c)

Best-trans : (s b t c u d : Bytes) → Best s b t c → Best t c u d → Best s b u d
Best-trans s b t c u d (inl (e, f)) q = rw (e, f) q
Best-trans s b t c u d (inr p) (inl (e, f)) = rw (← e, ← f) (inr p)
Best-trans s b t c u d (inr p) (inr q) = inr (wins_trans s b t c u d p q)

-- Of two candidates that are at least as good as one another the names agree.
Best-antisym : (s b t c : Bytes) → Best s b t c → Best t c s b → b ≡ c
Best-antisym s b t c (inl (e, f)) q = f
Best-antisym s b t c (inr p) (inl (e, f)) = sym f
Best-antisym s b t c (inr p) (inr q) = let no = wins_asym s b t c p in cc

-- The better of a candidate and the one held.
keep_better :
    (s b hi sel : Bytes) (better : Bool)
    → is_empty sel ≡ false
    → replaces s b hi sel ≡ better
    → Best (if better then s else hi) (if better then b else sel) s b
      × Best (if better then s else hi) (if better then b else sel) hi sel
keep_better s b hi sel true full e = (inl (refl, refl), inr (ground arith))
keep_better s b hi sel false full e = elim (wins_total hi sel s b) [
  | inl fine ↦ (fine, inl (refl, refl))
  | inr over ↦ let same = ==_iff s hi in cc
]

kept_mem :
    (better : Bool) (x m sel : Bytes) (ms : List Bytes)
    → Memᴰ x ((if better then m else sel) ∷ ms)
    → Memᴰ x (sel ∷ m ∷ ms)
kept_mem true x m sel ms (Memᴰ.head e) = Memᴰ.tail (Memᴰ.head e)
kept_mem true x m sel ms (Memᴰ.tail r) = Memᴰ.tail (Memᴰ.tail r)
kept_mem false x m sel ms (Memᴰ.head e) = Memᴰ.head e
kept_mem false x m sel ms (Memᴰ.tail r) = Memᴰ.tail (Memᴰ.tail r)

module _ (score : Bytes → Option Bytes) where
  -- One round that does not fail.
  choose_round :
      (seen : List Bytes) (sel hi m : Bytes) (ms : List Bytes) (b : Bytes)
      → choose score seen sel hi (m ∷ ms) ≡ ok b
      → (is_empty m ≡ false)
        × (contains seen m ≡ false)
        × (s : Bytes) × (score m ≡ some s)
        × (choose score
              (m ∷ seen)
              (if replaces s m hi sel then m else sel)
              (if replaces s m hi sel then s else hi)
              ms
            ≡ ok b)
  unfolding choose
  choose_round seen sel hi m ms b h = elim (Option-cases (score m)) [
    | inl missing ↦ absurd (ground arith)
    | inr (s, found) ↦ (ground arith, ground arith, s, found, ground arith)
  ]

  -- The candidate `b` with score `h` is at least as good as each of a list.
  abbrev pub Beats : Bytes → Bytes → List Bytes → Type 0
  Beats h b ms = All (λ m. (s : Bytes) × (score m ≡ some s) × Best h b s m) ms

  choose-Best :
      (seen : List Bytes) (sel hi : Bytes) (ms : List Bytes) (b : Bytes)
      → is_empty sel ≡ false
      → score sel ≡ some hi
      → choose score seen sel hi ms ≡ ok b
      → (h : Bytes) × (score b ≡ some h) × Best h b hi sel × Memᴰ b (sel ∷ ms) × Beats h b ms
  unfolding choose
  choose-Best seen sel hi [] b full held e =
      let same : sel ≡ b = cc in
      (hi, rw (← same) held, inl (refl, sym same), Memᴰ.head (sym same), tt)
  choose-Best seen sel hi (m ∷ ms) b full held e =
      let (named, fresh, s, found, next) = choose_round seen sel hi m ms b e in
      let better = replaces s m hi sel in
      let (to_m, to_sel) = keep_better s m hi sel better full refl in
      let sel' = if better then m else sel in
      let hi' = if better then s else hi in
      let (h, top, best, mem, beats) =
        choose-Best (m ∷ seen) sel' hi' ms b (ground arith) (ground arith) next in
      (
        h,
        top,
        Best-trans h b hi' sel' hi sel best to_sel,
        kept_mem better b m sel ms mem,
        ((s, found, Best-trans h b hi' sel' s m best to_m), beats),
      )

  -- The first round takes the first broker.
  choose_first :
      (m : Bytes) (ms : List Bytes) (b : Bytes)
      → choose score [] [] no_score (m ∷ ms) ≡ ok b
      → (h : Bytes) × (score b ≡ some h) × Memᴰ b (m ∷ ms) × Beats h b (m ∷ ms)
  choose_first m ms b e =
      let (named, fresh, s, found, next) = choose_round [] [] no_score m ms b e in
      let (h, top, best, mem, beats) = choose-Best (m ∷ []) m s ms b named found next in
      (h, top, mem, ((s, found, best), beats))

-- A choice that succeeds is a broker of the membership that has a score, and each broker of the
-- membership has a lower score, or the same score and a greater name, or is the one chosen.
pub rendezvous_broker-best :
    (policy : RoutingHashPolicy) (group hash : Bytes) (membership : List Bytes) (b : Bytes)
    → rendezvous_broker (some policy) group hash membership ≡ ok b
    → (h : Bytes) × (score_of policy group hash b ≡ some h)
      × Memᴰ b membership
      × Beats (score_of policy group hash) h b membership
unfolding rendezvous_broker
rendezvous_broker-best policy group hash [] b e = absurd (ground arith)
rendezvous_broker-best policy group hash (m ∷ ms) b e =
    choose_first (score_of policy group hash) m ms b (ground arith)

-- Where a broker is chosen from a membership, and a choice is made from a part of that membership
-- which holds this broker, it is the same broker: taking other brokers away moves no key, and
-- neither does another order.
pub rendezvous_broker-stable :
    (policy : RoutingHashPolicy) (group hash : Bytes) (whole part : List Bytes) (b c : Bytes)
    → rendezvous_broker (some policy) group hash whole ≡ ok b
    → rendezvous_broker (some policy) group hash part ≡ ok c
    → ((m : Bytes) → Memᴰ m part → Memᴰ m whole)
    → Memᴰ b part
    → c ≡ b
rendezvous_broker-stable policy group hash whole part b c eb ec inside kept =
    let (h, top, mb, beats) = rendezvous_broker-best policy group hash whole b eb in
    let (k, best, mc, over) = rendezvous_broker-best policy group hash part c ec in
    let (s, found, first) =
      All_lookup (λ m. (s : Bytes) × (score_of policy group hash m ≡ some s) × Best h b s m) whole c
        beats (inside c mc) in
    let (t, held, second) =
      All_lookup (λ m. (s : Bytes) × (score_of policy group hash m ≡ some s) × Best k c s m) part b
        over kept in
    let sk : s ≡ k = cc in
    let th : t ≡ h = cc in Best-antisym k c h b (rw (← th) second) (rw (← sk) first)

-- The membership that `RendezvousBroker` accepts: no name is empty, none is repeated, and each has a
-- score.
pub record Accepted (score : Bytes → Option Bytes) (membership : List Bytes) : Type 0 where
  pub nonempty : is_empty membership ≡ false
  pub named : All (λ m. is_empty m ≡ false) membership
  pub distinct : Distinct membership
  pub all_scored : All (λ m. (s : Bytes) × (score m ≡ some s)) membership

not_seen_again :
    (seen : List Bytes) (m : Bytes) (ms : List Bytes)
    → contains ms m ≡ false
    → All (λ x. contains seen x ≡ false) ms
    → All (λ x. contains (m ∷ seen) x ≡ false) ms
not_seen_again seen m [] h f = tt
not_seen_again seen m (x ∷ ms) h (fx, f) =
    (ground (arith, ==_iff x m, ==_iff m x), not_seen_again seen m ms (ground arith) f)

seen_once :
    (seen : List Bytes) (m : Bytes) (ms : List Bytes)
    → All (λ x. contains (m ∷ seen) x ≡ false) ms
    → (contains ms m ≡ false) × All (λ x. contains seen x ≡ false) ms
seen_once seen m [] f = (refl, tt)
seen_once seen m (x ∷ ms) (fx, f) =
    let (later, old) = seen_once seen m ms f in
    (ground (arith, ==_iff x m, ==_iff m x), (ground arith, old))

module _ (score : Bytes → Option Bytes) where
  choose_total :
      (seen : List Bytes) (sel hi : Bytes) (ms : List Bytes)
      → All (λ m. is_empty m ≡ false) ms
      → All (λ m. (s : Bytes) × (score m ≡ some s)) ms
      → All (λ m. contains seen m ≡ false) ms
      → Distinct ms
      → (b : Bytes) × (choose score seen sel hi ms ≡ ok b)
  unfolding choose
  choose_total seen sel hi [] n s f d = (sel, refl)
  choose_total seen sel hi (m ∷ ms) (nm, n) ((sm, found), s) (fm, f) (dm, d) =
      let better = replaces sm m hi sel in
      let (b, e) =
        choose_total (m ∷ seen) (if better then m else sel) (if better then sm else hi) ms n s
          (not_seen_again seen m ms dm f) d in
      (b, rw (choose, nm, fm, found) e)

  choose_accepts :
      (seen : List Bytes) (sel hi : Bytes) (ms : List Bytes) (b : Bytes)
      → choose score seen sel hi ms ≡ ok b
      → All (λ m. is_empty m ≡ false) ms
        × All (λ m. (s : Bytes) × (score m ≡ some s)) ms
        × All (λ m. contains seen m ≡ false) ms
        × Distinct ms
  choose_accepts seen sel hi [] b e = (tt, tt, tt, tt)
  choose_accepts seen sel hi (m ∷ ms) b e =
      let (named, fresh, s, found, next) = choose_round score seen sel hi m ms b e in
      let (n, r, f, d) =
        choose_accepts (m ∷ seen) (if replaces s m hi sel then m else sel)
          (if replaces s m hi sel then s else hi) ms b next in
      let (once, old) = seen_once seen m ms f in
      ((named, n), ((s, found), r), (fresh, old), (once, d))

All-unseen : (ms : List Bytes) → All (λ x. contains {A = Bytes} [] x ≡ false) ms
All-unseen [] = tt
All-unseen (m ∷ ms) = (refl, All-unseen ms)

-- With a policy that names its algorithm, a broker is chosen exactly from a membership that is not
-- empty, whose names are not empty and not repeated, and each of which has a score.
pub rendezvous_broker-Accepted_iff :
    (policy : RoutingHashPolicy) (group hash : Bytes) (membership : List Bytes)
    → is_empty policy.routing_algorithm ≡ false
    → ((b : Bytes) × (rendezvous_broker (some policy) group hash membership ≡ ok b))
      ↔ Accepted (score_of policy group hash) membership
unfolding rendezvous_broker
rendezvous_broker-Accepted_iff policy group hash [] h =
    (λ p. absurd (ground arith), λ a. cc (a.nonempty))
rendezvous_broker-Accepted_iff policy group hash (m ∷ ms) h = (
  λ (b, e).
      let (n, s, f, d) =
        choose_accepts (score_of policy group hash) [] [] no_score (m ∷ ms) b (ground arith) in
      record { nonempty = refl; named = n; distinct = d; all_scored = s },
  λ a.
      let (b, e) =
        choose_total (score_of policy group hash) [] [] no_score (m ∷ ms) a.named a.all_scored
          (All-unseen (m ∷ ms)) a.distinct in
      (b, rw h e),
)
