-- ===== src/Control/Agreement.antt =====
-- What `FinishBootstrap` (control/reconciler.go) installs, whatever order the updates came in.
use solace_broker_autoscale.Control.Compare.{advance, compare_snapshots, replay, stale}
use solace_broker_autoscale.Control.Order.{compare-replay_iff}
use solace_broker_autoscale.Control.Progress.{Follows, Follows-advance, Follows-trans}
use solace_broker_autoscale.Control.Reconciler.{
  Reconciler, absorb, absorb_all, comes_before, finish_bootstrap, insert_sorted, install_baseline,
  installed, sort_updates,
}
use solace_broker_autoscale.Control.Snapshot.{MembershipSnapshot}
use solace_broker_autoscale.Prelude.{
  >>=-eq-ok, All, All_lookup, Bool-cases, List, Memᴰ, Result-cases, [], arith, bool_eq, false, inl,
  inr, list_eq, ltb, nat_eq, ok, option_eq, some, sym, true, ◌<◌, ◌↔◌, ◌∙◌, ◌∷◌, ◌≡◌, ◌⊎◌,
}

-- The update is the snapshot itself, or of an earlier revision.
abbrev pub Settled : MembershipSnapshot → MembershipSnapshot → Type 0
Settled s u = (u ≡ s) ⊎ (u.revision < s.revision)

Settled-Follows : (s t u : MembershipSnapshot) → Settled s u → Follows s t → Settled t u
Settled-Follows s t u (inl e) (inl f) = inl (e ∙ f)
Settled-Follows s t u (inl e) (inr f) = inr (rw e f.0)
Settled-Follows s t u (inr l) (inl f) = inr (rw (← f) l)
Settled-Follows s t u (inr l) (inr f) = inr (omega arith)

Follows-Settled : (s t : MembershipSnapshot) → Follows s t → Settled t s
Follows-Settled s t (inl e) = inl e
Follows-Settled s t (inr l) = inr l.0

absorb-Follows : (s u t : MembershipSnapshot) → absorb s u ≡ ok t → Follows s t
unfolding absorb
absorb-Follows s u t h = elim (Result-cases (compare_snapshots s u)) [
  | inl (e, out) ↦ ground arith
  | inr (stale, out) ↦ inl (ground arith)
  | inr (replay, out) ↦ inl (ground arith)
  | inr (advance, out) ↦ (let e : u ≡ t = ground arith in rw (← e) (Follows-advance s u out))
]

stale_earlier :
    (s u : MembershipSnapshot)
    → compare_snapshots s u ≡ ok stale
    → ltb s.revision u.revision ≡ false
    → u.revision < s.revision
unfolding compare_snapshots
stale_earlier s u h l = ground arith

absorb-Settled : (s u t : MembershipSnapshot) → absorb s u ≡ ok t → Settled t u
unfolding absorb
absorb-Settled s u t h = elim (Result-cases (compare_snapshots s u)) [
  | inl (e, out) ↦ ground arith
  | inr (stale, out) ↦ ground (arith, stale_earlier s u out)
  | inr (replay, out) ↦
      inl (sym ((compare-replay_iff s u).0 out) ∙ (let e : s ≡ t = ground arith in e))
  | inr (advance, out) ↦ inl (ground arith)
]

absorb-source : (s u t : MembershipSnapshot) → absorb s u ≡ ok t → (t ≡ s) ⊎ (t ≡ u)
unfolding absorb
absorb-source s u t h = ground arith

absorb_all-Follows :
    (s t : MembershipSnapshot) (us : List MembershipSnapshot) → absorb_all s us ≡ ok t → Follows s t
unfolding absorb_all
absorb_all-Follows s t [] h = inl (ground arith)
absorb_all-Follows s t (u ∷ us) h =
    let (n, e₁, e₂) = >>=-eq-ok (absorb s u) (λ n. absorb_all n us) h in
    Follows-trans s n t (absorb-Follows s u n e₁) (absorb_all-Follows n t us e₂)

absorb_all-Settled :
    (s t : MembershipSnapshot) (us : List MembershipSnapshot)
    → absorb_all s us ≡ ok t
    → All (Settled t) us
unfolding absorb_all
absorb_all-Settled s t [] h = tt
absorb_all-Settled s t (u ∷ us) h =
    let (n, e₁, e₂) = >>=-eq-ok (absorb s u) (λ n. absorb_all n us) h in
    (
      Settled-Follows n t u (absorb-Settled s u n e₁) (absorb_all-Follows n t us e₂),
      absorb_all-Settled n t us e₂,
    )

absorb_all-source :
    (s t : MembershipSnapshot) (us : List MembershipSnapshot)
    → absorb_all s us ≡ ok t
    → (t ≡ s) ⊎ Memᴰ t us
unfolding absorb_all
absorb_all-source s t [] h = inl (ground arith)
absorb_all-source s t (u ∷ us) h =
    let (n, e₁, e₂) = >>=-eq-ok (absorb s u) (λ n. absorb_all n us) h in
    elim (absorb_all-source n t us e₂) [
      | inr later ↦ inr (Memᴰ.tail later)
      | inl here ↦ elim (absorb-source s u n e₁) [
        | inl kept ↦ inl (here ∙ kept)
        | inr taken ↦ inr (Memᴰ.head (here ∙ taken))
      ]
    ]

-- Sorting keeps the updates.
cons_map :
    (a t : MembershipSnapshot) {xs : List MembershipSnapshot} (ys : List MembershipSnapshot)
    → (Memᴰ a xs → Memᴰ a ys)
    → Memᴰ a (t ∷ xs)
    → Memᴰ a (t ∷ ys)
cons_map a t ys f (Memᴰ.head e) = Memᴰ.head e
cons_map a t ys f (Memᴰ.tail m) = Memᴰ.tail (f m)

swap_head :
    (a s t : MembershipSnapshot) (xs : List MembershipSnapshot)
    → Memᴰ a (s ∷ t ∷ xs)
    → Memᴰ a (t ∷ s ∷ xs)
swap_head a s t xs (Memᴰ.head e) = Memᴰ.tail (Memᴰ.head e)
swap_head a s t xs (Memᴰ.tail (Memᴰ.head e)) = Memᴰ.head e
swap_head a s t xs (Memᴰ.tail (Memᴰ.tail m)) = Memᴰ.tail (Memᴰ.tail m)

mem-insert_sorted_iff :
    (a s : MembershipSnapshot) (xs : List MembershipSnapshot)
    → Memᴰ a (insert_sorted s xs) ↔ Memᴰ a (s ∷ xs)
unfolding insert_sorted
mem-insert_sorted_iff a s [] = (λ m. m, λ m. m)
mem-insert_sorted_iff a s (t ∷ xs) = elim (Bool-cases (comes_before t s)) [
  | inl before ↦ rw before (
    λ m. swap_head a t s xs (cons_map a t (s ∷ xs) (mem-insert_sorted_iff a s xs).0 m),
    λ m. cons_map a t (insert_sorted s xs) (mem-insert_sorted_iff a s xs).1 (swap_head a s t xs m),
  )
  | inr after ↦ rw after (λ m. m, λ m. m)
]

mem-sort_updates_iff :
    (a : MembershipSnapshot) (xs : List MembershipSnapshot) → Memᴰ a (sort_updates xs) ↔ Memᴰ a xs
unfolding sort_updates
mem-sort_updates_iff a [] = (λ m. m, λ m. m)
mem-sort_updates_iff a (s ∷ xs) =
    let i = mem-insert_sorted_iff a s (sort_updates xs) in
    let j = mem-sort_updates_iff a xs in
    (λ m. cons_map a s xs j.0 (i.0 m), λ m. i.1 (cons_map a s (sort_updates xs) j.1 m))

-- A bootstrap that is about to finish.
pub record Bootstrapping (r : Reconciler) (start : MembershipSnapshot) : Type 0 where
  pub is_started : r.started ≡ true
  pub not_ready : r.ready ≡ false
  pub held : r.baseline ≡ some start

finish_absorbs :
    (r : Reconciler) (start s : MembershipSnapshot)
    → Bootstrapping r start
    → (finish_bootstrap r).1 ≡ ok s
    → absorb_all start (sort_updates r.buffered) ≡ ok s
unfolding finish_bootstrap install_baseline
finish_absorbs r start s b h = ground arith

-- A `FinishBootstrap` that succeeds on a started, unready reconciler with a baseline installs what
-- it returns: the baseline or one of the buffered updates. It is the baseline or of a later revision
-- and no earlier epoch, and each buffered update is that snapshot or of an earlier revision.
pub finish_bootstrap-Settled :
    (r : Reconciler) (start s : MembershipSnapshot)
    → Bootstrapping r start
    → (finish_bootstrap r).1 ≡ ok s
    → (installed (finish_bootstrap r).0 ≡ some s)
      × ((s ≡ start) ⊎ Memᴰ s r.buffered)
      × Follows start s
      × ((u : MembershipSnapshot) → Memᴰ u r.buffered → Settled s u)
unfolding finish_bootstrap install_baseline installed
finish_bootstrap-Settled r start s b h =
    let done = finish_absorbs r start s b h in
    (
      ground arith,
      elim (absorb_all-source start s (sort_updates r.buffered) done) [
        | inl e ↦ inl e
        | inr m ↦ inr ((mem-sort_updates_iff s r.buffered).0 m)
      ],
      absorb_all-Follows start s (sort_updates r.buffered) done,
      λ u m.
          All_lookup (Settled s) (sort_updates r.buffered) u
            (absorb_all-Settled start s (sort_updates r.buffered) done)
            ((mem-sort_updates_iff u r.buffered).1 m),
    )

Settled-both : (s t : MembershipSnapshot) → Settled t s → Settled s t → s ≡ t
Settled-both s t (inl e) q = e
Settled-both s t (inr l) (inl e) = sym e
Settled-both s t (inr l) (inr k) = absurd (omega arith)

-- Two started, unready reconcilers that hold one baseline and the same buffered updates, in any
-- order and any number of times, return the same snapshot where `FinishBootstrap` succeeds on both.
pub finish_bootstrap-agree :
    (q r : Reconciler) (start s t : MembershipSnapshot)
    → Bootstrapping q start
    → Bootstrapping r start
    → ((u : MembershipSnapshot) → Memᴰ u q.buffered ↔ Memᴰ u r.buffered)
    → (finish_bootstrap q).1 ≡ ok s
    → (finish_bootstrap r).1 ≡ ok t
    → s ≡ t
finish_bootstrap-agree q r start s t bq br same hs ht =
    let fs = finish_bootstrap-Settled q start s bq hs in
    let ft = finish_bootstrap-Settled r start t br ht in
    Settled-both s t
      (elim fs.1 [ inl e ↦ rw e (Follows-Settled start t ft.2) | inr m ↦ ft.3 s ((same s).0 m) ])
      (elim ft.1 [ inl e ↦ rw e (Follows-Settled start s fs.2) | inr m ↦ fs.3 t ((same t).1 m) ])
