-- ===== src/Mailbox/Waiters.antt =====
-- The entries of the waiting VMs and the list of waiters of the VM that they wait for.
use hafnium_verification.Prelude.{
  ℕ, ◌≡◌, ◌∙◌, ap, ◌⊎◌, ==_iff, refl, inl, inr, Bool, true, false, not, ◌||◌, some, List, [], ◌∷◌,
  ◌++◌, arith, ltb, count, count-append, Bool-cases, of_some, if◌then◌else◌, ◌==◌,
}
use hafnium_verification.Mailbox.{
  Mailbox, wait_for, fetch_waiter, pop_links, is_state_empty, list_empty,
}

-- A VM is in the target's list once if its entry for the target is in a list, and else it is not.
abbrev pub Tracks : ℕ → (ℕ → ℕ → Bool) → Mailbox → Type 0
Tracks target_id links m = (w : ℕ) → count w m.waiter_list ≡ (if links w target_id then 1 else 0)

-- The entries of all VMs with those of one VM changed.
abbrev pub with_waits : ℕ → (ℕ → Bool) → (ℕ → ℕ → Bool) → ℕ → ℕ → Bool
with_waits waiting waits links w i = if w == waiting then waits i else links w i

-- After `wait_for` the list is tracked, the caller is in it, and the call said Ok exactly if it was not.
abbrev pub Waits : ℕ → ℕ → (ℕ → ℕ → Bool) → Bool × (ℕ → Bool) × Mailbox → Type 0
Waits waiting target_id links r =
    Tracks target_id (with_waits waiting r.1 links) r.2
    × (count waiting r.2.waiter_list ≡ 1)
    × (r.0 ≡ not (links waiting target_id))

List-cases : (xs : List ℕ) → (xs ≡ []) ⊎ ((x : ℕ) × (rest : List ℕ) × (xs ≡ x ∷ rest))
List-cases [] = inl refl
List-cases (x ∷ rest) = inr (x, rest, refl)

module _ (target_id : ℕ) (links : ℕ → ℕ → Bool) (target : Mailbox)
    (tracks : Tracks target_id links target) where
  linked-once : (w : ℕ) → links w target_id ≡ true → count w target.waiter_list ≡ 1
  linked-once w e = let t = tracks w in rw e at t

  not_linked : (w : ℕ) → links w target_id ≡ false → count w target.waiter_list ≡ 0
  not_linked w e = let t = tracks w in rw e at t

  joined :
      (waiting : ℕ)
      → links waiting target_id ≡ false
      → count waiting (target.waiter_list ++ (waiting ∷ [])) ≡ 1
  joined waiting f =
      let added = count-append waiting target.waiter_list (waiting ∷ []) in
      let before = not_linked waiting f in
      let equal : (waiting == waiting) ≡ true = (==_iff waiting waiting).1 refl in
      added ∙ rw equal (omega (arith, before))

  popped :
      (x w : ℕ) (rest : List ℕ)
      → target.waiter_list ≡ x ∷ rest
      → count w rest ≡ (if pop_links target_id (some x) links w target_id then 1 else 0)
  popped x w rest e =
      let here : (target_id == target_id) ≡ true = (==_iff target_id target_id).1 refl in
      let t = rw e at (tracks w) in
      elim (Bool-cases (w == x)) [
        | inl s ↦
            let equal : (x == w) ≡ true = ground arith in
            let u = rw equal at t in rw (s, here) (ground (arith, u))
        | inr s ↦
            let other : (x == w) ≡ false = ground arith in
            let u = rw other at t in rw s (ground (arith, u))
      ]

  fetch_waiter-Tracks :
      Tracks target_id (pop_links target_id (fetch_waiter target).0 links) (fetch_waiter target).1
  unfolding fetch_waiter
  fetch_waiter-Tracks w =
      elim (Bool-cases (
        not (is_state_empty target.state) || (target.recv == 0) || list_empty target.waiter_list)) [
          | inl g ↦ rw (fetch_waiter, g) (tracks w)
          | inr g ↦ elim (List-cases target.waiter_list) [
            | inl e ↦ absurd (ground (arith, g, e))
            | inr (x, rest, e) ↦ rw (fetch_waiter, g, e) (popped x w rest e)
          ]
        ]

  kept :
      (waiting w : ℕ)
      → links waiting target_id ≡ true
      → count w target.waiter_list
        ≡ (if with_waits waiting (links waiting) links w target_id then 1 else 0)
  kept waiting w f = elim (Bool-cases (w == waiting)) [
    | inr s ↦ rw s (tracks w)
    | inl s ↦
        let same = (==_iff w waiting).0 s in
        let l = ap (λ x. links x target_id) same ∙ f in rw (s, f) (linked-once w l)
  ]

  grown :
      (waiting w : ℕ)
      → links waiting target_id ≡ false
      → count w (target.waiter_list ++ (waiting ∷ [])) ≡ (
          if with_waits waiting
            (λ i. if i == target_id then true else links waiting i)
            links
            w
            target_id
          then 1
          else 0)
  grown waiting w f =
      let added = count-append w target.waiter_list (waiting ∷ []) in
      let here : (target_id == target_id) ≡ true = (==_iff target_id target_id).1 refl in
      elim (Bool-cases (w == waiting)) [
        | inr s ↦
            let other : (waiting == w) ≡ false = ground arith in
            let old = tracks w in rw s (added ∙ rw other (omega (arith, old)))
        | inl s ↦
            let same = (==_iff w waiting).0 s in
            let l = ap (λ x. links x target_id) same ∙ f in
            let zero_before = not_linked w l in
            let equal : (waiting == w) ≡ true = ground arith in
            rw (s, here) (added ∙ rw equal (omega (arith, zero_before)))
      ]

-- If the entries track a mailbox's list of waiters, they do so after `wait_for` on it, if that returns,
-- and then the caller is in the list once, and the result is Ok exactly if it was not before; and they
-- do so after `fetch_waiter`, which takes the first waiter's entry out of the list.
pub wait_for-Waits :
    (max_vms waiting target_id : ℕ) (links : ℕ → ℕ → Bool) (target : Mailbox)
    (r : Bool × (ℕ → Bool) × Mailbox)
    → Tracks target_id links target
    → wait_for max_vms waiting target_id (links waiting) target ≡ some r
    → Waits waiting target_id links r
      × Tracks target_id (pop_links target_id (fetch_waiter target).0 links) (fetch_waiter target).1
unfolding wait_for fetch_waiter
wait_for-Waits max_vms waiting target_id links target r tracks h = (waited, fetched)
  where
    waited : Waits waiting target_id links r
    waited = elim (Bool-cases (ltb target_id max_vms)) [
      | inr e ↦ absurd (ground (arith, e, h))
      | inl e ↦ elim (Bool-cases (links waiting target_id)) [
        | inl f ↦ of_some (Waits waiting target_id links) (rw (e, f, wait_for) at h) (
          λ w. kept target_id links target tracks waiting w f,
          linked-once target_id links target tracks waiting f,
          rw f refl,
        )
        | inr f ↦ of_some (Waits waiting target_id links) (rw (e, f, wait_for) at h) (
          λ w. grown target_id links target tracks waiting w f,
          joined target_id links target tracks waiting f,
          rw f refl,
        )
      ]
    ]

    fetched :
        Tracks target_id (pop_links target_id (fetch_waiter target).0 links) (fetch_waiter target).1
    fetched = fetch_waiter-Tracks target_id links target tracks
