-- ===== src/DList/Refines.antt =====
-- The operations on the pointers do what their names say to the sequence of a list's entries.
use hafnium_verification.Prelude.{
  none-some, ℕ, ◌≡◌, refl, ap, ap₂, subst, ◌∙◌, ◌≢◌, Bool, true, false, List, [], ◌∷◌, Option, none,
  some, of_some, Option-cases, ◌++◌, Bool-cases, inl, inr, ==_iff, arith, if◌then◌else◌, ◌==◌,
  count,
}
use mathlib.Core.List.{reverse, reverse-append, reverse-reverse}
use hafnium_verification.DList.{
  Heap, write, list_init, list_append, list_prepend, list_empty, list_remove, list_pop_front,
}
use hafnium_verification.DList.Ways.{
  Way, IsList, turn, last-is, last-not, linked, linked-Way, unlinked-Way,
}
use hafnium_verification.DList.Chains.{write_self, write_other, count-reverse}

-- The calls on one list, and what they answer.
pub data Call : Type 0 where
  append prepend remove : ℕ → Call
  empty pop_front : Call

pub data Answer : Type 0 where
  nothing : Answer
  flag : Bool → Answer
  entry : ℕ → Answer

abbrev pub run : ℕ → Call → Heap → Answer × Heap
run l (append e) h = (nothing, list_append l e h)
run l (prepend e) h = (nothing, list_prepend l e h)
run l (remove e) h = (nothing, list_remove e h)
run l empty h = (flag (list_empty l h), h)
run l pop_front h = let (e, h') = list_pop_front l h in (entry e, h')

abbrev pub run_all : ℕ → List Call → Heap → List Answer × Heap
run_all l [] h = ([], h)
run_all l (c ∷ cs) h =
    let (a, h') = run l c h in let (rest, h_end) = run_all l cs h' in (a ∷ rest, h_end)

abbrev is_nil : List ℕ → Bool
is_nil [] = true
is_nil (x ∷ xs) = false

abbrev erase : ℕ → List ℕ → List ℕ
erase e [] = []
erase e (x ∷ xs) = if x == e then xs else x ∷ erase e xs

-- The same calls on a sequence of distinct entries: only a new entry can be put in, only one that is
-- there be taken out.
abbrev pub on_sequence : ℕ → Call → List ℕ → Option (Answer × List ℕ)
on_sequence l (append e) xs = if count e (l ∷ xs) == 0 then some (nothing, xs ++ (e ∷ [])) else none
on_sequence l (prepend e) xs = if count e (l ∷ xs) == 0 then some (nothing, e ∷ xs) else none
on_sequence l (remove e) xs = if count e xs == 0 then none else some (nothing, erase e xs)
on_sequence l empty xs = some (flag (is_nil xs), xs)
on_sequence l pop_front [] = none
on_sequence l pop_front (x ∷ xs) = some (entry x, xs)

abbrev pub all_on_sequence : ℕ → List Call → List ℕ → Option (List Answer × List ℕ)
all_on_sequence l [] xs = some ([], xs)
all_on_sequence l (c ∷ cs) xs = elim (on_sequence l c xs) [
  | none ↦ none
  | some (a, xs') ↦ elim (all_on_sequence l cs xs') [
    | none ↦ none
    | some (rest, xs_end) ↦ some (a ∷ rest, xs_end)
  ]
]

write_same : (f : ℕ → ℕ) (p x : ℕ) → write f p (f x) x ≡ f x
unfolding write
write_same f p x = ground arith

pub list_init-IsList : (h : Heap) (e : ℕ) → IsList (list_init e h) e []
list_init-IsList h e = record {
  there = write_self h.next e e;
  back = write_self h.prev e e;
  distinct = λ x. ground arith;
}

list_append-IsList :
    (h : Heap) (l e : ℕ) (xs : List ℕ)
    → IsList h l xs
    → count e (l ∷ xs) ≡ 0
    → IsList (list_append l e h) l (xs ++ (e ∷ []))
list_append-IsList h l e xs w away =
    let not_head : e ≢ l = ground arith in
    rw
      (
        write_self h.next e l,
        write_other (write h.prev e (h.prev l)) l e not_head,
        write_self h.prev e (h.prev l),
      )
      (linked-Way h.next h.prev l e xs w away)

list_prepend-IsList :
    (h : Heap) (l e : ℕ) (xs : List ℕ)
    → IsList h l xs
    → count e (l ∷ xs) ≡ 0
    → IsList (list_prepend l e h) l (e ∷ xs)
list_prepend-IsList h l e xs w away =
    let w' = turn xs w in
    let away' : count e (l ∷ reverse xs) ≡ 0 =
      let same = count-reverse e xs in omega (arith, same, away) in
    let not_first : e ≢ h.next l =
      λ same. last-not l e (reverse xs) away' (same ∙ last-is (reverse xs) w') in
    let back : reverse (reverse xs ++ (e ∷ [])) ≡ e ∷ xs =
      reverse-append (reverse xs) (e ∷ []) ∙ ap (λ ys. e ∷ ys) (reverse-reverse xs) in
    rw
      (
        write_self h.next e (h.next l),
        write_other (write h.prev e l) (h.next l) e not_first,
        write_self h.prev e l,
      )
      (subst (λ ys. Way (linked h.next e (h.next l) l) (linked h.prev e l (h.next l)) l ys) back
        (turn (reverse xs ++ (e ∷ [])) (linked-Way h.prev h.next l e (reverse xs) w' away')))

list_remove-IsList :
    (h : Heap) (l e : ℕ) (ys zs : List ℕ)
    → IsList h l (ys ++ (e ∷ zs))
    → IsList (list_remove e h) l (ys ++ zs)
list_remove-IsList h l e ys zs w =
    rw (write_same h.next (h.prev e) e) (unlinked-Way h.next h.prev l e ys zs w)

-- A list that is empty leads back to its head at once.
list_empty-IsList : (h : Heap) (l : ℕ) (xs : List ℕ) → IsList h l xs → list_empty l h ≡ is_nil xs
list_empty-IsList h l [] w = (==_iff (h.next l) l).1 w.there
list_empty-IsList h l (x ∷ xs) w = let once = w.distinct l in let first = w.there.0 in ground arith

list_pop_front-IsList :
    (h : Heap) (l x : ℕ) (xs : List ℕ)
    → IsList h l (x ∷ xs)
    → ((list_pop_front l h).0 ≡ x) × IsList (list_pop_front l h).1 l xs
list_pop_front-IsList h l x xs w = (w.there.0, rw (w.there.0) (list_remove-IsList h l x [] xs w))

-- An entry that is there stands between two parts.
found-at :
    (e : ℕ) (xs : List ℕ)
    → count e xs ≢ 0
    → (ys : List ℕ) × (zs : List ℕ) × (xs ≡ ys ++ (e ∷ zs)) × (erase e xs ≡ ys ++ zs)
found-at e [] h = absurd (h refl)
found-at e (x ∷ xs) h = elim (Bool-cases (x == e)) [
  | inl same ↦ ([], xs, ap (λ y. y ∷ xs) ((==_iff x e).0 same), rw same refl)
  | inr apart ↦
      let there : count e xs ≢ 0 = ground arith in
      let (ys, zs, before, after) = found-at e xs there in
      (x ∷ ys, zs, ap (λ r. x ∷ r) before, rw apart (ap (λ r. x ∷ r) after))
]

-- A result of calls on the pointers that agrees with one on the sequence.
abbrev pub Agrees : {A : Type 0} → ℕ → A × Heap → A × List ℕ → Type 0
Agrees l r s = (r.0 ≡ s.0) × IsList r.1 l s.1

run-Agrees :
    (l : ℕ) (c : Call) (h : Heap) (xs : List ℕ) (s : Answer × List ℕ)
    → on_sequence l c xs ≡ some s
    → IsList h l xs
    → Agrees l (run l c h) s
run-Agrees l (append e) h xs s d w = elim (Bool-cases (count e (l ∷ xs) == 0)) [
  | inl new ↦
      of_some (Agrees l (run l (append e) h)) (rw (on_sequence, new) at d)
        (refl, list_append-IsList h l e xs w ((==_iff (count e (l ∷ xs)) 0).0 new))
  | inr old ↦ absurd (none-some (rw (on_sequence, old) at d))
]
run-Agrees l (prepend e) h xs s d w = elim (Bool-cases (count e (l ∷ xs) == 0)) [
  | inl new ↦
      of_some (Agrees l (run l (prepend e) h)) (rw (on_sequence, new) at d)
        (refl, list_prepend-IsList h l e xs w ((==_iff (count e (l ∷ xs)) 0).0 new))
  | inr old ↦ absurd (none-some (rw (on_sequence, old) at d))
]
run-Agrees l (remove e) h xs s d w = elim (Bool-cases (count e xs == 0)) [
  | inl gone ↦ absurd (none-some (rw (on_sequence, gone) at d))
  | inr there ↦
      let found : count e xs ≢ 0 = ground arith in
      let (ys, zs, before, after) = found-at e xs found in
      of_some (Agrees l (run l (remove e) h)) (rw (on_sequence, there) at d)
        (refl, rw after (list_remove-IsList h l e ys zs (subst (IsList h l) before w)))
]
run-Agrees l empty h xs s d w =
    of_some (Agrees l (run l empty h)) d (ap flag (list_empty-IsList h l xs w), w)
run-Agrees l pop_front h [] s d w = absurd (none-some d)
run-Agrees l pop_front h (x ∷ xs) s d w =
    let popped = list_pop_front-IsList h l x xs w in
    of_some (Agrees l (run l pop_front h)) d (ap entry popped.0, popped.1)

-- If a list's pointers pass a sequence of entries, distinct and not the head, and a history of calls is
-- allowed on that sequence, then the calls on the pointers answer the same as those on the sequence,
-- and after them the pointers pass, in both directions, the sequence that is left.
pub run_all-Agrees :
    (l : ℕ) (cs : List Call) (h : Heap) (xs : List ℕ) (s : List Answer × List ℕ)
    → all_on_sequence l cs xs ≡ some s
    → IsList h l xs
    → Agrees l (run_all l cs h) s
run_all-Agrees l [] h xs s d w = of_some (Agrees l (run_all l [] h)) d (refl, w)
run_all-Agrees l (c ∷ cs) h xs s d w = elim (Option-cases (on_sequence l c xs)) [
  | inl e ↦ absurd (none-some (rw (all_on_sequence, e) at d))
  | inr (one, e) ↦
      let first = run-Agrees l c h xs one e w in
      elim (Option-cases (all_on_sequence l cs one.1)) [
        | inl f ↦ absurd (none-some (rw (all_on_sequence, e, f) at d))
        | inr (rest, f) ↦
            let others = run_all-Agrees l cs (run l c h).1 one.1 rest f first.1 in
            of_some (Agrees l (run_all l (c ∷ cs) h)) (rw (all_on_sequence, e, f) at d)
              (ap₂ (λ a more. a ∷ more) first.0 others.0, others.1)
      ]
]
