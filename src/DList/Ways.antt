-- ===== src/DList/Ways.antt =====
-- A list seen from both sides, and the writes that put an entry in or take one out.
use hafnium_verification.Prelude.{
  ℕ, ◌≡◌, refl, sym, ap, subst, ◌∙◌, ◌≤◌, ◌≢◌, List, [], ◌∷◌, ◌++◌, Bool-cases, inl, inr, ==_iff,
  arith, ◌==◌, count, count-append,
}
use mathlib.Core.List.{reverse, reverse-cons, reverse-append, reverse-reverse, append_assoc}
use hafnium_verification.DList.{Heap, write}
use hafnium_verification.DList.Chains.{
  Passes, last_or, write_self, write_other, count-reverse, count-last_or, Passes-append,
  Passes-split, Passes-write, Passes-reverse, Passes-write_last,
}

-- One way round the list with this head, and the other.
pub record Way (f g : ℕ → ℕ) (l : ℕ) (xs : List ℕ) : Type 0 where
  pub there : Passes f (f l) xs l
  pub back : Passes g (g l) (reverse xs) l
  pub distinct : (x : ℕ) → count x (l ∷ xs) ≤ 1

-- The list with this head has these entries, in this order.
abbrev pub IsList : Heap → ℕ → List ℕ → Type 0
IsList h l xs = Way h.next h.prev l xs

pub turn : {f g : ℕ → ℕ} {l : ℕ} (xs : List ℕ) → Way f g l xs → Way g f l (reverse xs)
turn {f} {l = l} xs w = record {
  there = w.back;
  back = subst (λ ys. Passes f (f l) ys l) (sym (reverse-reverse xs)) w.there;
  distinct =
      λ x. let once = w.distinct x in let same = count-reverse x xs in omega (arith, once, same);
}

-- The writes that put `e` between `at` and `target`, and those that take it out.
abbrev pub linked : (ℕ → ℕ) → ℕ → ℕ → ℕ → ℕ → ℕ
linked f e target at = write (write f e target) at e

abbrev pub unlinked : (ℕ → ℕ) → (ℕ → ℕ) → ℕ → ℕ → ℕ
unlinked f g e = write (write f (g e) (f e)) e e

pub last-is : {f g : ℕ → ℕ} {l : ℕ} (xs : List ℕ) → Way f g l xs → g l ≡ last_or l xs
last-is {g = g} {l = l} xs w = Passes-reverse g l xs (g l) w.back

-- An entry that is nowhere in the list is not the last one.
pub last-not : (a e : ℕ) (xs : List ℕ) → count e (a ∷ xs) ≡ 0 → e ≢ last_or a xs
last-not a e xs away same =
    let found = subst (λ x. 1 ≤ count x (a ∷ xs)) (sym same) (count-last_or a xs) in
    omega (arith, away, found)

module _ (f g : ℕ → ℕ) (l e : ℕ) (xs : List ℕ) (w : Way f g l xs)
    (away : count e (l ∷ xs) ≡ 0) where
  not_head : l ≢ e
  not_head = ground arith

  not_passed : count e xs ≡ 0
  not_passed = ground arith

  linked-there : Passes (linked f e l (g l)) (linked f e l (g l) l) (xs ++ (e ∷ [])) l
  linked-there =
      let last = last_or l xs in
      let f₁ = write f e l in
      let f₂ = write f₁ last e in
      let kept : Passes f₁ (f₁ l) xs l =
        rw (write_other f e l not_head) (Passes-write f e l xs (f l) l not_passed w.there) in
      let moved = Passes-write_last f₁ e l xs l w.distinct kept in
      let closed = write_other f₁ last e (last-not l e xs away) ∙ write_self f e l in
      rw (last-is xs w) (Passes-append f₂ xs (e ∷ []) (f₂ l) e l moved (refl, closed))

  linked-back : Passes (linked g e (g l) l) (linked g e (g l) l l) (e ∷ reverse xs) l
  linked-back =
      let g₁ = write g e (g l) in
      let head_once = w.distinct l in
      let head_away : count l (reverse xs) ≡ 0 = rw (count-reverse l xs) (ground arith) in
      let e_away : count e (reverse xs) ≡ 0 = count-reverse e xs ∙ not_passed in
      let first : linked g e (g l) l e ≡ g l =
        write_other g₁ l e (λ same. not_head (sym same)) ∙ write_self g e (g l) in
      (
        write_self g₁ l e,
        rw first (
            Passes-write g₁ l e (reverse xs) (g l) l head_away
              (Passes-write g e (g l) (reverse xs) (g l) l e_away w.back)),
      )

  linked-distinct : (x : ℕ) → count x (l ∷ (xs ++ (e ∷ []))) ≤ 1
  linked-distinct x =
      let once = w.distinct x in
      let both = count-append x xs (e ∷ []) in
      elim (Bool-cases (e == x)) [
        | inl same ↦
            let none_yet : count x (l ∷ xs) ≡ 0 =
              subst (λ y. count y (l ∷ xs) ≡ 0) ((==_iff e x).0 same) away in
            ground arith
        | inr apart ↦ ground arith
      ]

  pub linked-Way : Way (linked f e l (g l)) (linked g e (g l) l) l (xs ++ (e ∷ []))
  linked-Way = record {
    there = linked-there;
    back = rw (reverse-append xs (e ∷ [])) linked-back;
    distinct = linked-distinct;
  }

turned : (e : ℕ) (ys zs : List ℕ) → reverse (ys ++ (e ∷ zs)) ≡ reverse zs ++ (e ∷ reverse ys)
turned e ys zs =
    reverse-append ys (e ∷ zs)
    ∙ ap (λ r. r ++ reverse ys) (reverse-cons e zs)
    ∙ append_assoc (reverse zs) (e ∷ []) (reverse ys)

module _ (f g : ℕ → ℕ) (l e : ℕ) (ys zs : List ℕ) (w : Way f g l (ys ++ (e ∷ zs))) where
  unlinked-there : Passes (unlinked f g e) (unlinked f g e l) (ys ++ zs) l
  unlinked-there =
      let last = last_or l ys in
      let f₁ = write f last (f e) in
      let around = Passes-split f ys zs (f l) e l w.there in
      let behind =
        (Passes-split g (reverse zs) (reverse ys) (g l) e l (rw (turned e ys zs) at w.back)).1 in
      let previous : g e ≡ last = Passes-reverse g l ys (g e) behind in
      let counted = λ (x : ℕ). count-append x ys (e ∷ zs) in
      let ys_once : ((x : ℕ) → count x (l ∷ ys) ≤ 1) =
        (λ x. let once = w.distinct x in let c = counted x in omega (arith, once, c)) in
      let last_found = count-last_or l ys in
      let last_once = w.distinct last in
      let last_counted = counted last in
      let last_away : count last zs ≡ 0 = omega (arith, last_found, last_once, last_counted) in
      let e_once = w.distinct e in
      let e_counted = counted e in
      let e_split = count-append e ys zs in
      let e_away : count e (ys ++ zs) ≡ 0 = ground arith in
      let e_head : l ≢ e = ground arith in
      let joined =
        Passes-append f₁ ys zs (f₁ l) (f e) l (Passes-write_last f (f e) l ys e ys_once around.0)
          (Passes-write f last (f e) zs (f e) l last_away around.1) in
      rw (previous, write_other f₁ e e e_head)
        (Passes-write f₁ e e (ys ++ zs) (f₁ l) l e_away joined)

pub unlinked-Way :
    (f g : ℕ → ℕ) (l e : ℕ) (ys zs : List ℕ)
    → Way f g l (ys ++ (e ∷ zs))
    → Way (unlinked f g e) (unlinked g f e) l (ys ++ zs)
unlinked-Way f g l e ys zs w = record {
  there = unlinked-there f g l e ys zs w;
  back = rw (reverse-append ys zs) (
      unlinked-there g f l e (reverse zs) (reverse ys)
        (subst (λ xs. Way g f l xs) (turned e ys zs) (turn (ys ++ (e ∷ zs)) w)));
  distinct = λ x.
      let once = w.distinct x in
      let c = count-append x ys (e ∷ zs) in
      let d = count-append x ys zs in omega (arith, once, c, d);
}
