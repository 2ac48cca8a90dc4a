-- ===== src/DList/Chains.antt =====
-- Pointers that pass a sequence of entries, and what writes do to them.
use hafnium_verification.Prelude.{
  ℕ, ◌≡◌, refl, ap, subst, ◌∙◌, ◌≤◌, ◌≢◌, List, [], ◌∷◌, ◌++◌, arith, count, count-append,
}
use mathlib.Core.List.{reverse, reverse-cons}
use hafnium_verification.DList.{write}

pub write_self : (f : ℕ → ℕ) (p v : ℕ) → write f p v p ≡ v
unfolding write
write_self f p v = ground arith

pub write_other : (f : ℕ → ℕ) (p v : ℕ) {x : ℕ} → x ≢ p → write f p v x ≡ f x
unfolding write
write_other f p v ne = ground arith

-- From `c` on, the pointers pass these entries in this order, and then reach `b`.
abbrev pub Passes : (ℕ → ℕ) → ℕ → List ℕ → ℕ → Type 0
Passes f c [] b = c ≡ b
Passes f c (x ∷ xs) b = (c ≡ x) × Passes f (f x) xs b

-- The last entry, or `a` if there is none.
abbrev pub last_or : ℕ → List ℕ → ℕ
last_or a [] = a
last_or a (x ∷ xs) = last_or x xs

pub count-reverse : (a : ℕ) (xs : List ℕ) → count a (reverse xs) ≡ count a xs
count-reverse a [] = refl
count-reverse a (x ∷ xs) =
    let ih = count-reverse a xs in
    let split = ap (count a) (reverse-cons x xs) ∙ count-append a (reverse xs) (x ∷ []) in
    omega (arith, ih, split)

module _ (f : ℕ → ℕ) where
  pub Passes-append :
      (xs ys : List ℕ) (c d b : ℕ) → Passes f c xs d → Passes f d ys b → Passes f c (xs ++ ys) b
  Passes-append [] ys c d b e h = rw e h
  Passes-append (x ∷ xs) ys c d b (e, k) h = (e, Passes-append xs ys (f x) d b k h)

  pub Passes-split :
      (ys zs : List ℕ) (c e b : ℕ)
      → Passes f c (ys ++ (e ∷ zs)) b
      → Passes f c ys e × Passes f (f e) zs b
  Passes-split [] zs c e b h = h
  Passes-split (y ∷ ys) zs c e b (h, k) =
      let both = Passes-split ys zs (f y) e b k in ((h, both.0), both.1)

  -- A write to an entry that is not passed.
  pub Passes-write :
      (p v : ℕ) (xs : List ℕ) (c b : ℕ)
      → count p xs ≡ 0
      → Passes f c xs b
      → Passes (write f p v) c xs b
  Passes-write p v [] c b away h = h
  Passes-write p v (x ∷ xs) c b away (e, k) =
      let other : x ≢ p = ground arith in
      let rest : count p xs ≡ 0 = ground arith in
      (e, rw (write_other f p v other) (Passes-write p v xs (f x) b rest k))

  -- The pointers the other way begin at the last entry.
  pub Passes-reverse : (a : ℕ) (xs : List ℕ) (c : ℕ) → Passes f c (reverse xs) a → c ≡ last_or a xs
  Passes-reverse a [] c h = h
  Passes-reverse a (x ∷ xs) c h =
      let turned = subst (λ ys. Passes f c ys a) (reverse-cons x xs) h in
      Passes-reverse x xs c (Passes-split (reverse xs) [] c x a turned).0

-- The last entry is one of them.
pub count-last_or : (a : ℕ) (xs : List ℕ) → 1 ≤ count (last_or a xs) (a ∷ xs)
count-last_or a [] = ground arith
count-last_or a (x ∷ xs) = let ih = count-last_or x xs in omega (arith, ih)

-- A write to the last entry changes where the pointers lead.
pub Passes-write_last :
    (f : ℕ → ℕ) (v a : ℕ) (xs : List ℕ) (b : ℕ)
    → ((x : ℕ) → count x (a ∷ xs) ≤ 1)
    → Passes f (f a) xs b
    → Passes (write f (last_or a xs) v) (write f (last_or a xs) v a) xs v
Passes-write_last f v a [] b distinct h = write_self f a v
Passes-write_last f v a (x ∷ xs) b distinct (e, k) =
    let found = count-last_or x xs in
    let once = distinct (last_or x xs) in
    let other : a ≢ last_or x xs = ground arith in
    (
      write_other f (last_or x xs) v other ∙ e,
      Passes-write_last f v x xs b (λ y. let once = distinct y in omega (arith, once)) k,
    )
