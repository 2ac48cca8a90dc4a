-- ===== src/Mm/Leaks.antt =====
-- What `replace` gives back to the pool.
use hafnium_verification.Prelude.{
  ℕ, zero, suc, ◌≡◌, refl, ◌%◌, List, [], ◌∷◌, ◌++◌, arith, if◌then◌else◌, count-append, Bool-cases,
  inl, inr, All,
}
use hafnium_verification.Addr.{page_size}
use hafnium_verification.MPool.{MPool}
use hafnium_verification.MPool.Conserve.{pages, IsValid}
use hafnium_verification.Pool.Pages.{SamePages}
use hafnium_verification.MPool.GiveBack.{free-Gives}
use hafnium_verification.Mm.{Arch, leaf, table, Child, Pte, is_valid}
use hafnium_verification.Mm.Map.{replace, drop_pte, drop_all}

abbrev pub all_pages : {T : Type 0} → (T → List ℕ) → List T → List ℕ
all_pages f [] = []
all_pages f (t ∷ ts) = f t ++ all_pages f ts

-- The pages that hold the tables of an entry, its own and those below.
abbrev pub tree_pages : (level : ℕ) → Pte level → List ℕ
tree_pages zero (leaf pte) = []
tree_pages zero (table page ptes) = page ∷ []
tree_pages (suc level) (leaf pte) = []
tree_pages (suc level) (table page ptes) = page ∷ all_pages (tree_pages level) ptes

abbrev pub AreAligned : List ℕ → Type 0
AreAligned = All (λ page. page % page_size ≡ 0)

AreAligned-front : (xs ys : List ℕ) → AreAligned (xs ++ ys) → AreAligned xs
AreAligned-front [] ys h = tt
AreAligned-front (x ∷ xs) ys h = (h.0, AreAligned-front xs ys h.1)

AreAligned-back : (xs ys : List ℕ) → AreAligned (xs ++ ys) → AreAligned ys
AreAligned-back [] ys h = h
AreAligned-back (x ∷ xs) ys h = AreAligned-back xs ys h.1

-- The pool has these pages besides.
abbrev pub Returns : List ℕ → MPool → MPool → Type 0
Returns xs m m' = IsValid m' × SamePages (pages m') (xs ++ pages m)

drop_all-Returns :
    {T : Type 0} (f : T → MPool → MPool) (g : T → List ℕ)
    → ((t : T) (m : MPool) → AreAligned (g t) → IsValid m → Returns (g t) m (f t m))
    → (ts : List T) (m : MPool) → AreAligned (all_pages g ts)
    → IsValid m
    → Returns (all_pages g ts) m (drop_all f ts m)
drop_all-Returns f g each [] m al v = (v, λ a. refl)
drop_all-Returns f g each (t ∷ ts) m al v =
    let one = each t m (AreAligned-front (g t) (all_pages g ts) al) v in
    let rest =
      drop_all-Returns f g each ts (f t m) (AreAligned-back (g t) (all_pages g ts) al) one.0 in
    (
      rest.0,
      λ a.
          let first = one.1 a in
          let others = rest.1 a in
          let b = count-append a (g t) (pages m) in
          let c = count-append a (all_pages g ts) (pages (f t m)) in
          let d = count-append a (g t ++ all_pages g ts) (pages m) in
          let e = count-append a (g t) (all_pages g ts) in omega (arith, first, others, b, c, d, e),
    )

drop_pte-Returns :
    (level : ℕ) (t : Pte level) (m : MPool)
    → AreAligned (tree_pages level t)
    → IsValid m
    → Returns (tree_pages level t) m (drop_pte level t m)
unfolding drop_pte
drop_pte-Returns zero (leaf pte) m al v = (v, λ a. refl)
drop_pte-Returns zero (table page ptes) m al v = free-Gives m page al.0 v
drop_pte-Returns (suc level) (leaf pte) m al v = (v, λ a. refl)
drop_pte-Returns (suc level) (table page ptes) m al v =
    let below = all_pages (tree_pages level) ptes in
    let rest =
      drop_all-Returns (drop_pte level) (tree_pages level) (drop_pte-Returns level) ptes m al.1 v in
    let own = free-Gives (drop_all (drop_pte level) ptes m) page al.0 rest.0 in
    (own.0, λ a. let x = own.1 a in let y = rest.1 a in omega (arith, x, y))

drop_leaf-Returns :
    (level pte : ℕ) (m : MPool) → IsValid m → Returns [] m (drop_pte level (leaf pte) m)
unfolding drop_pte
drop_leaf-Returns zero pte m v = (v, λ a. refl)
drop_leaf-Returns (suc level) pte m v = (v, λ a. refl)

module _ (arch : Arch) where
  -- With a valid pool and aligned pages: if a table is replaced by an entry that is not valid, the pool
  -- is valid after and has besides its own all the pages of the table and of the tables below it; if it
  -- is replaced by a valid entry, it gets none of them.
  pub replace-Returns :
      (level page : ℕ) (ptes : List (Child level)) (new : Pte level) (m : MPool)
      → AreAligned (tree_pages level (table page ptes))
      → IsValid m
      → Returns
          (if is_valid arch level new then [] else tree_pages level (table page ptes))
          m
          (replace arch level (table page ptes) new m).1
  unfolding replace
  replace-Returns level page ptes new m al v = elim (Bool-cases (is_valid arch level new)) [
    | inl e ↦ rw (replace, e) (drop_leaf-Returns level (arch.absent_pte level) m v)
    | inr e ↦ rw (replace, e) (drop_pte-Returns level (table page ptes) m al v)
  ]
