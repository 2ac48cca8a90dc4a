-- ===== src/MPool/Conserve.antt =====
-- No call on a chain of pools loses a page or gives one out twice.
use hafnium_verification.Prelude.{
  ℕ, ◌≡◌, ◌%◌, ◌*◌, List, [], ◌∷◌, ◌++◌, none, some, arith, count-append, Option-cases, inl, inr,
  of_some,
}
use hafnium_verification.Addr
use hafnium_verification.Addr.{page_size}
use hafnium_verification.Addr.{from_raw_u8}
use hafnium_verification.Pool
use hafnium_verification.Pool.{Pool, Chunk}
use hafnium_verification.Pool.Pages.{page_run, chunk_pages, IsChunk, AllChunks, SamePages}
use hafnium_verification.Pool.Pages
use hafnium_verification.Pool.Contiguous.{IsRequest}
use hafnium_verification.Pool.Contiguous
use hafnium_verification.MPool.{MPool, alone, over, alloc, alloc_pages}

abbrev pub pages : MPool → List ℕ
pages (alone p) = Pages.pages p
pages (over p f) = Pages.pages p ++ pages f

abbrev pub IsValid : MPool → Type 0
IsValid (alone p) = Pages.IsValid p
IsValid (over p f) = Pages.IsValid p × IsValid f

-- `alloc` gave out an aligned page of the chain, and the chain keeps all others.
pub record Gives (m : MPool) (r : ℕ × MPool) : Type 0 where
  pub aligned : r.0 % page_size ≡ 0
  pub valid : IsValid r.1
  pub same : SamePages (pages m) (r.0 ∷ pages r.1)

alone-Gives : (p : Pool) (r : ℕ × Pool) → Pages.Gives p r → Gives (alone p) (r.0, alone r.1)
alone-Gives p r g = record { aligned = g.aligned; valid = g.valid; same = g.same }

own-Gives :
    (p : Pool) (f : MPool) (r : ℕ × Pool)
    → IsValid f
    → Pages.Gives p r
    → Gives (over p f) (r.0, over r.1 f)
own-Gives p f r v g = record {
  aligned = g.aligned;
  valid = (g.valid, v);
  same = λ a. omega (
    arith,
    g.same a,
    count-append a (Pages.pages p) (pages f),
    count-append a (Pages.pages r.1) (pages f),
  );
}

fallback-Gives :
    (p : Pool) (f : MPool) (r : ℕ × MPool)
    → Pages.IsValid p
    → Gives f r
    → Gives (over p f) (r.0, over p r.1)
fallback-Gives p f r v g = record {
  aligned = g.aligned;
  valid = (v, g.valid);
  same = λ a. omega (
    arith,
    g.same a,
    count-append a (Pages.pages p) (pages f),
    count-append a (Pages.pages p) (pages r.1),
  );
}

-- From a chain of valid pools `alloc` gives out one page-aligned page that the chain held, leaves
-- all other pages in it as often as they were, and leaves its pools valid.
pub alloc-Gives : (m : MPool) (r : ℕ × MPool) → IsValid m → alloc m ≡ some r → Gives m r
unfolding alloc
alloc-Gives (alone p) r v h = elim (Option-cases (Pool.alloc p)) [
  | inl e ↦ absurd (ground (arith, e, h))
  | inr (t, e) ↦
      of_some (Gives (alone p)) (rw (e, alloc) at h) (alone-Gives p t (Pages.alloc-Gives p t v e))
]
alloc-Gives (over p f) r v h = elim (Option-cases (Pool.alloc p)) [
  | inl e ↦ elim (Option-cases (alloc f)) [
    | inl e' ↦ absurd (ground (arith, e, e', h))
    | inr (t, e') ↦
        of_some (Gives (over p f)) (rw (e, e', alloc) at h)
          (fallback-Gives p f t v.0 (alloc-Gives f t v.1 e'))
  ]
  | inr (t, e) ↦
      of_some (Gives (over p f)) (rw (e, alloc) at h)
        (own-Gives p f t v.1 (Pages.alloc-Gives p t v.0 e))
]

-- `alloc` fails only when no pool of the chain has a page left.
pub alloc-none : (m : MPool) → alloc m ≡ none → pages m ≡ []
unfolding alloc
alloc-none (alone p) h = elim (Option-cases (Pool.alloc p)) [
  | inl e ↦ Pages.alloc-none p e
  | inr (t, e) ↦ absurd (ground (arith, e, h))
]
alloc-none (over p f) h = elim (Option-cases (Pool.alloc p)) [
  | inl e ↦ elim (Option-cases (alloc f)) [
    | inl e' ↦ rw (Pages.alloc-none p e, alloc-none f e')
    | inr (t, e') ↦ absurd (ground (arith, e, e', h))
  ]
  | inr (t, e) ↦ absurd (ground (arith, e, h))
]

-- `alloc_pages` gave out `size` contiguous pages of the chain, aligned as asked.
pub record GivesPages (m : MPool) (size align : ℕ) (r : Addr.Pages × MPool) : Type 0 where
  pub count_given : r.0.count ≡ size
  pub aligned : r.0.base % (align * page_size) ≡ 0
  pub valid : IsValid r.1
  pub same : SamePages (pages m) (page_run r.0.base r.0.count ++ pages r.1)

own-GivesPages :
    (p : Pool) (f : MPool) (size align : ℕ) (r : Addr.Pages × Pool)
    → IsValid f
    → Contiguous.GivesPages p size align r
    → GivesPages (over p f) size align (r.0, over r.1 f)
own-GivesPages p f size align r v g = record {
  count_given = g.count_given;
  aligned = g.aligned;
  valid = (g.valid, v);
  same = λ a.
      let run = page_run r.0.base r.0.count in
      omega (
        arith,
        g.same a,
        count-append a (Pages.pages p) (pages f),
        count-append a (Pages.pages r.1) (pages f),
        count-append a run (Pages.pages r.1),
        count-append a run (Pages.pages r.1 ++ pages f),
      );
}

fallback-GivesPages :
    (p : Pool) (f : MPool) (size align : ℕ) (r : Addr.Pages × MPool)
    → Pages.IsValid p
    → GivesPages f size align r
    → GivesPages (over p f) size align (r.0, over p r.1)
fallback-GivesPages p f size align r v g = record {
  count_given = g.count_given;
  aligned = g.aligned;
  valid = (v, g.valid);
  same = λ a.
      let run = page_run r.0.base r.0.count in
      omega (
        arith,
        g.same a,
        count-append a (Pages.pages p) (pages f),
        count-append a (Pages.pages p) (pages r.1),
        count-append a run (pages r.1),
        count-append a run (Pages.pages p ++ pages r.1),
      );
}

pub alloc_pages-GivesPages :
    (m : MPool) (size align : ℕ) (r : Addr.Pages × MPool)
    → IsRequest size align
    → IsValid m
    → alloc_pages m size align ≡ some r
    → GivesPages m size align r
unfolding alloc_pages
alloc_pages-GivesPages (alone p) size align r q v h =
    elim (Option-cases (Pool.alloc_pages p size align)) [
      | inl e ↦ absurd (ground (arith, e, h))
      | inr (t, e) ↦
          let g = Contiguous.alloc_pages-GivesPages p size align t q v e in
          of_some (GivesPages (alone p) size align) (rw (e, alloc_pages) at h) (record {
            count_given = g.count_given;
            aligned = g.aligned;
            valid = g.valid;
            same = g.same;
          })
    ]
alloc_pages-GivesPages (over p f) size align r q v h =
    elim (Option-cases (Pool.alloc_pages p size align)) [
      | inl e ↦ elim (Option-cases (alloc_pages f size align)) [
        | inl e' ↦ absurd (ground (arith, e, e', h))
        | inr (t, e') ↦ of_some (GivesPages (over p f) size align) (rw (e, e', alloc_pages) at h) (
            fallback-GivesPages p f size align t v.0
              (alloc_pages-GivesPages f size align t q v.1 e'))
      ]
      | inr (t, e) ↦ of_some (GivesPages (over p f) size align) (rw (e, alloc_pages) at h) (
          own-GivesPages p f size align t v.1
            (Contiguous.alloc_pages-GivesPages p size align t q v.0 e))
    ]
