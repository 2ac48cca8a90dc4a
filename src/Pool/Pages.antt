-- ===== src/Pool/Pages.antt =====
-- Which pages a pool holds, and what each operation does to them.
use hafnium_verification.Prelude.{
  of_some, ap, ap₂, ltb, ltb→lt, ℕ, zero, suc, ◌≡◌, refl, ◌+◌, ◌*◌, ◌-◌, ◌<◌, ◌%◌, List, [], ◌∷◌,
  ◌++◌, none, some, arith, word, count, count-append, Bool-cases, inl, inr,
}
use hafnium_verification.Addr.{page_size, round_up}
use hafnium_verification.Addr
use hafnium_verification.Pool.{Chunk, Pool, push_rest, alloc, free, free_pages}

-- The addresses of `n` pages from `base` on.
abbrev pub page_run : ℕ → ℕ → List ℕ
page_run base zero = []
page_run base (suc n) = base ∷ page_run (base + page_size) n

abbrev pub chunk_pages : List Chunk → List ℕ
chunk_pages [] = []
chunk_pages (c ∷ cs) = page_run c.start c.size ++ chunk_pages cs

-- The pages that a pool can still give out.
abbrev pub pages : Pool → List ℕ
pages p = p.entry_list ++ chunk_pages p.chunk_list

-- A chunk is a run of at least one page, aligned and inside the address space.
pub record IsChunk (c : Chunk) : Type 0 where
  pub nonempty : 0 < c.size
  pub aligned : c.start % page_size ≡ 0
  pub inside : c.start + c.size * page_size < word

abbrev pub AllChunks : List Chunk → Type 0
AllChunks [] = Unit {0}
AllChunks (c ∷ cs) = IsChunk c × AllChunks cs

abbrev pub AllPages : List ℕ → Type 0
AllPages [] = Unit {0}
AllPages (x ∷ xs) = (x % page_size ≡ 0) × AllPages xs

abbrev pub IsValid : Pool → Type 0
IsValid p = AllPages p.entry_list × AllChunks p.chunk_list

-- Two page lists hold the same pages, each as often.
abbrev pub SamePages : List ℕ → List ℕ → Type 0
SamePages xs ys = (a : ℕ) → count a xs ≡ count a ys

pub count-page_run-add :
    (a base m n : ℕ)
    → count a (page_run base (m + n))
      ≡ count a (page_run base m) + count a (page_run (base + m * page_size) n)
count-page_run-add a base zero n =
    let e : ◌≡◌ {A = ℕ} (0 + n) n = omega arith in
    let f : base + 0 * page_size ≡ base = omega arith in rw (e, f) (omega arith)
count-page_run-add a base (suc m) n =
    let e : suc m + n ≡ suc (m + n) = omega arith in
    let f : base + suc m * page_size ≡ base + page_size + m * page_size = omega arith in
    rw (e, f) (omega (arith, count-page_run-add a (base + page_size) m n))

-- A nonempty run begins with its base.
pub page_run_step :
    (base n : ℕ) → 0 < n → page_run base n ≡ base ∷ page_run (base + page_size) (n - 1)
page_run_step base zero h = absurd (omega arith)
page_run_step base (suc n) h =
    let e : n ≡ suc n - 1 = omega arith in ap (λ k. base ∷ page_run (base + page_size) k) e

-- What `alloc` pushes back is the chunk without its first page.
push_rest-pages :
    (c : Chunk) (cs : List Chunk)
    → IsChunk c
    → chunk_pages (push_rest c cs) ≡ page_run (c.start + page_size) (c.size - 1) ++ chunk_pages cs
push_rest-pages c cs v = elim (Bool-cases (ltb 1 c.size)) [
  | inl more ↦ rw more (
      ap₂ (λ s n. page_run s n ++ chunk_pages cs) (let h = ltb→lt 1 c.size more in omega arith)
        (let h = ltb→lt 1 c.size more in omega arith))
  | inr last ↦ rw last (
      ap (λ n. page_run (c.start + page_size) n ++ chunk_pages cs)
        (let e : ◌≡◌ {A = ℕ} 0 (c.size - 1) = ground (arith, last, v.nonempty) in e))
]

push_rest-AllChunks :
    (c : Chunk) (cs : List Chunk) → IsChunk c → AllChunks cs → AllChunks (push_rest c cs)
push_rest-AllChunks c cs v vs = ground arith

-- What a successful `alloc` does to a pool: it gives out one page that the pool held, keeps all
-- others, and keeps the pool valid.
pub record Gives (p : Pool) (r : ℕ × Pool) : Type 0 where
  pub aligned : r.0 % page_size ≡ 0
  pub valid : IsValid r.1
  pub same : SamePages (pages p) (r.0 ∷ pages r.1)

alloc_lists :
    (es : List ℕ) (cs : List Chunk) (r : ℕ × Pool)
    → AllPages es
    → AllChunks cs
    → alloc (record { entry_list = es; chunk_list = cs }) ≡ some r
    → Gives (record { entry_list = es; chunk_list = cs }) r
unfolding alloc
alloc_lists [] [] r u v h = cc
alloc_lists [] (c ∷ cs) r u v h =
    of_some (Gives (record { entry_list = []; chunk_list = c ∷ cs })) h (record {
      aligned = v.0.aligned;
      valid = (tt, push_rest-AllChunks c cs v.0 v.1);
      same = λ a. rw (push_rest-pages c cs v.0, page_run_step c.start c.size v.0.nonempty) refl;
    })
alloc_lists (e ∷ es) cs r u v h =
    of_some (Gives (record { entry_list = e ∷ es; chunk_list = cs })) h
      (record { aligned = u.0; valid = (u.1, v); same = λ a. refl })

-- From a valid pool `alloc` gives out one page-aligned page that the pool held, leaves all other
-- pages in it as often as they were, and leaves it valid.
pub alloc-Gives : (p : Pool) (r : ℕ × Pool) → IsValid p → alloc p ≡ some r → Gives p r
alloc-Gives p r v h = alloc_lists p.entry_list p.chunk_list r v.0 v.1 h

alloc-none_lists :
    (es : List ℕ) (cs : List Chunk)
    → alloc (record { entry_list = es; chunk_list = cs }) ≡ none
    → es ++ chunk_pages cs ≡ []
unfolding alloc
alloc-none_lists [] [] h = refl
alloc-none_lists [] (c ∷ cs) h = cc
alloc-none_lists (e ∷ es) cs h = cc

-- `alloc` fails only when the pool has no page left.
pub alloc-none : (p : Pool) → alloc p ≡ none → pages p ≡ []
alloc-none p h = alloc-none_lists p.entry_list p.chunk_list h

-- A page that comes back is the next one to be given out, and the pool stays valid.
pub free-IsValid : (p : Pool) (x : ℕ) → x % page_size ≡ 0 → IsValid p → IsValid (free p x)
unfolding free
free-IsValid p x al v = ((al, v.0), v.1)

pub pages-free : (p : Pool) (x : ℕ) → pages (free p x) ≡ x ∷ pages p
unfolding free
pages-free p x = refl

pub free_pages-IsValid :
    (p : Pool) (r : Addr.Pages)
    → IsChunk (record { start = r.base; size = r.count })
    → IsValid p
    → IsValid (free_pages p r)
unfolding free_pages
free_pages-IsValid p r c v = (v.0, (c, v.1))

pub pages-free_pages :
    (p : Pool) (r : Addr.Pages)
    → SamePages (pages (free_pages p r)) (page_run r.base r.count ++ pages p)
unfolding free_pages
pages-free_pages p r a = omega (
  arith,
  count-append a p.entry_list (page_run r.base r.count ++ chunk_pages p.chunk_list),
  count-append a (page_run r.base r.count) (chunk_pages p.chunk_list),
  count-append a p.entry_list (chunk_pages p.chunk_list),
  count-append a (page_run r.base r.count) (pages p),
)
