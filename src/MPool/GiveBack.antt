-- ===== src/MPool/GiveBack.antt =====
-- Giving pages back, to the chain and to its fallback.
use hafnium_verification.Prelude.{
  ℕ, ◌≡◌, refl, ap, ◌+◌, ◌%◌, List, [], ◌∷◌, ◌++◌, some, arith, count, count-append,
}
use hafnium_verification.Addr
use hafnium_verification.Addr.{page_size, from_raw_u8}
use hafnium_verification.Pool
use hafnium_verification.Pool.{Pool, Chunk}
use hafnium_verification.Pool.Pages.{
  page_run, chunk_pages, IsChunk, AllChunks, AllPages, SamePages, free-IsValid, free_pages-IsValid,
  pages-free, pages-free_pages,
}
use hafnium_verification.Pool.Pages
use hafnium_verification.MPool.{MPool, alone, over, free, free_pages, drain, merge, drop}
use hafnium_verification.MPool.Conserve.{pages, IsValid}

-- What comes back is in the chain again: `free` undoes what `alloc` did.
pub free-Gives :
    (m : MPool) (x : ℕ)
    → x % page_size ≡ 0
    → IsValid m
    → IsValid (free m x) × SamePages (pages (free m x)) (x ∷ pages m)
unfolding free
free-Gives (alone p) x al v = (free-IsValid p x al v, λ a. ap (count a) (pages-free p x))
free-Gives (over p f) x al v =
    ((free-IsValid p x al v.0, v.1), λ a. ap (λ l. count a (l ++ pages f)) (pages-free p x))

pub free_pages-Gives :
    (m : MPool) (r : Addr.Pages)
    → IsChunk (record { start = r.base; size = r.count })
    → IsValid m
    → IsValid (free_pages m r)
      × SamePages (pages (free_pages m r)) (page_run r.base r.count ++ pages m)
unfolding free_pages
free_pages-Gives (alone p) r c v = (free_pages-IsValid p r c v, pages-free_pages p r)
free_pages-Gives (over p f) r c v = (
  (free_pages-IsValid p r c v.0, v.1),
  λ a. omega (
    arith,
    pages-free_pages p r a,
    count-append a (Pages.pages (Pool.free_pages p r)) (pages f),
    count-append a (page_run r.base r.count) (Pages.pages p),
    count-append a (page_run r.base r.count) (Pages.pages p ++ pages f),
    count-append a (Pages.pages p) (pages f),
  ),
)

count-drain : (a : ℕ) (xs ys : List ℕ) → count a (drain xs ys) ≡ count a xs + count a ys
count-drain a [] ys = omega arith
count-drain a (x ∷ xs) ys = omega (arith, count-drain a xs (x ∷ ys))

count-chunk_pages-drain :
    (a : ℕ) (cs ds : List Chunk)
    → count a (chunk_pages (drain cs ds)) ≡ count a (chunk_pages cs) + count a (chunk_pages ds)
count-chunk_pages-drain a [] ds = omega arith
count-chunk_pages-drain a (c ∷ cs) ds = omega (
  arith,
  count-chunk_pages-drain a cs (c ∷ ds),
  count-append a (page_run c.start c.size) (chunk_pages cs),
  count-append a (page_run c.start c.size) (chunk_pages ds),
)

drain-AllPages : (xs ys : List ℕ) → AllPages xs → AllPages ys → AllPages (drain xs ys)
drain-AllPages [] ys u v = v
drain-AllPages (x ∷ xs) ys u v = drain-AllPages xs (x ∷ ys) u.1 (u.0, v)

drain-AllChunks : (cs ds : List Chunk) → AllChunks cs → AllChunks ds → AllChunks (drain cs ds)
drain-AllChunks [] ds u v = v
drain-AllChunks (c ∷ cs) ds u v = drain-AllChunks cs (c ∷ ds) u.1 (u.0, v)

count-merge :
    (a : ℕ) (p q : Pool)
    → count a (Pages.pages (merge p q)) ≡ count a (Pages.pages p) + count a (Pages.pages q)
count-merge a p q = omega (
  arith,
  count-drain a p.entry_list q.entry_list,
  count-chunk_pages-drain a p.chunk_list q.chunk_list,
  count-append a (drain p.entry_list q.entry_list) (chunk_pages (drain p.chunk_list q.chunk_list)),
  count-append a p.entry_list (chunk_pages p.chunk_list),
  count-append a q.entry_list (chunk_pages q.chunk_list),
)

merge-IsValid : (p q : Pool) → Pages.IsValid p → Pages.IsValid q → Pages.IsValid (merge p q)
merge-IsValid p q u v = (
  drain-AllPages p.entry_list q.entry_list u.0 v.0,
  drain-AllChunks p.chunk_list q.chunk_list u.1 v.1,
)

-- A pool with a fallback, both valid, that is dropped leaves all its pages to the fallback, which
-- stays valid and keeps its own.
pub drop_keeps :
    (p : Pool) (f : MPool)
    → IsValid (over p f)
    → (g : MPool) × (drop (over p f) ≡ some g) × IsValid g × SamePages (pages g) (pages (over p f))
unfolding drop
drop_keeps p (alone q) v = (
  alone (merge p q),
  refl,
  merge-IsValid p q v.0 v.1,
  λ a. omega (arith, count-merge a p q, count-append a (Pages.pages p) (Pages.pages q)),
)
drop_keeps p (over q f) v = (
  over (merge p q) f,
  refl,
  (merge-IsValid p q v.0 v.1.0, v.1.1),
  λ a. omega (
    arith,
    count-merge a p q,
    count-append a (Pages.pages (merge p q)) (pages f),
    count-append a (Pages.pages q) (pages f),
    count-append a (Pages.pages p) (Pages.pages q ++ pages f),
  ),
)
