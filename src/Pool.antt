-- ===== src/Pool.antt =====
-- hfo2/src/mpool.rs: the page pool, and the chain of pools of `MPool`.
-- The two intrusive lists are the sequences of their elements (slist.rs): a chunk is its address
-- with the size written into it, an entry of `entry_list` is the address of one free page.
pub mod Pages
pub mod Contiguous
use hafnium_verification.Prelude.{
  ℕ, ◌+◌, ◌/◌, ◌-◌, Bool, Option, none, some, ◌&&◌, List, [], ◌∷◌, add_usize, sub_usize, mul_usize,
  leb, ltb, ◌==◌, if◌then◌else◌,
}
use hafnium_verification.Addr.{page_size, round_up}
use hafnium_verification.Addr

pub record Chunk : Type 0 where
  pub start : ℕ
  pub size : ℕ

pub record Pool : Type 0 where
  pub chunk_list : List Chunk
  pub entry_list : List ℕ

pub new : Pool
new = record { chunk_list = []; entry_list = [] }

-- The list operations of slist.rs: `push` and `pop` at the head, and the removal of the first
-- element that the condition accepts.
module _ {ℓ} {A : Type ℓ} where
  abbrev pub push : A → List A → List A
  push x xs = x ∷ xs

  abbrev pub pop : List A → Option (A × List A)
  pop [] = none
  pop (x ∷ xs) = some (x, xs)

  abbrev pub pop_if_some {κ} : {R : Type κ} → (A → Option R) → List A → Option (A × R × List A)
  pop_if_some cond [] = none
  pop_if_some cond (x ∷ xs) = elim (cond x) [
    | some r ↦ some (x, r, xs)
    | none ↦ elim (pop_if_some cond xs) [ none ↦ none | some (y, r, ys) ↦ some (y, r, x ∷ ys) ]
  ]

-- A chunk of more than one page gives its first page and goes back with the rest.
abbrev push_rest : Chunk → List Chunk → List Chunk
push_rest c chunks =
    if ltb 1 c.size
    then push (record { start = add_usize c.start page_size; size = sub_usize c.size 1 }) chunks
    else chunks

unfoldable pub alloc : Pool → Option (ℕ × Pool)
alloc p = elim (pop p.entry_list) [
  | some (entry, entries) ↦ some (entry, record p { entry_list = entries })
  | none ↦ elim (pop p.chunk_list) [
    | none ↦ none
    | some (chunk, chunks) ↦ some (chunk.start, record p { chunk_list = push_rest chunk chunks })
  ]
]

-- The bounds that `alloc_pages` computes for a chunk.
pub record Fit : Type 0 where
  pub chunk_start : ℕ
  pub chunk_end : ℕ
  pub start : ℕ
  pub end : ℕ

-- Where the request would lie in the chunk, if it does.
unfoldable pub fit : ℕ → ℕ → Chunk → Option Fit
fit size align chunk =
    let chunk_end = add_usize chunk.start (mul_usize chunk.size page_size) in
    let start = round_up chunk.start (mul_usize align page_size) in
    let end = add_usize start (mul_usize size page_size) in
    if leb chunk.start start && (leb start end && leb end chunk_end)
    then some
        (record { chunk_start = chunk.start; chunk_end = chunk_end; start = start; end = end })
    else none

-- `[chunk_start, start)` goes back to the pool.
abbrev pub give_before : Fit → List Chunk → List Chunk
give_before f chunks =
    if ltb f.chunk_start f.start
    then push (record { start = f.chunk_start; size = sub_usize f.start f.chunk_start / page_size })
        chunks
    else chunks

-- `[end, chunk_end)` goes back to the pool.
abbrev pub give_after : Fit → List Chunk → List Chunk
give_after f chunks =
    if ltb f.end f.chunk_end
    then push (record { start = f.end; size = sub_usize f.chunk_end f.end / page_size }) chunks
    else chunks

unfoldable pub alloc_pages : Pool → ℕ → ℕ → Option (Addr.Pages × Pool)
unfolding alloc fit
alloc_pages p size align =
    if size == 1 && align == 1
    then elim (alloc p) [
      | none ↦ none
      | some (page, q) ↦ some (record { base = page; count = 1 }, q)
    ]
    else elim (pop_if_some (fit size align) p.chunk_list) [
      | none ↦ none
      | some (chunk, f, chunks) ↦ some (
        record { base = f.start; count = size },
        record p { chunk_list = give_after f (give_before f chunks) },
      )
    ]

unfoldable pub free : Pool → ℕ → Pool
free p page = record p { entry_list = push page p.entry_list }

unfoldable pub free_pages : Pool → Addr.Pages → Pool
free_pages p pages = record p {
  chunk_list = push (record { start = pages.base; size = pages.count }) p.chunk_list;
}
