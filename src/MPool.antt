-- ===== src/MPool.antt =====
-- hfo2/src/mpool.rs, `MPool`: a pool with an optional fallback pool, which may have one in turn.
-- The `*const MPool` of a fallback is the fallback itself: a call works on the whole chain, whose
-- pools no other processor touches while the call holds their locks one after the other.
pub mod Conserve
pub mod GiveBack
pub mod Session
use hafnium_verification.Prelude.{ℕ, ◌≡◌, Option, none, some, List, [], ◌∷◌, Bool, true, false}
use hafnium_verification.Addr
use hafnium_verification.Addr.{from_raw_u8}
use hafnium_verification.Pool
use hafnium_verification.Pool.{Pool}

pub data MPool : Type 0 where
  alone : Pool → MPool
  over : Pool → MPool → MPool

unfoldable pub new : MPool
new = alone Pool.new

unfoldable pub new_with_fallback : MPool → MPool
new_with_fallback fallback = over Pool.new fallback

-- `mpool_init_from`: the new pool takes over the lists and the fallback of `from`, and `from` is
-- left empty, with no fallback. (`MPool::new_from` alone leaves both with one fallback.)
unfoldable pub init_from : MPool → MPool × MPool
init_from from = (from, alone Pool.new)

unfoldable pub alloc : MPool → Option (ℕ × MPool)
alloc (alone p) = elim (Pool.alloc p) [ some (page, q) ↦ some (page, alone q) | none ↦ none ]
alloc (over p f) = elim (Pool.alloc p) [
  | some (page, q) ↦ some (page, over q f)
  | none ↦ elim (alloc f) [ some (page, g) ↦ some (page, over p g) | none ↦ none ]
]

unfoldable pub alloc_pages : MPool → ℕ → ℕ → Option (Addr.Pages × MPool)
alloc_pages (alone p) count align = elim (Pool.alloc_pages p count align) [
  | some (pages, q) ↦ some (pages, alone q)
  | none ↦ none
]
alloc_pages (over p f) count align = elim (Pool.alloc_pages p count align) [
  | some (pages, q) ↦ some (pages, over q f)
  | none ↦ elim (alloc_pages f count align) [
    | some (pages, g) ↦ some (pages, over p g)
    | none ↦ none
  ]
]

-- Pages come back to the first pool of the chain.
unfoldable pub free : MPool → ℕ → MPool
free (alone p) page = alone (Pool.free p page)
free (over p f) page = over (Pool.free p page) f

unfoldable pub free_pages : MPool → Addr.Pages → MPool
free_pages (alone p) pages = alone (Pool.free_pages p pages)
free_pages (over p f) pages = over (Pool.free_pages p pages) f

-- `while let Some(x) = from.pop() { to.push(x) }`
abbrev pub drain {ℓ} : {A : Type ℓ} → List A → List A → List A
drain [] to = to
drain (x ∷ from) to = drain from (Pool.push x to)

abbrev pub merge : Pool → Pool → Pool
merge p q = record {
  entry_list = drain p.entry_list q.entry_list;
  chunk_list = drain p.chunk_list q.chunk_list;
}

-- `Drop`: the pages go to the fallback, whose new state it returns; without one they are lost.
unfoldable pub drop : MPool → Option MPool
drop (alone p) = none
drop (over p (alone q)) = some (alone (merge p q))
drop (over p (over q f)) = some (over (merge p q) f)

-- `mpool_add_chunk`
unfoldable pub add_chunk : MPool → ℕ → ℕ → MPool × Bool
add_chunk m begin size = elim (from_raw_u8 begin size) [
  | none ↦ (m, false)
  | some pages ↦ (free_pages m pages, true)
]
