-- ===== src/MPool/Session.antt =====
-- Any history of a client of a chain of pools.
use hafnium_verification.Prelude.{ℕ, ◌≡◌, ◌%◌, List, ◌∷◌, ◌++◌, some, count}
use hafnium_verification.Addr
use hafnium_verification.Addr.{page_size}
use hafnium_verification.Pool.Pages.{page_run, IsChunk, SamePages}
use hafnium_verification.Pool.Contiguous.{IsRequest}
use hafnium_verification.MPool.{MPool, alloc, alloc_pages, free, free_pages}
use hafnium_verification.MPool.Conserve.{pages, IsValid}

-- A chain of pools and the pages that its client holds.
pub record Session : Type 0 where
  pub pool : MPool
  pub held : List ℕ

-- One call of the client. It gives back only what it holds, in any order.
pub data Step (s : Session) : Session → Type 0 where
  takes :
      (x : ℕ) (m : MPool)
      → alloc s.pool ≡ some (x, m)
      → Step s (record { pool = m; held = x ∷ s.held })
  takes_run :
      (size align : ℕ) (r : Addr.Pages) (m : MPool)
      → IsRequest size align
      → alloc_pages s.pool size align ≡ some (r, m)
      → Step s (record { pool = m; held = page_run r.base r.count ++ s.held })
  gives :
      (x : ℕ) (rest : List ℕ)
      → x % page_size ≡ 0
      → SamePages s.held (x ∷ rest)
      → Step s (record { pool = free s.pool x; held = rest })
  gives_run :
      (r : Addr.Pages) (rest : List ℕ)
      → IsChunk (record { start = r.base; size = r.count })
      → SamePages s.held (page_run r.base r.count ++ rest)
      → Step s (record { pool = free_pages s.pool r; held = rest })

pub data Reach (s : Session) : Session → Type 0 where
  here : Reach s s
  next : {t u : Session} → Reach s t → Step t u → Reach s u

abbrev pub all_pages : Session → List ℕ
all_pages s = s.held ++ pages s.pool

abbrev Keeps : Session → Session → Type 0
Keeps s t = IsValid t.pool × SamePages (all_pages t) (all_pages s)
