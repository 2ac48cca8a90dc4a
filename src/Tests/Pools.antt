-- ===== src/Tests/Pools.antt =====
-- hfo2/src/mpool.rs and page.rs: pools of a few pages.
use hafnium_verification.Prelude.{
  ◌≡◌, refl, ◌+◌, ◌*◌, ◌%◌, ◌<◌, ◌≤◌, none, some, [], ◌∷◌, arith, count,
}
use hafnium_verification.Addr
use hafnium_verification.Addr.{page_size, round_up, from_raw_u8}
use hafnium_verification.Addr.Rounding.{round_up_exact, from_raw_u8-within}
use hafnium_verification.Pool
use hafnium_verification.Pool.Pages.{IsChunk, SamePages}
use hafnium_verification.MPool.{MPool, alone, over, alloc, drop}
use hafnium_verification.MPool.Conserve.{pages, IsValid, Gives, alloc-Gives}
use hafnium_verification.MPool.GiveBack.{drop_keeps}
use hafnium_verification.MPool.Session.{Session}

-- Two pages as entries, and a chunk of four.
abbrev first : Pool.Pool
first = record {
  entry_list = 4096 ∷ 8192 ∷ [];
  chunk_list = record { start = 16384; size = 4 } ∷ [];
}

abbrev first_rest : Pool.Pool
first_rest = record { entry_list = 8192 ∷ []; chunk_list = record { start = 16384; size = 4 } ∷ [] }

abbrev second : MPool
second = alone (record { entry_list = 40960 ∷ []; chunk_list = [] })

abbrev chain : MPool
chain = over first second

abbrev chain_rest : MPool
chain_rest = over first_rest second

four-IsChunk : IsChunk (record { start = 16384; size = 4 })
four-IsChunk = record { nonempty = omega arith; aligned = refl; inside = omega arith }

chain-IsValid : IsValid chain
chain-IsValid = (((refl, (refl, tt)), (four-IsChunk, tt)), ((refl, tt), tt))

takes_first : alloc chain ≡ some (4096, chain_rest)
unfolding alloc Pool.alloc
takes_first = refl

abbrev start : Session
start = record { pool = chain; held = [] }

abbrev later : Session
later = record { pool = chain_rest; held = 4096 ∷ [] }

alloc-Gives_example : Gives chain (4096, chain_rest)
alloc-Gives_example = alloc-Gives chain (4096, chain_rest) chain-IsValid takes_first

abbrev no_pages : Pool.Pool
no_pages = record { entry_list = []; chunk_list = [] }

no_pool : alloc (over no_pages (alone no_pages)) ≡ none
unfolding alloc Pool.alloc
no_pool = refl

abbrev two_pages : Addr.Pages
two_pages = record { base = 16384; count = 2 }

abbrev chain_left : MPool
chain_left =
    over
      (record {
        entry_list = 4096 ∷ 8192 ∷ [];
        chunk_list = record { start = 24576; size = 2 } ∷ [];
      })
      second

drop_keeps_example :
    (g : MPool) × (drop (over first second) ≡ some g)
    × IsValid g
    × SamePages (pages g) (pages (over first second))
drop_keeps_example = drop_keeps first second chain-IsValid

round_up_exact_example :
    (5000 ≤ round_up 5000 4096)
    × (round_up 5000 4096 < 5000 + 4096)
    × (round_up 5000 4096 % 4096 ≡ 0)
round_up_exact_example = round_up_exact 5000 4096 (omega arith) (omega arith) (omega arith)

abbrev one_page : Addr.Pages
one_page = record { base = 8192; count = 1 }

whole_page : from_raw_u8 5000 8000 ≡ some one_page
unfolding from_raw_u8 Addr.round_down round_up
whole_page = refl

from_raw_u8-within_example :
    (one_page.base % page_size ≡ 0)
    × (0 < one_page.count)
    × (5000 ≤ one_page.base)
    × (one_page.base + one_page.count * page_size ≤ 5000 + 8000)
    × (5000 + 8000 < one_page.base + one_page.count * page_size + page_size)
    × (one_page.base < 5000 + page_size)
from_raw_u8-within_example = from_raw_u8-within 5000 8000 one_page (omega arith) whole_page

no_whole_page : from_raw_u8 5000 4000 ≡ none
unfolding from_raw_u8 Addr.round_down round_up
no_whole_page = refl
