-- ===== src/Tests/Loads.antt =====
-- hfo2/src/load.rs on two ranges, of which the second does not end with a page.
use hafnium_verification.Prelude.{ℕ, ◌≡◌, refl, true, List, [], ◌∷◌, some, arith}
use hafnium_verification.Load.{MemRange, carve_out_mem_range, update_reserved_ranges}
use hafnium_verification.Load.Reserved.{
  CutFrom, carve_all, Accounts, update_reserved_ranges-Accounts,
}

abbrev range : ℕ → ℕ → MemRange
range begin end = record { begin = begin; end = end }

abbrev known : List MemRange
known = range 4096 40960 ∷ range 65536 131000 ∷ []

abbrev available : List MemRange
available = range 4096 40960 ∷ range 65536 126976 ∷ []

abbrev sizes : List ℕ
sizes = 8192 ∷ 40960 ∷ 1000000 ∷ 4096 ∷ []

available-CutFrom : CutFrom known available
available-CutFrom =
    (refl, omega arith, omega arith, omega arith, (refl, omega arith, omega arith, omega arith, tt))

reserves :
    update_reserved_ranges [] known (carve_all sizes available).1
    ≡ some (range 28672 40960 ∷ range 86016 131000 ∷ [], true)
unfolding update_reserved_ranges carve_out_mem_range
reserves = refl

update_reserved_ranges-Accounts_example :
    Accounts 30000 [] known available
      (carve_all sizes available).0
      (update_reserved_ranges [] known (carve_all sizes available).1)
update_reserved_ranges-Accounts_example =
    update_reserved_ranges-Accounts 30000 sizes [] known available available-CutFrom
