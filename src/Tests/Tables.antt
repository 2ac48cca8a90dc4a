-- ===== src/Tests/Tables.antt =====
-- hfo2/src/mm.rs: a small architecture of two levels, and updates of its page tables.
use hafnium_verification.Prelude.{
  ◌%◌, leb, ℕ, refl, ◌+◌, ◌*◌, ◌/◌, Bool, ◌&&◌, [], ◌∷◌, if◌then◌else◌, ◌==◌,
}
use hafnium_verification.Addr.{page_size}
use hafnium_verification.Mode.{Mode, empty}
use hafnium_verification.MPool.{MPool, alone}
use hafnium_verification.Mm.{Arch, Pte, leaf, table}
use hafnium_verification.Mm.Map.{Tables, tabulate, replace}
use hafnium_verification.Mm.Leaks.{Returns, replace-Returns}
use hafnium_verification.MPool.Conserve.{IsValid}

-- A word has the address in the bits 12 to 47 and attributes below, of which the lowest says that it
-- is present. There are blocks up to level 2.
abbrev pub small : Arch
small = record {
  max_level = 1;
  root_table_count = 1;
  absent_pte = λ level. 0;
  table_pte = λ level pa. pa + 3;
  block_pte = λ level pa attrs. pa % 281474976710656 / 4096 * 4096 + attrs % 4096;
  is_block_allowed = λ level. leb level 2;
  pte_is_present = λ pte level. pte % 2 == 1;
  pte_is_block = λ pte level. leb level 2 && (pte % 2 == 1);
  pte_is_valid = λ pte level. pte % 2 == 1;
  pte_attrs = λ pte level. pte % 4096;
  block_from_pte = λ pte level. pte % 281474976710656 / 4096 * 4096;
  clear_pa = λ pa. pa / page_size * page_size;
  combine_table_entry_attrs = λ table block. block;
  mode_to_attrs = λ mode. 1 + (if mode.r then 4 else 0) + (if mode.w then 8 else 0);
  attrs_to_mode = λ attrs. empty;
}

abbrev is_visible : ℕ → Bool
is_visible attrs = attrs % 2 == 1

-- One root table, all of whose entries are absent.
abbrev pub no_pages : Tables small
no_pages = tabulate 0 512 (λ i. leaf 0) ∷ []

abbrev pub three_pages : MPool
three_pages = alone (record { entry_list = 4096 ∷ 8192 ∷ 12288 ∷ []; chunk_list = [] })

three_pages-IsValid : IsValid three_pages
three_pages-IsValid = ((refl, (refl, (refl, tt))), tt)

-- A table with a table below it.
abbrev two_tables : Pte 1
two_tables = table 16384 (table 20480 [] ∷ [])

replace-Returns_example :
    Returns (16384 ∷ 20480 ∷ []) three_pages (replace small 1 two_tables (leaf 0) three_pages).1
replace-Returns_example =
    replace-Returns small 1 16384 (table 20480 [] ∷ []) (leaf 0) three_pages (refl, (refl, tt))
      three_pages-IsValid
