-- ===== src/Mm.antt =====
-- hfo2/src/mm.rs: page table entries, and what the architecture gives.
-- An entry of the table is a block or absent (`leaf`, with the architecture's word `pte_t`) or owns a
-- table: the page that holds it and its entries. The words of leaves are the architecture's
-- alone; that an entry is a table shows in the constructor.
pub mod Map
pub mod View
pub mod Loop
pub mod Levels
pub mod Entries
pub mod Update
pub mod Tables
pub mod Root
pub mod Steps
pub mod Ready
pub mod Commit
pub mod Identity
pub mod Attrs
pub mod Leaks
pub mod Operations
use hafnium_verification.Prelude.{
  ℕ, zero, suc, ◌+◌, ◌*◌, ◌-◌, ◌/◌, ◌%◌, ◌^◌, Bool, true, false, not, ◌&&◌, ◌||◌, Option, none,
  some, List, [], ◌∷◌, add_usize, mul_usize, word, if◌then◌else◌,
}
use hafnium_verification.Addr.{page_bits, page_level_bits, page_size}
use hafnium_verification.Mode.{Mode}

-- The functions `arch_mm_*`. Those of stage 1 and of stage 2 are two such records.
pub record Arch : Type 0 where
  pub max_level : ℕ
  pub root_table_count : ℕ
  pub absent_pte : ℕ → ℕ
  pub table_pte : ℕ → ℕ → ℕ
  pub block_pte : ℕ → ℕ → ℕ → ℕ
  pub is_block_allowed : ℕ → Bool
  pub pte_is_present : ℕ → ℕ → Bool
  pub pte_is_block : ℕ → ℕ → Bool
  pub pte_is_valid : ℕ → ℕ → Bool
  pub pte_attrs : ℕ → ℕ → ℕ
  pub block_from_pte : ℕ → ℕ → ℕ
  pub clear_pa : ℕ → ℕ
  pub combine_table_entry_attrs : ℕ → ℕ → ℕ
  pub mode_to_attrs : Mode → ℕ
  pub attrs_to_mode : ℕ → Mode

pub data Entry (T : Type 0) : Type 0 where
  leaf : ℕ → Entry T
  table : ℕ → List T → Entry T

-- The entries of a table below an entry of this level; below level 0 there are none.
abbrev pub Child : ℕ → Type 0
Child zero = ⊥
Child (suc level) = Entry (Child level)

-- `PageTableEntry` at a level.
abbrev pub Pte : ℕ → Type 0
Pte level = Entry (Child level)

-- Address arithmetic: `mod addr`. A mask by a power of 2 is written as the division that it stands
-- for; the shifts are below 64 for the levels of the architectures (4 at most).
abbrev pub round_down_to_page : ℕ → ℕ
round_down_to_page addr = addr / page_size * page_size

abbrev pub round_up_to_page : ℕ → ℕ
round_up_to_page addr = round_down_to_page (add_usize addr (page_size - 1))

abbrev pub entry_size : ℕ → ℕ
entry_size level = 2 ^ (page_bits + level * page_level_bits)

abbrev pub start_of_next_block : ℕ → ℕ → ℕ
start_of_next_block addr block_size = add_usize addr block_size / block_size * block_size

abbrev pub level_end : ℕ → ℕ → ℕ
level_end addr level =
    let size = 2 ^ (page_bits + (level + 1) * page_level_bits) in mul_usize (addr / size + 1) size

abbrev pub index : ℕ → ℕ → ℕ
index addr level = addr / entry_size level % 2 ^ page_level_bits

-- `PTE_PER_PAGE`
abbrev pub pte_per_page : ℕ
pte_per_page = 512

module _ (arch : Arch) where
  open arch use {
    absent_pte, table_pte, block_pte, pte_is_present, pte_is_block, pte_is_valid, pte_attrs,
    max_level, root_table_count,
  }

  -- `Stage::ptable_addr_space_end`
  abbrev pub ptable_addr_space_end : ℕ
  ptable_addr_space_end = mul_usize root_table_count (entry_size (max_level + 1))

  module _ {T : Type 0} (level : ℕ) where
    abbrev pub is_present : Entry T → Bool
    is_present (leaf pte) = pte_is_present pte level
    is_present (table page ptes) = true

    abbrev pub is_valid : Entry T → Bool
    is_valid (leaf pte) = pte_is_valid pte level
    is_valid (table page ptes) = true

    abbrev pub is_block : Entry T → Bool
    is_block (leaf pte) = pte_is_block pte level
    is_block (table page ptes) = false

    abbrev pub attrs : Entry T → ℕ
    attrs (leaf pte) = pte_attrs pte level
    attrs (table page ptes) = pte_attrs (table_pte level page) level
