-- ===== src/Mm/View.antt =====
-- What a page table says of each address, and what is taken of the architecture.
use hafnium_verification.Prelude.{
  ℕ, zero, suc, ◌≡◌, ◌+◌, ◌*◌, ◌/◌, ◌%◌, ◌<◌, Bool, true, false, Option, none, some, List,
  add_usize, if◌then◌else◌, length, get_elem?, ◌&&◌, leb, ltb, All,
}
use hafnium_verification.Addr.{page_size}
use hafnium_verification.Mode.{Mode}
use hafnium_verification.Mm.{Arch, leaf, table, Pte, entry_size, index, pte_per_page}
use hafnium_verification.Mm.Map.{Update}

-- What a page table shows to an address: the address that it is mapped to, and the attributes.
abbrev pub Shown : Type 0
Shown = Option (ℕ × ℕ)

-- Identity: attributes are shown, with the address itself, if memory that has them is present.
abbrev pub shown : (ℕ → Bool) → ℕ → ℕ → Shown
shown visible attrs a = if visible attrs then some (a, attrs) else none

-- Nothing is shown, or the address itself.
abbrev pub IsIdentity : ℕ → Shown → Type 0
IsIdentity a none = Unit
IsIdentity a (some (x, attrs)) = x ≡ a

-- What the entry that was looked up shows.
abbrev pub pick : {T : Type 0} → (T → Shown) → Option T → Shown
pick v none = none
pick v (some t) = v t

module _ (arch : Arch) where
  open arch use {pte_is_present, pte_is_block, pte_attrs, block_from_pte}

  -- What the word of a leaf shows, if it is present and a block.
  abbrev pub seen : ℕ → ℕ → ℕ → Shown
  seen level pte a =
      if pte_is_present pte level && pte_is_block pte level
      then some (block_from_pte pte level + a % entry_size level, pte_attrs pte level)
      else none

  -- What an entry shows to an address, `none` if it is absent.
  abbrev pub view : (level : ℕ) → Pte level → ℕ → Shown
  view zero (leaf pte) a = seen zero pte a
  view zero (table page ptes) a = none
  view (suc level) (leaf pte) a = seen (suc level) pte a
  view (suc level) (table page ptes) a =
      pick (λ pte. view level pte a) (get_elem? ptes (index a level))

  -- The same of a table whose entries are of the level.
  abbrev pub view_table : (level : ℕ) → List (Pte level) → ℕ → Shown
  view_table level ptes a = pick (λ pte. view level pte a) (get_elem? ptes (index a level))

-- Each table has all its entries, and none stands at level 0.
abbrev pub IsTree : (level : ℕ) → Pte level → Type 0
IsTree zero (leaf pte) = Unit
IsTree zero (table page ptes) = ⊥
IsTree (suc level) (leaf pte) = Unit
IsTree (suc level) (table page ptes) = (length ptes ≡ pte_per_page) × All (IsTree level) ptes

abbrev pub IsTable : (level : ℕ) → List (Pte level) → Type 0
IsTable level ptes = (length ptes ≡ pte_per_page) × All (IsTree level) ptes

-- What the code relies on of `arch_mm_*`, for addresses below `limit`.
pub record Laws (arch : Arch) (limit : ℕ) (visible : ℕ → Bool) : Type 0 where
  pub clear_rounds : (pa : ℕ) → pa < limit → arch.clear_pa pa ≡ pa / page_size * page_size
  pub pages_allowed : arch.is_block_allowed 0 ≡ true
  pub absent_hidden : (level : ℕ) → arch.pte_is_present (arch.absent_pte level) level ≡ false
  -- The attributes say whether memory that has them is present.
  pub present_visible :
      (level pte : ℕ) → arch.pte_is_present pte level ≡ visible (arch.pte_attrs pte level)
  -- A block of a mode, where blocks are allowed, shows each of its addresses to itself.
  pub block_shows :
      (level pa a : ℕ) (mode : Mode)
      → pa < limit
      → pa % entry_size level ≡ 0
      → a / entry_size level ≡ pa / entry_size level
      → arch.is_block_allowed level ≡ true
      → seen arch level (arch.block_pte level pa (arch.mode_to_attrs mode)) a
        ≡ shown visible (arch.mode_to_attrs mode) a
  -- The blocks that a block is split into, which are made of its word, show what it showed to an address
  -- that it maps to itself.
  pub split_shows :
      (level pte a : ℕ)
      → arch.pte_is_block pte (suc level) ≡ true
      → IsIdentity a (seen arch (suc level) pte a)
      → seen arch level
          (arch.block_pte level
            (add_usize pte (index a level * entry_size level))
            (arch.pte_attrs pte (suc level)))
          a
        ≡ seen arch (suc level) pte a

-- What an update should make of an address from `begin` on that showed `old`.
module _ (visible : ℕ → Bool) (u : Update) where
  abbrev pub target : ℕ → Shown
  target a = if u.unmap then none else shown visible u.attrs a

  abbrev pub after : ℕ → ℕ → Shown → Shown
  after begin a old = if u.commit && (leb begin a && ltb a u.end) then target a else old
