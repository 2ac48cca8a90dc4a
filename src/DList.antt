-- ===== src/DList.antt =====
-- hfo2/src/list.rs: the circular doubly linked lists with a head. An entry is known by its address, and
-- the heap says where the pointers of each entry go.
pub mod Chains
pub mod Ways
pub mod Refines
use hafnium_verification.Prelude.{ℕ, Bool, if◌then◌else◌, ◌==◌}

-- The pointers of every `ListEntry`.
pub record Heap : Type 0 where
  pub next : ℕ → ℕ
  pub prev : ℕ → ℕ

unfoldable pub write : (ℕ → ℕ) → ℕ → ℕ → ℕ → ℕ
write pointers e target x = if x == e then target else pointers x

abbrev pub set_next : ℕ → ℕ → Heap → Heap
set_next e target h = record h { next = write h.next e target }

abbrev pub set_prev : ℕ → ℕ → Heap → Heap
set_prev e target h = record h { prev = write h.prev e target }

abbrev pub list_init : ℕ → Heap → Heap
list_init e h = set_prev e e (set_next e e h)

abbrev pub list_append : ℕ → ℕ → Heap → Heap
list_append l e h₀ =
    let h₁ = set_next e l h₀ in
    let h₂ = set_prev e (h₁.prev l) h₁ in
    let h₃ = set_prev (h₂.next e) e h₂ in set_next (h₃.prev e) e h₃

abbrev pub list_prepend : ℕ → ℕ → Heap → Heap
list_prepend l e h₀ =
    let h₁ = set_next e (h₀.next l) h₀ in
    let h₂ = set_prev e l h₁ in let h₃ = set_prev (h₂.next e) e h₂ in set_next (h₃.prev e) e h₃

abbrev pub list_empty : ℕ → Heap → Bool
list_empty l h = h.next l == l

abbrev pub list_remove : ℕ → Heap → Heap
list_remove e h₀ =
    let h₁ = set_next (h₀.prev e) (h₀.next e) h₀ in
    let h₂ = set_prev (h₁.next e) (h₁.prev e) h₁ in list_init e h₂

abbrev pub list_pop_front : ℕ → Heap → ℕ × Heap
list_pop_front l h = (h.next l, list_remove (h.next l) h)
