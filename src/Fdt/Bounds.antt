-- ===== src/Fdt/Bounds.antt =====
-- Where the tokenizer stands after each of its methods.
use hafnium_verification.Prelude.{
  ℕ, zero, suc, ◌≡◌, ◌+◌, ◌-◌, ◌≤◌, ◌<◌, Option, none, some, arith, Option-cases, inl, inr,
}
use hafnium_verification.Text.{Slice}
use hafnium_verification.Outcome.{Outcome, Ends, and_then-Ends, Ends-weaken}
use hafnium_verification.Fdt.{
  FdtTokenizer, FdtToken, prop, begin_node, align, bytes, collapse, moved, u32, token_loop, token,
  token_expect, find_nul, str, property_body, next_property, next_subnode, skip_properties_loop,
  skip_properties, skip_node_loop, skip_node,
}

-- The tokenizer went on by `n` bytes at least, and still ends where it ended.
abbrev pub Moves : ℕ → FdtTokenizer → FdtTokenizer → Type 0
Moves n t t' = (t.cur.ptr + n ≤ t'.cur.ptr) × (t'.cur.ptr + t'.cur.size ≡ t.cur.ptr + t.cur.size)

-- The slice lies between the two places of the tokenizer.
abbrev pub Inside : FdtTokenizer → FdtTokenizer → Slice → Type 0
Inside t t' s = (t.cur.ptr ≤ s.ptr) × (s.ptr + s.size ≤ t'.cur.ptr)

abbrev Aligned : FdtTokenizer → Option FdtTokenizer → Type 0
Aligned t none = Unit
Aligned t (some t') = Moves 0 t t'

align-Moves : (t : FdtTokenizer) → Aligned t (align t)
unfolding align
align-Moves t = ground arith

abbrev Cut : FdtTokenizer → ℕ → Slice → FdtTokenizer → Type 0
Cut t size first t' = (first.ptr ≡ t.cur.ptr) × (first.size ≡ size) × Moves size t t'

bytes-Ends : (t : FdtTokenizer) (size : ℕ) → Ends (Cut t size) (Moves 0 t) (bytes t size)
unfolding bytes
bytes-Ends t size =
    let rest = moved t (t.cur.ptr + size) (t.cur.size - size) in ground (arith, align-Moves rest)

-- What a method ensures that is called after the first `n` bytes, for the whole of both.
after :
    {A : Type 0} (n : ℕ) (t t' : FdtTokenizer) (o : Outcome FdtTokenizer A)
    → Moves n t t'
    → Ends (λ _. Moves 0 t') (Moves 0 t') o
    → Ends (λ _. Moves n t) (Moves 0 t) o
after n t t' o m h =
    Ends-weaken (λ _. Moves 0 t') (Moves 0 t') (λ _. Moves n t) (Moves 0 t) o h
      (λ a s k. omega (arith, m, k)) (λ s k. omega (arith, m, k))

weak :
    {A : Type 0} (n : ℕ) (t : FdtTokenizer) (o : Outcome FdtTokenizer A)
    → Ends (λ _. Moves n t) (Moves 0 t) o
    → Ends (λ _. Moves 0 t) (Moves 0 t) o
weak n t o h =
    Ends-weaken (λ _. Moves n t) (Moves 0 t) (λ _. Moves 0 t) (Moves 0 t) o h
      (λ a s k. omega (arith, k)) (λ s k. k)

-- The value lies behind the two words that say how long it is and where its name stands.
abbrev Value : FdtTokenizer → ℕ × Slice → FdtTokenizer → Type 0
Value t entry t' = Inside t t' entry.1 × Moves 8 t t'

abbrev pub Entry : FdtTokenizer → ℕ × Slice → FdtTokenizer → Type 0
Entry t entry t' = Inside t t' entry.1 × Moves 12 t t'

module _ (mem : ℕ → ℕ) where
  u32-Ends : (t : FdtTokenizer) → Ends (λ _. Moves 4 t) (Moves 0 t) (u32 mem t)
  unfolding u32
  u32-Ends t =
      and_then-Ends (Cut t 4) (Moves 0 t) (λ _. Moves 4 t) (Moves 0 t) (bytes t 4) _ _
        (bytes-Ends t 4) (λ first t' h. h.2) (λ t' h. h)

  token_loop-Ends :
      (fuel : ℕ) (t : FdtTokenizer)
      → t.cur.size < fuel
      → Ends (λ _. Moves 4 t) (Moves 0 t) (token_loop mem fuel t)
  unfolding token_loop
  token_loop-Ends zero t h = absurd (omega arith)
  token_loop-Ends (suc fuel) t h =
      and_then-Ends (λ _. Moves 4 t) (Moves 0 t) (λ _. Moves 4 t) (Moves 0 t) (u32 mem t) _ _
        (u32-Ends t)
        (λ v t' m.
          let rest =
            after 4 t t' (token_loop mem fuel t') m
              (weak 4 t' _ (token_loop-Ends fuel t' (omega (arith, m)))) in
          ground (arith, rest))
        (λ t' m. m)

  pub token-Ends : (t : FdtTokenizer) → Ends (λ _. Moves 4 t) (Moves 0 t) (token mem t)
  token-Ends t = token_loop-Ends (t.cur.size + 1) t (omega arith)

  pub token_expect-Ends :
      (t : FdtTokenizer) (k : FdtToken) → Ends (λ _. Moves 4 t) (Moves 0 t) (token_expect mem t k)
  unfolding token_expect
  token_expect-Ends t expect =
      and_then-Ends (λ _. Moves 4 t) (Moves 0 t) (λ _. Moves 4 t) (Moves 0 t) (token mem t) _ _
        (token-Ends t) (λ k t' m. ground (arith, m)) (λ t' m. m)

  abbrev Found : ℕ → ℕ → Option ℕ → Type 0
  Found p n none = Unit
  Found p n (some q) = (p ≤ q) × (q < p + n) × (mem q ≡ 0)

  find_nul-Found : (p n : ℕ) → Found p n (find_nul mem p n)
  unfolding find_nul
  find_nul-Found p zero = tt
  find_nul-Found p (suc n) = let ih = find_nul-Found (p + 1) n in ground (arith, ih)

  -- A string is not empty, since its NUL belongs to it.
  abbrev pub Read : FdtTokenizer → Slice → FdtTokenizer → Type 0
  Read t s t' = (1 ≤ s.size) × (mem (s.ptr + s.size - 1) ≡ 0) × Inside t t' s × Moves 0 t t'

  str-Ends : (t : FdtTokenizer) → Ends (Read t) (Moves 0 t) (str mem t)
  unfolding str
  str-Ends t = elim (Option-cases (find_nul mem t.cur.ptr t.cur.size)) [
    | inl e ↦ rw (Ends, e) (omega arith)
    | inr (q, e) ↦
        let found = rw e at (find_nul-Found t.cur.ptr t.cur.size) in
        let size = q - t.cur.ptr + 1 in
        let rest = moved t (t.cur.ptr + size) (t.cur.size - size) in
        let last : t.cur.ptr + size - 1 ≡ q = omega (arith, found) in
        rw (Ends, e)
          (elim (Option-cases (align rest)) [
            | inl f ↦ rw (Ends, f) tt
            | inr (t', f) ↦
                let m = rw f at (align-Moves rest) in
                rw (Ends, f, last)
                  (omega arith, found.2, omega (arith, found, m), omega (arith, found, m))
          ])
  ]

  collapse-Moves : (t : FdtTokenizer) → Moves 0 t (collapse t)
  collapse-Moves t = omega arith

  property_body-Ends : (t : FdtTokenizer) → Ends (Value t) (Moves 0 t) (property_body mem t)
  unfolding property_body
  property_body-Ends t =
      and_then-Ends (λ _. Moves 4 t) (Moves 0 t) (Value t) (Moves 0 t) (u32 mem t) _ _ (u32-Ends t)
        (λ size t₁ m₁.
          and_then-Ends (λ _. Moves 4 t₁) (Moves 0 t₁) (Value t) (Moves 0 t) (u32 mem t₁) _ _
            (u32-Ends t₁)
            (λ nameoff t₂ m₂.
              and_then-Ends (Cut t₂ size) (Moves 0 t₂) (Value t) (Moves 0 t) (bytes t₂ size) _ _
                (bytes-Ends t₂ size) (λ buf t₃ m₃. ground (arith, m₁, m₂, m₃))
                (λ t₃ m₃. omega (arith, m₁, m₂, m₃)))
            (λ t₂ m₂. omega (arith, m₁, m₂)))
        (λ t₁ m₁. omega (arith, m₁))

  pub next_property-Ends : (t : FdtTokenizer) → Ends (Entry t) (Moves 0 t) (next_property mem t)
  unfolding next_property
  next_property-Ends t =
      and_then-Ends (λ _. Moves 4 t) (Moves 0 t) (Entry t) (Moves 0 t) (token_expect mem t prop) _ _
        (token_expect-Ends t prop)
        (λ k t' m.
          Ends-weaken (Value t') (Moves 0 t') (Entry t) (Moves 0 t) (property_body mem t')
            (property_body-Ends t') (λ entry t'' v. omega (arith, m, v))
            (λ t'' v. omega (arith, m, v)))
        (λ t' m. m)

  -- The name lies behind the token.
  abbrev pub Named : FdtTokenizer → Slice → FdtTokenizer → Type 0
  Named t name t' =
      (1 ≤ name.size) × (mem (name.ptr + name.size - 1) ≡ 0) × Inside t t' name × Moves 4 t t'

  pub next_subnode-Ends : (t : FdtTokenizer) → Ends (Named t) (Moves 0 t) (next_subnode mem t)
  unfolding next_subnode
  next_subnode-Ends t =
      and_then-Ends (λ _. Moves 4 t) (Moves 0 t) (Named t) (Moves 0 t)
        (token_expect mem t begin_node) _ _ (token_expect-Ends t begin_node)
        (λ k t' m.
          and_then-Ends (Read t') (Moves 0 t') (Named t) (Moves 0 t) (str mem t') _ _ (str-Ends t')
            (λ name t'' v. (v.0, v.1, omega (arith, m, v.2, v.3), omega (arith, m, v.3)))
            (λ t'' v. omega (arith, m, v)))
        (λ t' m. m)

  skip_properties_loop-Ends :
      (fuel : ℕ) (t : FdtTokenizer)
      → t.cur.size < fuel
      → Ends (λ _. Moves 0 t) (Moves 0 t) (skip_properties_loop mem fuel t)
  unfolding skip_properties_loop
  skip_properties_loop-Ends zero t h = absurd (omega arith)
  skip_properties_loop-Ends (suc fuel) t h =
      and_then-Ends (Entry t) (Moves 0 t) (λ _. Moves 0 t) (Moves 0 t) (next_property mem t) _ _
        (next_property-Ends t)
        (λ entry t' m.
          after 0 t t' _ (omega (arith, m)) (skip_properties_loop-Ends fuel t' (omega (arith, m))))
        (λ t' m. m)

  pub skip_properties-Ends :
      (t : FdtTokenizer) → Ends (λ _. Moves 0 t) (Moves 0 t) (skip_properties mem t)
  skip_properties-Ends t = skip_properties_loop-Ends (t.cur.size + 1) t (omega arith)

  skip_node_loop-Ends :
      (fuel pending : ℕ) (t : FdtTokenizer)
      → t.cur.size < fuel
      → Ends (λ _. Moves 0 t) (Moves 0 t) (skip_node_loop mem fuel pending t)
  unfolding skip_node_loop
  skip_node_loop-Ends fuel zero t h = omega arith
  skip_node_loop-Ends zero (suc pending) t h = absurd (omega arith)
  skip_node_loop-Ends (suc fuel) (suc pending) t h =
      and_then-Ends (Named t) (Moves 0 t) (λ _. Moves 0 t) (Moves 0 t) (next_subnode mem t) _ _
        (next_subnode-Ends t)
        (λ name t₁ m₁.
          and_then-Ends (λ _. Moves 0 t₁) (Moves 0 t₁) (λ _. Moves 0 t) (Moves 0 t)
            (skip_properties mem t₁) _ _ (skip_properties-Ends t₁)
            (λ _ t₂ m₂.
              after 0 t t₂ _ (omega (arith, m₁.3, m₂))
                (skip_node_loop-Ends fuel (suc (suc pending)) t₂ (omega (arith, m₁.3, m₂))))
            (λ t₂ m₂. omega (arith, m₁.3, m₂)))
        (λ t₁ m₁.
          and_then-Ends (λ _. Moves 4 t₁) (Moves 0 t₁) (λ _. Moves 0 t) (Moves 0 t) (token mem t₁) _
            _ (token-Ends t₁)
            (λ k t₂ m₂.
              let rest =
                after 0 t t₂ _ (omega (arith, m₁, m₂))
                  (skip_node_loop-Ends fuel pending t₂ (omega (arith, m₁, m₂))) in
              ground (arith, rest, m₁, m₂))
            (λ t₂ m₂. omega (arith, m₁, m₂)))

  -- From any place in any memory, `skip_node` does not run out of fuel: it panics, or it returns, with
  -- success or not, and then it stands further on or where it was, within the same bytes.
  pub skip_node-Ends : (t : FdtTokenizer) → Ends (λ _. Moves 0 t) (Moves 0 t) (skip_node mem t)
  unfolding skip_node
  skip_node-Ends t =
      and_then-Ends (λ _. Moves 0 t) (Moves 0 t) (λ _. Moves 0 t) (Moves 0 t)
        (skip_properties mem t) _ _ (skip_properties-Ends t)
        (λ _ t' m. after 0 t t' _ m (skip_node_loop-Ends (t'.cur.size + 1) 1 t' (omega arith)))
        (λ t' m. m)
