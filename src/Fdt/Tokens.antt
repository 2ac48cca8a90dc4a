-- ===== src/Fdt/Tokens.antt =====
-- The tokenizer on well-formed memory, one token, string or property at a time.
use hafnium_verification.Prelude.{
  ℕ, zero, suc, ◌≡◌, refl, ap, ◌+◌, ◌-◌, ◌%◌, ◌≤◌, ◌<◌, [], ◌∷◌, ◌++◌, false, some, length, arith,
  ltb, ◌==◌, if◌then◌else◌,
}
use hafnium_verification.Text.{Bytes, Slice, slice, strcmp_is_zero}
use hafnium_verification.Text.Strings.{IsText}
use hafnium_verification.Outcome.{got, fails}
use hafnium_verification.Fdt.{
  FdtTokenizer, FdtToken, prop, nop, begin_node, end_node, is, code, try_from, new, align, bytes,
  be32, u32, token_loop, token_expect, find_nul, str, property_body, next_property, next_subnode,
}
use hafnium_verification.Fdt.Format.{
  Property, padded, property_size, head_size, same, TextAt, PropertyAt,
}

-- The tokenizer at an address, with `n` bytes left.
abbrev pub at : Slice → ℕ → ℕ → FdtTokenizer
at strs p n = new (slice p n) strs

module _ (strs : Slice) where
  align_lem :
      (p n size : ℕ)
      → p % 4 ≡ 0
      → padded size ≤ n
      → align (at strs (p + size) (n - size)) ≡ some (at strs (p + padded size) (n - padded size))
  unfolding align
  align_lem p n size h k =
      let padding : (4 - (p + size) % 4) % 4 ≡ (4 - size % 4) % 4 = omega (arith, h) in
      let room : ltb (n - size) ((4 - size % 4) % 4) ≡ false = ground (arith, k) in
      let place : p + size + (4 - size % 4) % 4 ≡ p + padded size = omega arith in
      let left : n - size - (4 - size % 4) % 4 ≡ n - padded size = omega arith in
      rw (padding, room, place, left) refl

  bytes_lem :
      (p n size : ℕ)
      → p % 4 ≡ 0
      → padded size ≤ n
      → bytes (at strs p n) size ≡ got (slice p size) (at strs (p + padded size) (n - padded size))
  unfolding bytes
  bytes_lem p n size h k =
      let room : ltb n size ≡ false = ground (arith, k) in
      rw (bytes, room, align_lem p n size h k) refl

  module _ (mem : ℕ → ℕ) where
    u32_lem :
        (p n : ℕ)
        → p % 4 ≡ 0
        → 4 ≤ n
        → u32 mem (at strs p n) ≡ got (be32 mem p) (at strs (p + 4) (n - 4))
    unfolding u32
    u32_lem p n h k = rw (bytes_lem p n 4 h k) refl

    pub token_lem :
        (p n fuel : ℕ) (t : FdtToken)
        → p % 4 ≡ 0
        → 4 ≤ n
        → be32 mem p ≡ code t
        → is t nop ≡ false
        → token_loop mem (suc fuel) (at strs p n) ≡ got t (at strs (p + 4) (n - 4))
    unfolding token_loop try_from
    token_lem p n fuel begin_node h k e ne = rw (token_loop, u32_lem p n h k, e) refl
    token_lem p n fuel end_node h k e ne = rw (token_loop, u32_lem p n h k, e) refl
    token_lem p n fuel prop h k e ne = rw (token_loop, u32_lem p n h k, e) refl
    token_lem p n fuel nop h k e ne = absurd cc
    token_lem p n fuel FdtToken.end h k e ne = rw (token_loop, u32_lem p n h k, e) refl

    -- The token that is expected is taken, and another one is put back.
    token_expect_lem :
        (p n : ℕ) (t expect : FdtToken)
        → p % 4 ≡ 0
        → 4 ≤ n
        → be32 mem p ≡ code t
        → is t nop ≡ false
        → token_expect mem (at strs p n) expect
          ≡ (if is t expect then got t (at strs (p + 4) (n - 4)) else fails (at strs p n))
    unfolding token_expect
    token_expect_lem p n t expect h k e ne =
        let size : n + 1 ≡ suc n = omega arith in
        let back : p + 4 - 4 ≡ p = omega arith in
        let left : n - 4 + 4 ≡ n = omega (arith, k) in
        rw (token_expect, size, token_lem p n n t h k e ne, back, left) refl

    find_nul_lem :
        (p n : ℕ) (s : Bytes)
        → TextAt mem p s
        → length s < n
        → find_nul mem p n ≡ some (p + length s)
    unfolding find_nul
    find_nul_lem p zero s h k = absurd (omega arith)
    find_nul_lem p (suc n) [] h k = let e : p + 0 ≡ p = omega arith in rw (h, e) refl
    find_nul_lem p (suc n) (c ∷ s) h k =
        let e : p + suc (length s) ≡ p + 1 + length s = omega arith in
        let other : (mem p == 0) ≡ false = ground (arith, h.0, h.1) in
        rw (other, e) (find_nul_lem (p + 1) n s h.2 (omega arith))

    str_lem :
        (p n : ℕ) (s : Bytes)
        → p % 4 ≡ 0
        → padded (length s + 1) ≤ n
        → TextAt mem p s
        → str mem (at strs p n)
          ≡ got
              (slice p (length s + 1))
              (at strs (p + padded (length s + 1)) (n - padded (length s + 1)))
    unfolding str
    str_lem p n s h k t =
        let size : p + length s - p + 1 ≡ length s + 1 = omega arith in
        rw (str, find_nul_lem p n s t (omega (arith, k)), size, align_lem p n (length s + 1) h k)
          (ap
            (λ k. got (slice p k) (at strs (p + padded (length s + 1)) (n - padded (length s + 1))))
            size)

    -- What `next_subnode` does at a child: it reads the name.
    pub next_subnode_lem :
        (p n : ℕ) (s : Bytes)
        → p % 4 ≡ 0
        → head_size s ≤ n
        → be32 mem p ≡ 1
        → TextAt mem (p + 4) s
        → next_subnode mem (at strs p n)
          ≡ got (slice (p + 4) (length s + 1)) (at strs (p + head_size s) (n - head_size s))
    unfolding next_subnode
    next_subnode_lem p n s h k e t =
        let place : p + 4 + padded (length s + 1) ≡ p + head_size s = omega arith in
        let left : n - 4 - padded (length s + 1) ≡ n - head_size s = omega arith in
        rw
          (
            next_subnode,
            token_expect_lem p n begin_node begin_node h (omega (arith, k)) e refl,
            str_lem (p + 4) (n - 4) s (omega (arith, h)) (omega (arith, k)) t,
            place,
            left,
          )
          refl

    -- At any other token that can stand in a node it leaves the tokenizer where it is.
    pub next_subnode-fails :
        (p n : ℕ) (t : FdtToken)
        → p % 4 ≡ 0
        → 4 ≤ n
        → be32 mem p ≡ code t
        → is t nop ≡ false
        → is t begin_node ≡ false
        → next_subnode mem (at strs p n) ≡ fails (at strs p n)
    unfolding next_subnode
    next_subnode-fails p n t h k e ne other =
        rw (next_subnode, token_expect_lem p n t begin_node h k e ne, other) refl

    -- What `next_property` does at a property: it reads the name's place and the value.
    pub next_property_lem :
        (p n : ℕ) (pr : Property)
        → p % 4 ≡ 0
        → property_size pr ≤ n
        → PropertyAt mem strs p pr
        → next_property mem (at strs p n)
          ≡ got
              (strs.ptr + pr.nameoff, slice (p + 12) (length pr.value))
              (at strs (p + property_size pr) (n - property_size pr))
    unfolding next_property property_body
    next_property_lem p n pr h k (e, size, off, value, fits, text) =
        let size' : be32 mem (p + 4) ≡ length pr.value = size in
        let p₁ : p + 4 + 4 ≡ p + 8 = omega arith in
        let p₂ : p + 8 + 4 ≡ p + 12 = omega arith in
        let n₁ : n - 4 - 4 ≡ n - 8 = omega arith in
        let n₂ : n - 8 - 4 ≡ n - 12 = omega arith in
        let place : p + 12 + padded (length pr.value) ≡ p + property_size pr = omega arith in
        let left : n - 12 - padded (length pr.value) ≡ n - property_size pr = omega arith in
        let room : ltb strs.size pr.nameoff ≡ false = ground (arith, fits) in
        rw
          (
            next_property,
            token_expect_lem p n prop prop h (omega (arith, k)) e refl,
            property_body,
            u32_lem (p + 4) (n - 4) (omega (arith, h)) (omega (arith, k)),
            p₁,
            n₁,
            u32_lem (p + 8) (n - 8) (omega (arith, h)) (omega (arith, k)),
            p₂,
            n₂,
            size',
            off,
            bytes_lem (p + 12) (n - 12) (length pr.value) (omega (arith, h)) (omega (arith, k)),
            room,
            place,
            left,
          )
          refl

    pub next_property-fails :
        (p n : ℕ) (t : FdtToken)
        → p % 4 ≡ 0
        → 4 ≤ n
        → be32 mem p ≡ code t
        → is t nop ≡ false
        → is t prop ≡ false
        → next_property mem (at strs p n) ≡ fails (at strs p n)
    unfolding next_property
    next_property-fails p n t h k e ne other =
        rw (next_property, token_expect_lem p n t prop h k e ne, other) refl

    -- Comparing a text in memory with a name that ends with a NUL compares their bytes.
    pub strcmp_is_zero_lem :
        (p : ℕ) (s name : Bytes)
        → TextAt mem p s
        → IsText name
        → strcmp_is_zero mem p (name ++ 0 ∷ []) ≡ same s name
    unfolding strcmp_is_zero
    strcmp_is_zero_lem p [] [] h k = rw h refl
    strcmp_is_zero_lem p [] (y ∷ ys) h k = ground (arith, h, k.0)
    strcmp_is_zero_lem p (x ∷ xs) [] h k = ground (arith, h.0, h.1)
    strcmp_is_zero_lem p (x ∷ xs) (y ∷ ys) h k =
        ground (arith, h.0, h.1, k.0, strcmp_is_zero_lem (p + 1) xs ys h.2 k.1)
