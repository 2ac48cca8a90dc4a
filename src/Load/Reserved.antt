-- ===== src/Load/Reserved.antt =====
-- What is reserved after VMs are loaded is what they were given.
use hafnium_verification.Prelude.{
  ℕ, suc, ◌≡◌, refl, ap, ◌+◌, ◌-◌, ◌≤◌, ◌<◌, Bool, true, false, ◌&&◌, Option, none, some, of_some,
  none-some, Option-cases, Bool-cases, inl, inr, List, [], ◌∷◌, ◌++◌, if◌then◌else◌, ltb, leb,
  length, sub_usize, arith, word, ==_iff,
}
use hafnium_verification.Addr.{pa_difference}
use hafnium_verification.Load.{
  MemRange, carve_out_mem_range, reserve, reserve_all, update_reserved_ranges, max_mem_ranges,
}

abbrev pub covers : ℕ → MemRange → ℕ
covers a r = if leb r.begin a && ltb a r.end then 1 else 0

-- How many of the ranges have this address.
abbrev pub covered : ℕ → List MemRange → ℕ
covered a [] = 0
covered a (r ∷ rs) = covers a r + covered a rs

-- The ranges are what is left of others, which were cut at their ends.
abbrev pub CutFrom : List MemRange → List MemRange → Type 0
CutFrom [] [] = Unit
CutFrom [] (a ∷ after) = ⊥
CutFrom (b ∷ before) [] = ⊥
CutFrom (b ∷ before) (a ∷ after) =
    (a.begin ≡ b.begin)
    × (a.begin ≤ a.end)
    × (a.end ≤ b.end)
    × (b.end < word)
    × CutFrom before after

covered-append :
    (a : ℕ) (xs ys : List MemRange) → covered a (xs ++ ys) ≡ covered a xs + covered a ys
covered-append a [] ys = omega arith
covered-append a (x ∷ xs) ys = let ih = covered-append a xs ys in omega (arith, ih)

sub_usize_le : (a b : ℕ) → b ≤ a → a < word → sub_usize a b ≡ a - b
sub_usize_le a b le lt = omega arith

-- What a cut takes from the ranges, and gives out.
record Cuts (size : ℕ) (before after : List MemRange) (r : MemRange × List MemRange) : Type 0 where
  pub cut : CutFrom before r.1
  pub size_given : r.0.begin + size ≡ r.0.end
  pub given : (a : ℕ) → covered a after ≡ covered a r.1 + covers a r.0

carve_out_mem_range-Cuts :
    (size : ℕ) (before after : List MemRange) (r : MemRange × List MemRange)
    → CutFrom before after
    → carve_out_mem_range after size ≡ some r
    → Cuts size before after r
unfolding carve_out_mem_range
carve_out_mem_range-Cuts size before [] r c h = absurd (none-some h)
carve_out_mem_range-Cuts size [] (x ∷ after) r c h = absurd c
carve_out_mem_range-Cuts size (b ∷ before) (x ∷ after) r c h =
    elim (Bool-cases (leb size (pa_difference x.begin x.end))) [
      | inl big ↦
          let whole = sub_usize_le x.end x.begin c.1 (omega arith) in
          let fits : size ≤ x.end - x.begin = ground arith in
          let left : sub_usize x.end size ≡ x.end - size =
            sub_usize_le x.end size (omega arith) (omega arith) in
          of_some (Cuts size (b ∷ before) (x ∷ after)) (rw (carve_out_mem_range, big) at h) (
            rw left (record {
              cut = (c.0, omega arith, omega arith, c.3, c.4);
              size_given = omega arith;
              given = λ a. ground arith;
            }))
      | inr small ↦ elim (Option-cases (carve_out_mem_range after size)) [
        | inl e ↦ absurd (none-some (rw (carve_out_mem_range, small, e) at h))
        | inr (s, e) ↦
            let ih = carve_out_mem_range-Cuts size before after s c.4 e in
            of_some (Cuts size (b ∷ before) (x ∷ after)) (rw (carve_out_mem_range, small, e) at h)
              (record {
                cut = (c.0, c.1, c.2, c.3, ih.cut);
                size_given = ih.size_given;
                given = λ a. let g = ih.given a in omega (arith, g);
              })
      ]
    ]

-- What a reservation adds.
added : ℕ → Bool → ℕ → ℕ → ℕ
added a needed begin end = if needed then covers a (record { begin = begin; end = end }) else 0

-- A range is what was cut off at either end, and what is left.
pieces :
    (a : ℕ) (b x : MemRange)
    → x.begin ≡ b.begin
    → x.begin ≤ x.end
    → x.end ≤ b.end
    → covers a b
      ≡ covers a x
        + added a (ltb b.begin x.begin) b.begin x.begin
        + added a (ltb x.end b.end) x.end b.end
unfolding added
pieces a b x same order less = ground arith

reserve-covered :
    (a : ℕ) (needed : Bool) (begin end : ℕ) (reserved : List MemRange)
    → (reserve needed begin end reserved).1 ≡ true
    → covered a (reserve needed begin end reserved).0
      ≡ covered a reserved + added a needed begin end
unfolding added
reserve-covered a false begin end reserved ok = omega arith
reserve-covered a true begin end reserved ok =
    elim (Bool-cases (leb max_mem_ranges (length reserved))) [
      | inl full ↦ absurd cc
      | inr room ↦
          let new : MemRange = record { begin = begin; end = end } in
          let grown = covered-append a reserved (new ∷ []) in rw (room) (omega (arith, grown))
    ]

reserve_all-covered :
    (a : ℕ) (reserved before after : List MemRange)
    → CutFrom before after
    → (reserve_all reserved before after).1 ≡ true
    → covered a (reserve_all reserved before after).0 + covered a after
      ≡ covered a reserved + covered a before
unfolding added
reserve_all-covered a reserved [] [] c ok = refl
reserve_all-covered a reserved [] (x ∷ after) c ok = absurd c
reserve_all-covered a reserved (b ∷ before) [] c ok = absurd c
reserve_all-covered a reserved (b ∷ before) (x ∷ after) c ok =
    let front = reserve (ltb b.begin x.begin) b.begin x.begin reserved in
    let back = reserve (ltb x.end b.end) x.end b.end front.0 in
    elim (Bool-cases front.1) [
      | inr e ↦ absurd cc
      | inl e ↦ elim (Bool-cases back.1) [
        | inr f ↦ absurd cc
        | inl f ↦
            let one = reserve-covered a (ltb b.begin x.begin) b.begin x.begin reserved e in
            let two = reserve-covered a (ltb x.end b.end) x.end b.end front.0 f in
            let rest =
              reserve_all-covered a back.0 before after c.4 (rw (reserve_all, e, f) at ok) in
            let parts = pieces a b x c.0 c.1 c.2 in
            rw (reserve_all, e, f) (omega (arith, one, two, rest, parts))
      ]
    ]

-- Requests in their order; one that no range is big enough for changes nothing.
abbrev pub carve_all : List ℕ → List MemRange → List MemRange × List MemRange
carve_all [] available = ([], available)
carve_all (size ∷ sizes) available = elim (carve_out_mem_range available size) [
  | none ↦ carve_all sizes available
  | some (found, left) ↦ let (given, after) = carve_all sizes left in (found ∷ given, after)
]

-- The ranges that are given, and those that are left of the available ones.
record Gives (before available : List MemRange) (r : List MemRange × List MemRange) : Type 0 where
  pub cut : CutFrom before r.1
  pub given : (a : ℕ) → covered a available ≡ covered a r.1 + covered a r.0

carve_all-Gives :
    (sizes : List ℕ) (before available : List MemRange)
    → CutFrom before available
    → Gives before available (carve_all sizes available)
carve_all-Gives [] before available c = record { cut = c; given = λ a. omega arith }
carve_all-Gives (size ∷ sizes) before available c =
    elim (Option-cases (carve_out_mem_range available size)) [
      | inl e ↦ rw (carve_all, e) (carve_all-Gives sizes before available c)
      | inr (r, e) ↦
          let one = carve_out_mem_range-Cuts size before available r c e in
          let rest = carve_all-Gives sizes before r.1 one.cut in
          rw (carve_all, e)
            (record {
              cut = rest.cut;
              given = λ a. let g = one.given a in let h = rest.given a in omega (arith, g, h);
            })
    ]

CutFrom-length :
    (before after : List MemRange) → CutFrom before after → length before ≡ length after
CutFrom-length [] [] c = refl
CutFrom-length [] (a ∷ after) c = absurd c
CutFrom-length (b ∷ before) [] c = absurd c
CutFrom-length (b ∷ before) (a ∷ after) c = ap suc (CutFrom-length before after c.4)

-- The new reservations are what was given and what was not available; a failure promises nothing.
abbrev pub Accounts :
    ℕ
    → List MemRange
    → List MemRange
    → List MemRange
    → List MemRange
    → Option (List MemRange × Bool)
    → Type 0
Accounts a reserved before available given none = ⊥
Accounts a reserved before available given (some (res, false)) = Unit
Accounts a reserved before available given (some (res, true)) =
    covered a res + covered a available ≡ covered a reserved + covered a before + covered a given

-- If the available ranges are the known ones, below 2^64 and cut at their ends, then after any series of
-- `carve_out_mem_range` on them `update_reserved_ranges` does not panic, and if it succeeds, every
-- address is reserved as often as before, and besides once for each range given that has it and for
-- each known range that has it and where it was not available.
pub update_reserved_ranges-Accounts :
    (a : ℕ) (sizes : List ℕ) (reserved before available : List MemRange)
    → CutFrom before available
    → Accounts a reserved before available
        (carve_all sizes available).0
        (update_reserved_ranges reserved before (carve_all sizes available).1)
unfolding update_reserved_ranges
update_reserved_ranges-Accounts a sizes reserved before available c =
    let r = carve_all sizes available in
    let gives = carve_all-Gives sizes before available c in
    let same = (==_iff (length before) (length r.1)).1 (CutFrom-length before r.1 gives.cut) in
    let sums = gives.given a in
    elim (Bool-cases (reserve_all reserved before r.1).1) [
      | inl ok ↦
          let all = reserve_all-covered a reserved before r.1 gives.cut ok in
          rw (update_reserved_ranges, same, ok, Accounts) (omega (arith, all, sums))
      | inr full ↦ rw (update_reserved_ranges, same, full, Accounts) tt
    ]
