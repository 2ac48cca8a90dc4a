-- ===== src/Pool/Contiguous.antt =====
-- `alloc_pages`: where the pages that it gives out lie, and what remains in the pool.
use mathlib.Core.Path.{subst₂}
use native.Mathlib.Nat.{div-add-mod}
use hafnium_verification.Prelude.{
  ℕ, ◌≡◌, refl, ap, ap₂, ◌+◌, ◌*◌, ◌-◌, ◌<◌, ◌%◌, ◌/◌, List, [], ◌∷◌, ◌++◌, some, arith, word,
  count, count-append, Bool-cases, Option-cases, inl, inr, of_some, ltb, ◌==◌, ◌&&◌,
}
use hafnium_verification.Addr.{page_size, round_up}
use hafnium_verification.Addr.Rounding.{round_up_exact, round_up_wraps}
use hafnium_verification.Addr
use hafnium_verification.Pool.{
  Chunk, Pool, pop_if_some, alloc, Fit, fit, give_before, give_after, alloc_pages,
}
use hafnium_verification.Pool.Pages.{
  page_run, chunk_pages, pages, IsChunk, AllChunks, IsValid, SamePages, count-page_run-add, Gives,
  AllPages, alloc-Gives,
}

-- A request for contiguous pages whose sizes in bytes fit a `usize`.
pub record IsRequest (size align : ℕ) : Type 0 where
  pub align_pos : 0 < align
  pub align_fits : align * page_size < word
  pub size_fits : size * page_size < word

abbrev before : Chunk → Fit → ℕ
before c f = (f.start - c.start) / page_size

abbrev after : Chunk → Fit → ℕ
after c f = (f.chunk_end - f.end) / page_size

-- The request splits the chunk in three runs of whole pages.
pub record Splits (size align : ℕ) (c : Chunk) (f : Fit) : Type 0 where
  chunk_start : f.chunk_start ≡ c.start
  start : f.start ≡ c.start + before c f * page_size
  end : f.end ≡ f.start + size * page_size
  chunk_end : f.chunk_end ≡ f.end + after c f * page_size
  total : before c f + size + after c f ≡ c.size
  aligned : f.start % (align * page_size) ≡ 0
  inside : f.chunk_end < word

page_aligned : (x align : ℕ) → x % (align * page_size) ≡ 0 → x % page_size ≡ 0
page_aligned x align h = omega (arith, div-add-mod x (align * page_size))

fit-Splits :
    (size align : ℕ) (c : Chunk) (f : Fit)
    → IsRequest size align
    → IsChunk c
    → fit size align c ≡ some f
    → Splits size align c f
unfolding fit
fit-Splits size align c f r v h = ground (
  arith,
  round_up_exact c.start (align * page_size),
  round_up_wraps c.start (align * page_size),
  page_aligned (round_up c.start (align * page_size)) align,
)

module _ {size align : ℕ} {c : Chunk} {f : Fit} (s : Splits size align c f) where
  split-count :
      (a : ℕ)
      → count a (page_run c.start c.size)
        ≡ count a (page_run c.start (before c f))
          + (count a (page_run f.start size) + count a (page_run f.end (after c f)))
  split-count a =
      let whole : c.size ≡ before c f + (size + after c f) = omega (arith, s.total) in
      rw (ap (λ n. count a (page_run c.start n)) whole) (
        omega (
          arith,
          count-page_run-add a c.start (before c f) (size + after c f),
          count-page_run-add a f.start size (after c f),
          ap (λ n. count a (page_run n (size + after c f))) s.start,
          ap (λ n. count a (page_run n (after c f))) s.end,
        ))

  give_before-pages :
      (cs : List Chunk)
      → chunk_pages (give_before f cs) ≡ page_run c.start (before c f) ++ chunk_pages cs
  give_before-pages cs = elim (Bool-cases (ltb f.chunk_start f.start)) [
    | inl more ↦
        rw more
          (ap₂ (λ b n. page_run b n ++ chunk_pages cs) s.chunk_start (ground (arith, more, s)))
    | inr last ↦ rw last (
        ap (λ n. page_run c.start n ++ chunk_pages cs)
          (let e : ◌≡◌ {A = ℕ} 0 (before c f) = ground (arith, last, s) in e))
  ]

  give_after-pages :
      (cs : List Chunk)
      → chunk_pages (give_after f cs) ≡ page_run f.end (after c f) ++ chunk_pages cs
  give_after-pages cs = elim (Bool-cases (ltb f.end f.chunk_end)) [
    | inl more ↦ rw more (ap (λ n. page_run f.end n ++ chunk_pages cs) (ground (arith, more, s)))
    | inr last ↦ rw last (
        ap (λ n. page_run f.end n ++ chunk_pages cs)
          (let e : ◌≡◌ {A = ℕ} 0 (after c f) = ground (arith, last, s) in e))
  ]

  give_back-AllChunks :
      (cs : List Chunk) → IsChunk c → AllChunks cs → AllChunks (give_after f (give_before f cs))
  give_back-AllChunks cs v vs = ground (arith, s, page_aligned f.start align)

-- The element that `pop_if_some` takes out meets the condition; the others stay.
record Takes (size align : ℕ) (cs : List Chunk) (r : Chunk × Fit × List Chunk) : Type 0 where
  split : Splits size align r.0 r.1
  taken : IsChunk r.0
  rest : AllChunks r.2
  same : SamePages (chunk_pages cs) (chunk_pages (r.0 ∷ r.2))

pop_if_some-Takes :
    (size align : ℕ) (cs : List Chunk) (r : Chunk × Fit × List Chunk)
    → IsRequest size align
    → AllChunks cs
    → pop_if_some (fit size align) cs ≡ some r
    → Takes size align cs r
pop_if_some-Takes size align [] r q v h = cc
pop_if_some-Takes size align (c ∷ cs) r q v h = elim (Option-cases (fit size align c)) [
  | inl miss ↦ elim (Option-cases (pop_if_some (fit size align) cs)) [
    | inl e ↦ absurd (ground (arith, miss, e, h))
    | inr (t, e) ↦
        let ih = pop_if_some-Takes size align cs t q v.1 e in
        of_some (Takes size align (c ∷ cs)) {a = (t.0, t.1, c ∷ t.2)}
          (rw (miss, e, pop_if_some) at h)
          (record {
            split = ih.split;
            taken = ih.taken;
            rest = (v.0, ih.rest);
            same = λ a. omega (
              arith,
              ih.same a,
              count-append a (page_run c.start c.size) (chunk_pages cs),
              count-append a (page_run t.0.start t.0.size) (chunk_pages t.2),
              count-append a (page_run t.0.start t.0.size) (chunk_pages (c ∷ t.2)),
              count-append a (page_run c.start c.size) (chunk_pages t.2),
            );
          })
  ]
  | inr (f, hit) ↦
      of_some (Takes size align (c ∷ cs)) {a = (c, f, cs)} (rw (hit, pop_if_some) at h) (record {
        split = fit-Splits size align c f q v.0 hit;
        taken = v.0;
        rest = v.1;
        same = λ a. refl;
      })
]

-- What a successful `alloc_pages` does: it gives out `size` pages, aligned as asked, that the pool
-- held, keeps all others, and keeps the pool valid.
pub record GivesPages (p : Pool) (size align : ℕ) (r : Addr.Pages × Pool) : Type 0 where
  pub count_given : r.0.count ≡ size
  pub aligned : r.0.base % (align * page_size) ≡ 0
  pub valid : IsValid r.1
  pub same : SamePages (pages p) (page_run r.0.base r.0.count ++ pages r.1)

Takes-GivesPages :
    (p : Pool) (size align : ℕ) (t : Chunk × Fit × List Chunk)
    → AllPages p.entry_list
    → Takes size align p.chunk_list t
    → GivesPages p size align (
      record { base = t.1.start; count = size },
      record p { chunk_list = give_after t.1 (give_before t.1 t.2) },
    )
Takes-GivesPages p size align t u k = record {
  count_given = refl;
  aligned = k.split.aligned;
  valid = (u, give_back-AllChunks k.split t.2 k.taken k.rest);
  same = λ a. omega (
    arith,
    k.same a,
    count-append a p.entry_list (chunk_pages p.chunk_list),
    count-append a (page_run t.0.start t.0.size) (chunk_pages t.2),
    split-count k.split a,
    ap (count a) (give_after-pages k.split (give_before t.1 t.2)),
    ap (count a) (give_before-pages k.split t.2),
    count-append a (page_run t.1.end (after t.0 t.1)) (chunk_pages (give_before t.1 t.2)),
    count-append a (page_run t.0.start (before t.0 t.1)) (chunk_pages t.2),
    count-append a p.entry_list (chunk_pages (give_after t.1 (give_before t.1 t.2))),
    count-append a (page_run t.1.start size)
        (p.entry_list ++ chunk_pages (give_after t.1 (give_before t.1 t.2))),
  );
}

alloc_one-GivesPages :
    (p : Pool) (r : ℕ × Pool) → Gives p r → GivesPages p 1 1 (record { base = r.0; count = 1 }, r.1)
alloc_one-GivesPages p r g = record {
  count_given = refl;
  aligned = omega (arith, g.aligned);
  valid = g.valid;
  same = g.same;
}

alloc_pages_one :
    (p : Pool) (r : Addr.Pages × Pool) → IsValid p → alloc_pages p 1 1 ≡ some r → GivesPages p 1 1 r
unfolding alloc_pages
alloc_pages_one p r v h = elim (Option-cases (alloc p)) [
  | inl e ↦ absurd (ground (arith, e, h))
  | inr (t, e) ↦
      of_some (GivesPages p 1 1) {a = (record { base = t.0; count = 1 }, t.1)}
        (rw (e, alloc_pages) at h) (alloc_one-GivesPages p t (alloc-Gives p t v e))
]

-- `alloc_pages` gives out `size` contiguous pages that a valid pool held, aligned to `align` pages,
-- leaves all other pages in it as often as they were, and leaves it valid.
pub alloc_pages-GivesPages :
    (p : Pool) (size align : ℕ) (r : Addr.Pages × Pool)
    → IsRequest size align
    → IsValid p
    → alloc_pages p size align ≡ some r
    → GivesPages p size align r
unfolding alloc_pages
alloc_pages-GivesPages p size align r q v h = elim (Bool-cases (size == 1 && align == 1)) [
  | inl one ↦
      subst₂ (λ s a. alloc_pages p s a ≡ some r → GivesPages p s a r)
        (let e : 1 ≡ size = ground (arith, one) in e) (let e : 1 ≡ align = ground (arith, one) in e)
        (alloc_pages_one p r v) h
  | inr more ↦ elim (Option-cases (pop_if_some (fit size align) p.chunk_list)) [
    | inl e ↦ absurd (ground (arith, more, e, h))
    | inr (t, e) ↦
        of_some (GivesPages p size align) (rw (more, e, alloc_pages) at h) (
          Takes-GivesPages p size align t v.0 (pop_if_some-Takes size align p.chunk_list t q v.1 e))
  ]
]
