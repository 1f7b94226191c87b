-- ===== src/MemoryPool/Regions.antt =====
-- The pages that chunks of include/txl/memory_pool.h cover.
use mathlib.Core.Path.{subst}
use native.Mathlib.Nat.{add-mul, mul-le-mul_right, div-le_self, lt-div-mul-add}
use libtxl.Prelude.{
  ℕ, suc, ◌+◌, ◌-◌, ◌*◌, ◌/◌, ◌%◌, ◌^◌, size_mod, ◌≤◌, ◌<◌, ◌≡◌, refl, inl, inr, Bool-cases, true,
  false, Option, none, some, List, [], ◌∷◌, ltb, length, set, length-set, length-replicate, ltb→le,
  arith,
}
use libtxl.MemoryPool.Defs.{
  MemoryPool, no_chunk, mem_chunk, memory_pool, pages_of, find_free_list_chunk, get_free_chunk,
  fresh_chunk,
}
use libtxl.MemoryPool.Handles.{rent}

-- A region: its first page and the bytes asked for.
abbrev pub Region : Type 0
Region = ℕ × ℕ

-- Rents one after the other, with nothing released: the regions of those that succeed. `none` is a
-- rent that fails to return or leaves the pool.
unfoldable pub rent_all : ℕ → MemoryPool → List ℕ → Option (List Region × MemoryPool)
rent_all fuel p [] = some ([], p)
rent_all fuel p (n ∷ ns) = elim (rent fuel p n) [
  | none ↦ none
  | some none ↦ none
  | some (some (h, q)) ↦ elim (rent_all fuel q ns) [
    | none ↦ none
    | some (rs, q') ↦ some (elim h.page [ none ↦ rs | some id ↦ (id, n) ∷ rs ], q')
  ]
]

-- With pages of `bytes` bytes, every region starts at the byte `low` or behind it.
abbrev pub AllFrom : ℕ → ℕ → List Region → Type 0
AllFrom bytes low [] = Unit
AllFrom bytes low ((id, n) ∷ rs) = (low ≤ id * bytes) × AllFrom bytes low rs

-- With pages of `bytes` bytes, every region (the header and the bytes asked for) ends at the byte
-- `limit` or before it, and all that come later start behind its end.
abbrev pub Apart : ℕ → ℕ → List Region → Type 0
Apart bytes limit [] = Unit
Apart bytes limit ((id, n) ∷ rs) =
    (id * bytes + (n + 12) ≤ limit)
    × AllFrom bytes (id * bytes + (n + 12)) rs
    × Apart bytes limit rs

AllFrom_weaken :
    (bytes low low' : ℕ) (rs : List Region)
    → low ≤ low'
    → AllFrom bytes low' rs
    → AllFrom bytes low rs
AllFrom_weaken bytes low low' [] h a = a
AllFrom_weaken bytes low low' ((id, n) ∷ rs) h (b, a) =
    (omega arith, AllFrom_weaken bytes low low' rs h a)

-- Every size is small enough for `float` to hold it exactly, its header included.
abbrev pub AllSmall : List ℕ → Type 0
AllSmall [] = Unit
AllSmall (n ∷ ns) = (n + 12 < 2 ^ 24) × AllSmall ns

-- Of numbers that `float` holds exactly, the platform gives the ceiling of the quotient.
abbrev pub IsCeil : (ℕ → ℕ → ℕ) → Type 0
IsCeil ceil_quotient =
    (a b : ℕ) → a < 2 ^ 24 → 0 < b → b < 2 ^ 24 → ceil_quotient a b ≡ (a + b - 1) / b

-- A pool with an empty free list, and what the rents give
pub record IsRented (fuel : ℕ) (p : MemoryPool) (ns : List ℕ) : Type 0 where
  pub regions : List Region
  pub pool : MemoryPool
  pub rented : rent_all fuel p ns ≡ some (regions, pool)
  pub behind : AllFrom p.bytes_per_page (p.next_alloc * p.bytes_per_page) regions
  pub apart : Apart p.bytes_per_page (length p.pages * p.bytes_per_page) regions

-- The rounded number of pages covers the bytes.
pages_cover :
    (q : ℕ → ℕ → ℕ) (a b : ℕ) → IsCeil q → a < 2 ^ 24 → 0 < b → b < 2 ^ 24 → a ≤ q a b % 2 ^ 32 * b
pages_cover q a b c small some_bytes few =
    let small_quotient = div-le_self (a + b - 1) b in
    let covered = lt-div-mul-add {a = a + b - 1} {b = b} some_bytes in
    let kept : (a + b - 1) / b % 2 ^ 32 ≡ (a + b - 1) / b = omega arith in
    rw (c a b small some_bytes few, kept) (omega arith)

-- A chunk of `n` bytes takes no more than its pages.
pages_of-cover :
    (p : MemoryPool) (n : ℕ)
    → IsCeil p.ceil_quotient
    → n + 12 < 2 ^ 24
    → 0 < p.bytes_per_page
    → p.bytes_per_page < 2 ^ 24
    → p.next_alloc * p.bytes_per_page + (n + 12) ≤ (p.next_alloc + pages_of p n) * p.bytes_per_page
unfolding pages_of
pages_of-cover p n c small some_bytes few =
    let exact : (n + 12) % size_mod ≡ n + 12 = omega arith in
    let cover = pages_cover p.ceil_quotient (n + 12) p.bytes_per_page c small some_bytes few in
    rw
      (
        exact,
        add-mul p.next_alloc (p.ceil_quotient (n + 12) p.bytes_per_page % 2 ^ 32) p.bytes_per_page,
      )
      (omega arith)

module _ (f : ℕ) where
  get_free_chunk-fresh_chunk :
      (p : MemoryPool) (n : ℕ)
      → p.free_list ≡ no_chunk
      → get_free_chunk (suc f) p n ≡ some (fresh_chunk p (pages_of p n))
  unfolding get_free_chunk find_free_list_chunk
  get_free_chunk-fresh_chunk p n e = rw (e) refl

  rent_missing :
      (p : MemoryPool) (n : ℕ)
      → p.free_list ≡ no_chunk
      → ltb (length p.pages) (p.next_alloc + pages_of p n) ≡ true
      → rent (suc f) p n ≡ some (some (record { page = none; size = 0 }, p))
  unfolding rent
  rent_missing p n e over = rw (rent, get_free_chunk-fresh_chunk p n e, over) refl

  -- The pool behind a rent from the pages that were never used
  abbrev grown : MemoryPool → ℕ → MemoryPool
  grown p n = record p {
    pages =
        set p.pages p.next_alloc (record { word = 1; num_pages = pages_of p n; kind = mem_chunk });
    next_alloc = p.next_alloc + pages_of p n;
  }

  rent_grows :
      (p : MemoryPool) (n : ℕ)
      → p.free_list ≡ no_chunk
      → ltb (length p.pages) (p.next_alloc + pages_of p n) ≡ false
      → rent (suc f) p n ≡ some (some (record { page = some p.next_alloc; size = n }, grown p n))
  unfolding rent
  rent_grows p n e fits = rw (rent, get_free_chunk-fresh_chunk p n e, fits) refl

  rent_all-IsRented :
      (ns : List ℕ) (p : MemoryPool)
      → IsCeil p.ceil_quotient
      → 0 < p.bytes_per_page
      → p.bytes_per_page < 2 ^ 24
      → AllSmall ns
      → p.free_list ≡ no_chunk
      → IsRented (suc f) p ns
  unfolding rent_all
  rent_all-IsRented [] p c some_bytes few small e = record {
    regions = [];
    pool = p;
    rented = refl;
    behind = tt;
    apart = tt;
  }
  rent_all-IsRented (n ∷ ns) p c some_bytes few (small, smalls) e =
      elim (Bool-cases (ltb (length p.pages) (p.next_alloc + pages_of p n))) [
        | inl over ↦
            let later = rent_all-IsRented ns p c some_bytes few smalls e in
            record {
              regions = later.regions;
              pool = later.pool;
              rented = rw (rent_all, rent_missing p n e over, later.rented) refl;
              behind = later.behind;
              apart = later.apart;
            }
        | inr fits ↦
            let q = grown p n in
            let b = p.bytes_per_page in
            let end = p.next_alloc * b + (n + 12) in
            let later = rent_all-IsRented ns q c some_bytes few smalls e in
            let bound = ltb→le (length p.pages) (p.next_alloc + pages_of p n) fits in
            let cover = pages_of-cover p n c small some_bytes few in
            let inside : (p.next_alloc + pages_of p n) * b ≤ length p.pages * b =
              mul-le-mul_right b bound in
            let behind_end =
              AllFrom_weaken b end (q.next_alloc * b) later.regions cover later.behind in
            record {
              regions = (p.next_alloc, n) ∷ later.regions;
              pool = later.pool;
              rented = rw (rent_all, rent_grows p n e fits, later.rented) refl;
              behind = (
                omega arith,
                AllFrom_weaken b (p.next_alloc * b) end later.regions (omega arith) behind_end,
              );
              apart = (
                omega arith,
                behind_end,
                subst (λ k. Apart b (k * b) later.regions)
                    (length-set p.pages p.next_alloc
                      (record { word = 1; num_pages = pages_of p n; kind = mem_chunk }))
                    later.apart,
              );
            }
      ]

-- Any rents on a new pool, with some fuel and nothing released, where a page has at least one byte
-- and less than 2^24, as has every size with the 12 bytes of the header added, and where
-- the platform's rounded `float` quotient is the ceiling for such numbers: no rent fails to return
-- or leaves the pool, and in bytes the chunks rented (12 bytes of header and the size asked for,
-- from the first byte of their page on) lie in the pool and do not overlap, each behind those
-- before it.
pub rent_all-Apart :
    (ceil_quotient : ℕ → ℕ → ℕ) (f num_pages bytes_per_page : ℕ) (ns : List ℕ)
    → IsCeil ceil_quotient
    → 0 < bytes_per_page
    → bytes_per_page < 2 ^ 24
    → AllSmall ns
    → (rs : List Region) × (q : MemoryPool) × (rent_all
          (suc f)
          (memory_pool ceil_quotient num_pages bytes_per_page)
          ns
        ≡ some (rs, q))
      × Apart bytes_per_page (num_pages * bytes_per_page) rs
rent_all-Apart ceil_quotient f num_pages bytes_per_page ns c some_bytes few small =
    let h =
      rent_all-IsRented f ns (memory_pool ceil_quotient num_pages bytes_per_page) c some_bytes few
        small refl in
    (
      h.regions,
      h.pool,
      h.rented,
      subst (λ k. Apart bytes_per_page (k * bytes_per_page) h.regions)
          (length-replicate num_pages (record { word = 0; num_pages = 0; kind = 0 })) h.apart,
    )
