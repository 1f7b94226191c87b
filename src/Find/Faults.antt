-- ===== src/Find/Faults.antt =====
-- Where include/txl/find.h does not find what it looks for.
use libtxl.Prelude.{
  ℕ, zero, suc, ◌≤◌, ◌≡◌, ◌≢◌, refl, inl, inr, Bool-cases, true, false, none, some, [], ◌∷◌, Bytes,
  length, get_elem?, ltb, ◌==◌, ==_refl, arith,
}
use libtxl.Find.Defs.{
  StreamFind, done, out_of_range, is_matched, init_lps_table, stream_find, process,
}

-- An index behind the end
get_elem?-none : (xs : Bytes) (i : ℕ) → length xs ≤ i → get_elem? xs i ≡ none
get_elem?-none [] i h = refl
get_elem?-none (x ∷ xs) zero h = absurd (omega (arith, h))
get_elem?-none (x ∷ xs) (suc i) h = get_elem?-none xs i (omega (arith, h))

-- The table from its third entry on
third :
    (fuel : ℕ) (a b c : ℕ) (m : Bytes)
    → init_lps_table (suc (suc (suc fuel))) (a ∷ b ∷ c ∷ m) 0 1 (length (a ∷ b ∷ c ∷ m) ∷ 0 ∷ [])
      ≡ some out_of_range
unfolding init_lps_table
third fuel a b c m =
    let n = length m in
    let l1 : ltb 1 (suc (suc (suc n))) ≡ true = ground arith in
    let l2 : ltb 2 (suc (suc (suc n))) ≡ true = ground arith in
    elim (Bool-cases (a == b)) [
      | inl e ↦ elim (Bool-cases (b == c)) [
        | inl e' ↦ rw (init_lps_table, l1, e, init_lps_table, l2, e') refl
        | inr e' ↦
            rw
              (
                init_lps_table,
                l1,
                e,
                init_lps_table,
                l2,
                e',
                init_lps_table,
                l2,
                get_elem?-none m n (omega arith),
              )
              refl
      ]
      | inr e ↦ elim (Bool-cases (a == c)) [
        | inl e' ↦ rw (init_lps_table, l1, e, init_lps_table, l2, e') refl
        | inr e' ↦ rw (init_lps_table, l1, e, init_lps_table, l2, e') refl
      ]
    ]

-- For a match of three bytes or more the constructor writes or reads out of range, whatever the
-- bytes are.
pub stream_find_out_of_range :
    (m : Bytes) (fuel : ℕ) → 3 ≤ length m → 3 ≤ fuel → stream_find fuel m ≡ some out_of_range
unfolding stream_find
stream_find_out_of_range [] fuel l f = absurd (omega (arith, l))
stream_find_out_of_range (a ∷ []) fuel l f = absurd (omega (arith, l))
stream_find_out_of_range (a ∷ b ∷ []) fuel l f = absurd (omega (arith, l))
stream_find_out_of_range (a ∷ b ∷ c ∷ m) zero l f = absurd (omega (arith, f))
stream_find_out_of_range (a ∷ b ∷ c ∷ m) (suc zero) l f = absurd (omega (arith, f))
stream_find_out_of_range (a ∷ b ∷ c ∷ m) (suc (suc zero)) l f = absurd (omega (arith, f))
stream_find_out_of_range (a ∷ b ∷ c ∷ m) (suc (suc (suc fuel))) l f =
    rw (stream_find, third fuel a b c m) refl

-- For a match of two bytes the constructor returns, and `process` on any data that begins with the
-- first of them and goes on with a byte other than the second returns as well: the search says that
-- it found the match, after one byte, which it did not.
pub process_false_match :
    (a b x : ℕ) (src : Bytes) (fuel : ℕ)
    → x ≢ b
    → 3 ≤ fuel
    → (f g : StreamFind) × (stream_find fuel (a ∷ b ∷ []) ≡ some (done f))
      × (process fuel f (a ∷ x ∷ src) ≡ some (done g))
      × (is_matched g ≡ true)
      × (g.bytes_processed ≡ 1)
unfolding stream_find init_lps_table process
process_false_match a b x src zero ne enough = absurd (omega (arith, enough))
process_false_match a b x src (suc zero) ne enough = absurd (omega (arith, enough))
process_false_match a b x src (suc (suc zero)) ne enough = absurd (omega (arith, enough))
process_false_match a b x src (suc (suc (suc fuel))) ne enough =
    let e : (x == b) ≡ false = ground (arith, ne) in
    let found : ℕ → ℕ → ℕ → StreamFind = λ l i n. record {
      match_bytes = a ∷ b ∷ [];
      lps = 2 ∷ l ∷ [];
      match_index = i;
      bytes_processed = n;
    } in
    elim (Bool-cases (a == b)) [
      | inl s ↦ (
        found 1 0 0,
        found 1 2 1,
        rw (stream_find, init_lps_table, s) refl,
        rw (process, ==_refl a, process, e) refl,
        refl,
        refl,
      )
      | inr s ↦ (
        found 0 0 0,
        found 0 2 1,
        rw (stream_find, init_lps_table, s) refl,
        rw (process, ==_refl a, process, e) refl,
        refl,
        refl,
      )
    ]

-- A search for two different bytes, with the right table for them and from the start, on the first
-- byte twice and the second: every byte is processed, and the match at the end is not found.
process_missed_match :
    (a b : ℕ)
    → a ≢ b
    → (g : StreamFind) × (process 4
          (record {
            match_bytes = a ∷ b ∷ [];
            lps = 0 ∷ 0 ∷ [];
            match_index = 0;
            bytes_processed = 0;
          })
          (a ∷ a ∷ b ∷ [])
        ≡ some (done g))
      × (g.bytes_processed ≡ 3)
      × (is_matched g ≡ false)
unfolding process
process_missed_match a b ne =
    let e : (a == b) ≡ false = ground (arith, ne) in
    let e' : (b == a) ≡ false = ground (arith, ne) in
    (
      record { match_bytes = a ∷ b ∷ []; lps = 0 ∷ 0 ∷ []; match_index = 0; bytes_processed = 3 },
      rw (process, ==_refl a, process, e, process, e') refl,
      refl,
      refl,
    )
