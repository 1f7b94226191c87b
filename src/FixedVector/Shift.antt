-- ===== src/FixedVector/Shift.antt =====
-- What `move_backward` of include/txl/fixed_vector.h does to the slots.
use mathlib.Core.Path.{subst}
use libtxl.Prelude.{
  ℕ, zero, suc, ◌+◌, ◌-◌, ◌≡◌, refl, ap, ◌∙◌, sym, Option, none, List, [], ◌∷◌, ◌++◌, length,
  get_or, set, append_assoc, length-append, arith,
}
use libtxl.FixedVector.Defs.{move_backward}
use libtxl.FixedVector.Slots.{set-append, get_or-append, snoc}

module _ {A : Type 0} where
  -- `set` and `get_or` at a position given as a number
  set_at :
      (pre : List (Option A)) (y z : Option A) (rest : List (Option A)) (i : ℕ)
      → i ≡ length pre
      → set (pre ++ (y ∷ rest)) i z ≡ pre ++ (z ∷ rest)
  set_at pre y z rest i e = rw e (set-append pre y z rest)

  get_at :
      (pre : List (Option A)) (y : Option A) (rest : List (Option A)) (i : ℕ)
      → i ≡ length pre
      → get_or (pre ++ (y ∷ rest)) i none ≡ y
  get_at pre y rest i e = rw e (get_or-append pre y none rest)

  one_up :
      (pre init : List (Option A)) (final : Option A) (gap g : List (Option A)) (z : Option A)
      (rest : List (Option A)) (i j : ℕ)
      → final ∷ gap ≡ g ++ (z ∷ [])
      → length g ≡ length gap
      → i ≡ length pre + length init
      → j ≡ i + length gap
      → set
          (pre ++ ((init ++ (final ∷ [])) ++ (gap ++ rest)))
          j
          (get_or (pre ++ ((init ++ (final ∷ [])) ++ (gap ++ rest))) i none)
        ≡ pre ++ (init ++ (g ++ (final ∷ rest)))
  one_up pre init final gap g z rest i j e l ei ej =
      let s : List (Option A) = pre ++ ((init ++ (final ∷ [])) ++ (gap ++ rest)) in
      let s1 : s ≡ (pre ++ init) ++ (final ∷ (gap ++ rest)) = simp (append_assoc) refl in
      let s2 : s ≡ (pre ++ (init ++ g)) ++ (z ∷ rest) =
        s1 ∙ ap (λ zs. (pre ++ init) ++ (zs ++ rest)) e ∙ (simp (append_assoc) refl) in
      let got : get_or s i none ≡ final =
        ap (λ zs. get_or zs i none) s1
        ∙ get_at (pre ++ init) final (gap ++ rest) i (rw (length-append pre init) ei) in
      ap (λ x. set s j x) got
      ∙ ap (λ zs. set zs j final) s2
      ∙ set_at (pre ++ (init ++ g)) z final rest j
          (rw (length-append pre (init ++ g), length-append init g) (omega arith))
      ∙ (simp (append_assoc) refl)

  -- The `n` slots of `mid`, moved up by as many slots as `gap` has.
  pub record IsShifted (n first d_last : ℕ) (s pre mid rest : List (Option A)) (k : ℕ)
      : Type 0 where
    pub gap : List (Option A)
    pub gap_length : length gap ≡ k
    pub moved : move_backward n s first d_last ≡ pre ++ (gap ++ (mid ++ rest))

  up_step :
      (n : ℕ) (pre init : List (Option A)) (final : Option A) (gap g : List (Option A))
      (z : Option A) (rest : List (Option A)) (d_last : ℕ)
      → final ∷ gap ≡ g ++ (z ∷ [])
      → length g ≡ length gap
      → length pre + n ≡ length pre + length init
      → d_last - 1 ≡ length pre + n + length gap
      → IsShifted n
          (length pre)
          (d_last - 1)
          (pre ++ (init ++ (g ++ (final ∷ rest))))
          pre
          init
          (final ∷ rest)
          (length g)
      → IsShifted
          (suc n)
          (length pre)
          d_last
          (pre ++ ((init ++ (final ∷ [])) ++ (gap ++ rest)))
          pre
          (init ++ (final ∷ []))
          rest
          (length gap)
  unfolding move_backward
  up_step n pre init final gap g z rest d_last e l ei ej h = record {
    gap = h.gap;
    gap_length = h.gap_length ∙ l;
    moved =
        ap (λ s. move_backward n s (length pre) (d_last - 1))
          (one_up pre init final gap g z rest (length pre + n) (d_last - 1) e l ei ej)
        ∙ h.moved
        ∙ (simp (append_assoc) refl);
  }

  pub move_backward_up :
      (n : ℕ) (pre mid gap rest : List (Option A)) (d_last : ℕ)
      → length mid ≡ n
      → d_last ≡ length pre + n + length gap
      → IsShifted n (length pre) d_last (pre ++ (mid ++ (gap ++ rest))) pre mid rest (length gap)
  unfolding move_backward
  move_backward_up zero pre [] gap rest d_last e d = record {
    gap = gap;
    gap_length = refl;
    moved = refl;
  }
  move_backward_up zero pre (x ∷ mid) gap rest d_last e d = absurd (omega arith)
  move_backward_up (suc n) pre mid gap rest d_last e d =
      let m = snoc mid n e in
      let g = snoc (m.final ∷ gap) (length gap) refl in
      let i_eq : length pre + n ≡ length pre + length m.init =
        ap (λ k. length pre + k) (sym m.init_length) in
      let j_eq : d_last - 1 ≡ length pre + n + length gap = omega arith in
      let j_eq' : d_last - 1 ≡ length pre + n + length g.init =
        j_eq ∙ ap (λ k. length pre + n + k) (sym g.init_length) in
      subst
        (λ ms.
          IsShifted (suc n) (length pre) d_last (pre ++ (ms ++ (gap ++ rest))) pre ms rest
            (length gap))
        (sym m.xs_eq)
        (up_step n pre m.init m.final gap g.init g.final rest d_last g.xs_eq g.init_length i_eq j_eq
          (move_backward_up n pre m.init g.init (m.final ∷ rest) (d_last - 1) m.init_length j_eq'))
