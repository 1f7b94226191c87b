-- ===== src/Backoff/Growth.antt =====
-- How the durations of include/txl/backoff.h grow.
use libtxl.Prelude.{
  ℕ, zero, suc, ◌+◌, ◌-◌, ◌*◌, ◌^◌, ◌≡◌, refl, sym, ap, ◌∙◌, if◌then◌else◌, ltb, le→ltb, arith,
}
use libtxl.Backoff.Defs.{reset, upper_bound_mask, wait, wait_times}

abbrev expected : ℕ → ℕ
expected n = if ltb n 11 then 16 * 2 ^ n - 1 else 32767

wait_times_bound :
    (n : ℕ) → wait_times upper_bound_mask n (record { time = 32767 }) ≡ record { time = 32767 }
unfolding wait_times wait
wait_times_bound zero = refl
wait_times_bound (suc n) = wait_times_bound n

expected_bound : (n : ℕ) → expected (n + 11) ≡ 32767
expected_bound n = rw (le→ltb (n + 11) 11 (omega arith)) refl

-- The duration of each call of wait, from the start or a reset and with the default mask, by the
-- number of calls before it: 16 times 2 to that number, less 1, for the first eleven calls, and
-- 32767 from then on.
pub wait-wait_times :
    (n : ℕ)
    → (wait upper_bound_mask (wait_times upper_bound_mask n reset)).0
      ≡ (if ltb n 11 then 16 * 2 ^ n - 1 else 32767)
unfolding wait_times wait
wait-wait_times zero = refl
wait-wait_times (suc zero) = refl
wait-wait_times (suc (suc zero)) = refl
wait-wait_times (suc (suc (suc zero))) = refl
wait-wait_times (suc (suc (suc (suc zero)))) = refl
wait-wait_times (suc (suc (suc (suc (suc zero))))) = refl
wait-wait_times (suc (suc (suc (suc (suc (suc zero)))))) = refl
wait-wait_times (suc (suc (suc (suc (suc (suc (suc zero))))))) = refl
wait-wait_times (suc (suc (suc (suc (suc (suc (suc (suc zero)))))))) = refl
wait-wait_times (suc (suc (suc (suc (suc (suc (suc (suc (suc zero))))))))) = refl
wait-wait_times (suc (suc (suc (suc (suc (suc (suc (suc (suc (suc zero)))))))))) = refl
wait-wait_times (suc (suc (suc (suc (suc (suc (suc (suc (suc (suc (suc n))))))))))) =
    ap (λ b. b.time) (wait_times_bound n) ∙ sym (ap expected (omega arith) ∙ expected_bound n)
