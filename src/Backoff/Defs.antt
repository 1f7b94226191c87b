-- ===== src/Backoff/Defs.antt =====
-- `scaled_backoff` of include/txl/backoff.h. `Sleep` is not modelled; `wait` gives the duration that
-- it is called with.
use Prim.Native.Nat.{bit_and, bit_or}
use libtxl.Prelude.{ℕ, zero, suc, ◌*◌, ◌%◌, size_mod}

pub record ScaledBackoff : Type 0 where
  pub time : ℕ

abbrev pub reset : ScaledBackoff
reset = record { time = 15 }

-- The default of `UpperBoundMask`
abbrev pub upper_bound_mask : ℕ
upper_bound_mask = 32767

unfoldable pub wait : ℕ → ScaledBackoff → ℕ × ScaledBackoff
wait mask b = (b.time, record { time = bit_and (bit_or (b.time * 2 % size_mod) 1) mask })

-- The state behind `n` calls of `wait`
unfoldable pub wait_times : ℕ → ℕ → ScaledBackoff → ScaledBackoff
unfolding wait
wait_times mask zero b = b
wait_times mask (suc n) b = wait_times mask n (wait mask b).1
