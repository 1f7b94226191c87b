-- ===== src/Io/Defs.antt =====
-- Readers and writers (include/txl/io.h) with their state passed along, and `io_buffer`.
use libtxl.Prelude.{ℕ, Bytes, ◌++◌, length, take, drop}

-- `result<T>` with an error code; no code here returns an unassigned one.
pub data Result {ℓ} (A : Type ℓ) : Type ℓ where
  ok : A → Result A
  err : ℕ → Result A

module _ {ℓ} {A B : Type ℓ} where
  abbrev pub map_result : (A → B) → Result A → Result B
  map_result f (ok a) = ok (f a)
  map_result f (err e) = err e

-- `reader`: `read_impl s n` fills a buffer of `n` bytes and returns how many bytes it wrote. Here
-- it returns the bytes themselves.
pub record Reader (S : Type 0) : Type 0 where
  pub read_impl : S → ℕ → Result Bytes × S

-- `writer`: `write_impl w bs` returns how many bytes of `bs` it took.
pub record Writer (W : Type 0) : Type 0 where
  pub write_impl : W → Bytes → Result ℕ × W

-- `reader::read`: `buf.slice(0, *bytes_read)`
unfoldable pub read : {S : Type 0} → Reader S → S → ℕ → Result Bytes × S
read rd s n = let (res, s') = rd.read_impl s n in (map_result (take n) res, s')

-- `writer::write`: `buf.slice(0, *bytes_written)`
unfoldable pub write : {W : Type 0} → Writer W → W → Bytes → Result Bytes × W
write wr w bs = let (res, w') = wr.write_impl w bs in (map_result (λ n. take n bs) res, w')

-- `io_buffer`: it is read from the front and written at the back.
abbrev pub buffer_reader : Reader Bytes
buffer_reader = record { read_impl = λ s n. (ok (take n s), drop n s) }

abbrev pub buffer_writer : Writer Bytes
buffer_writer = record { write_impl = λ s bs. (ok (length bs), s ++ bs) }

-- `lambda_writer` over a callback that changes `W`
abbrev pub lambda_writer : {W : Type 0} → (W → Bytes → W) → Writer W
lambda_writer on_data = record { write_impl = λ w bs. (ok (length bs), on_data w bs) }
