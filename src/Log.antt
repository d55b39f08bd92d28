-- ===== src/Log.antt =====
-- Output of the kernel, src/log.rs. `write!` hands the pieces of the formatted text to `write_str`
-- one after another; the pieces are an argument here. A text is the list of its bytes.
pub mod Lines
pub mod Interleaved
mod Tests
use reedos.Common.{
  ℕ, ◌≡◌, Bool, true, false, List, [], ◌∷◌, ◌++◌, Option, none, some, codes, if◌then◌else◌,
}
use reedos.Mutex.{Mutex, lock_round, drop}
use reedos.Uart.{Uart, Chip, write_str}
use reedos.Uart

pub data LogSeverity : Type 0 where
  debug info warning error : LogSeverity

abbrev pub prefix : LogSeverity → List ℕ
prefix debug = codes "[DEBUG] "
prefix info = codes "[INFO] "
prefix warning = codes "[WARN] "
prefix error = codes "[ERROR] "

abbrev pub line_end : List ℕ
line_end = codes "\r\n"

module _ {D : Type 0} (chip : Chip D) where
  -- `write!` on a guard: the pieces in order, `write_str` always being `Ok`.
  pub write_fmt : Uart → List (List ℕ) → D → D
  write_fmt uart [] device = device
  write_fmt uart (piece ∷ pieces) device =
      write_fmt uart pieces (write_str chip uart piece device).1

  -- `print!`: the lock is that of a mutex made for this call. `none` where `lock` spins in its first
  -- round.
  unfoldable pub print : List (List ℕ) → D → Option D
  unfolding write_fmt
  print pieces device =
      let (acquired, mutex) = lock_round Uart.new in
      if acquired then some (write_fmt mutex.inner pieces device) else none

  -- `println!`, whose format ends in the line end
  unfoldable pub println : List (List ℕ) → D → Option D
  println pieces device = print (pieces ++ line_end ∷ []) device

  unfoldable pub log : LogSeverity → List (List ℕ) → D → Option D
  log severity pieces device = print (prefix severity ∷ pieces ++ line_end ∷ []) device
