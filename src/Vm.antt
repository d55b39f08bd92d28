-- ===== src/Vm.antt =====
-- The self-test of the page pool, `test_palloc` of src/vm.rs.
pub mod Selftest
mod Tests
use reedos.Common.{ℕ, zero, suc, ◌+◌, ◌*◌}
use reedos.Machine.{Cmd, pure, ◌>>=◌, ◌>>◌, write}
use reedos.Palloc.{Pool, palloc, palloc_plural, pfree, pfree_plural}
use reedos.Galloc.{expect}

-- `ptr.write_bytes(5, n)` at `*mut usize`: each byte of the `n` words from `p` on is 5.
pub write_fives : ℕ → ℕ → Cmd (Unit {0})
write_fives zero p = pure tt
write_fives (suc n) p = do write p 0x0505050505050505; write_fives n (p + 8)

unfoldable pub test_palloc : Pool → Cmd Pool
test_palloc pool = do
  (first, pool₁) ← palloc pool
  one ← expect first
  write one 0xdeadbeaf
  (region, pool₂) ← palloc_plural pool₁ 5
  many ← expect region
  write_fives (512 * 2) many
  (_, pool₃) ← pfree pool₂ one
  (_, pool₄) ← pfree_plural pool₃ many 5
  pure pool₄
