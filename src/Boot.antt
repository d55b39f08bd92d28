-- ===== src/Boot.antt =====
-- The start of a hart: `timerinit` of src/hw.rs and `_start` of src/main.rs, which run in machine
-- mode, and `main` of src/main.rs. The addresses of the functions that they write to registers are
-- parameters. The lines that the functions called by `main` log are not on its line.
pub mod Registers
pub mod Start
pub mod Harts
mod Tests
use Prim.Native.Nat.{bit_and, bit_or}
use reedos.Common.{ℕ, List, [], ◌∷◌, Option, none, some, codes, ◌==◌, if◌then◌else◌}
use reedos.Machine.{Cmd, pure, panics, spins, ◌>>=◌, ◌>>◌}
use reedos.Header.{not_mask}
use reedos.Riscv.{
  Hart, Hardware, mstatus_mpp_mask, mstatus_mpp_s, mstatus_mie, mie_mtie, sie_seie, sie_stie,
  sie_ssie, read_mstatus, read_mie, read_sie, read_mhartid, write_mstatus, write_mepc, write_satp,
  write_medeleg, write_mideleg, write_sie, write_pmpaddr0, write_pmpcfg0, write_tp, write_mtvec,
  write_mie, call_mret, read_tp,
}
use reedos.Clint.{set_mtimecmp}
use reedos.Trap.{Vectors}
use reedos.Trap
use reedos.Uart.{Chip}
use reedos.Uart
use reedos.Log.{info, debug, println, log}
use reedos.Palloc.{Pool}
use reedos.Ptable.{Linker}
use reedos.Galloc.{Globals}
use reedos.Galloc
use reedos.Vm.{test_palloc}

-- The registers that `_start` sets before the call of `timerinit`.
unfoldable pub configure : Hardware → (fn_main : ℕ) → Hart → Hart
configure hw fn_main hart =
    let ms = bit_or (bit_and (read_mstatus hart) (not_mask mstatus_mpp_mask)) mstatus_mpp_s in
    let hart₁ = write_mstatus hw ms hart in
    let hart₂ = write_mepc hw fn_main hart₁ in
    let hart₃ = write_satp hw 0 hart₂ in
    let hart₄ = write_mideleg hw 0xffff (write_medeleg hw 0xffff hart₃) in
    let sie = bit_or (bit_or (bit_or (read_sie hart₄) sie_seie) sie_stie) sie_ssie in
    let hart₅ = write_sie hw sie hart₄ in
    let hart₆ = write_pmpcfg0 hw 0xf (write_pmpaddr0 hw 0x3fffffffffffff hart₅) in
    write_tp (read_mhartid hart₆) hart₆

module _ (hw : Hardware) (vectors : Vectors) where
  -- The registers that `timerinit` sets behind the call of `set_mtimecmp`.
  unfoldable pub enable_timer : Hart → Hart
  enable_timer hart =
      let hart₁ = write_mtvec hw vectors.mtrapvec hart in
      let hart₂ = write_mstatus hw (bit_or (read_mstatus hart₁) mstatus_mie) hart₁ in
      write_mie hw (bit_or (read_mie hart₂) mie_mtie) hart₂

  unfoldable pub timerinit : Hart → Cmd Hart
  timerinit hart = do set_mtimecmp hart 10_000_000; pure (enable_timer hart)

  -- `_start`, up to the instruction behind `mret`.
  unfoldable pub start : (fn_main : ℕ) → Hart → Cmd Hart
  start fn_main hart = do hart' ← timerinit (configure hw fn_main hart); pure (call_mret hw hart')

-- `param::BANNER`
abbrev pub banner : List ℕ
banner =
    codes
      "\nMellow Swirled,\n                       __\n   ________  ___  ____/ /___  _____\n  / ___/ _ \\/ _ \\/ __  / __ \\/ ___/\n / /  /  __/  __/ /_/ / /_/ (__  )\n/_/   \\___/\\___/\\__,_/\\____/____/\n\n"

abbrev pub unwrap : {A : Type 0} → Option A → Cmd A
unwrap none = panics
unwrap (some a) = pure a

-- `Location` of `PanicInfo`, as text
pub record Location : Type 0 where
  pub file : List ℕ
  pub line : List ℕ

module _ {D : Type 0} (chip : Chip D) where
  panic_line : List ℕ → Option Location → List (List ℕ)
  panic_line text none = codes "PANIC! " ∷ text ∷ codes " at " ∷ codes "No location provided" ∷ []
  panic_line text (some location) =
      codes "PANIC! " ∷ text ∷ codes " at " ∷ location.file ∷ codes ":" ∷ location.line ∷ []

  -- The panic handler up to its last loop, which does nothing.
  unfoldable pub panic_handler : (message : Option (List ℕ)) → Option Location → D → Option D
  unfolding panic_line
  panic_handler none location device =
      println chip (panic_line (codes "No message provided") location) device
  panic_handler (some text) location device = println chip (panic_line text location) device

-- A line of output, which waits where the lock is taken.
abbrev output : {D : Type 0} → Option D → Cmd D
output none = spins
output (some device) = pure device

-- `main` up to its last loop, which does nothing. `test_galloc` allocates by Rust's `alloc`.
module _ {D : Type 0} (chip : Chip D) (hw : Hardware) (vectors : Vectors) (linker : Linker)
    (test_galloc : Globals → Cmd Globals) where
  -- What hart 0 does.
  pub bootstrap : Hart → Globals → D → Cmd (Hart × Globals × D)
  bootstrap hart globals device = do
    device₁ ← output (println chip (banner ∷ []) (Uart.init chip device))
    device₂ ← output (log chip info (codes "Bootstrapping on hart0..." ∷ []) device₁)
    device₃ ← output (log chip info (codes "Finished trap init..." ∷ []) device₂)
    (globals', hart') ← Galloc.init hw linker globals (Trap.init hw vectors hart)
    device₄ ← output (log chip info (codes "Initialized the kernel page table..." ∷ []) device₃)
    device₅ ← output (log chip debug (codes "Testing page allocation and freeing..." ∷ []) device₄)
    pool ← unwrap globals'.page_pool
    pool' ← test_palloc pool
    device₆ ←
        output (log chip debug (codes "Testing galloc allocation and freeing..." ∷ []) device₅)
    globals'' ← test_galloc (record globals' { page_pool = some pool' })
    pure (hart', globals'', device₆)

  unfoldable pub main : Hart → Globals → D → Cmd (Hart × Globals × D)
  unfolding bootstrap
  main hart globals device =
      if read_tp hart == 0
      then bootstrap hart globals device
      else pure (Trap.init hw vectors hart, globals, device)
