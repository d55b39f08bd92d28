-- ===== src/Boot/Tests.antt =====
-- The theorems on `_start` and `main` of src/main.rs, on hart 1.
use reedos.Common.{ℕ, ◌≡◌, refl, none, [], arith}
use reedos.Machine.{Mem, done, update, pure, ◌>>=◌}
use reedos.Riscv.{Csr, Hart, machine, mhartid, mstatus}
use reedos.Riscv.Plain.{plain, plain-IsRiscv}
use reedos.Clint.Deadline.{mtime_at, mtimecmp_at}
use reedos.Trap.{Vectors}
use reedos.Uart.Plain.{Port, chip}
use reedos.Ptable.{Linker}
use reedos.Galloc.{Globals}
use reedos.Boot.{start, main}
use reedos.Boot.Start.{Started, start-Started}
use reedos.Boot.Harts.{Waiting, start-main-other}

-- The registers at reset.
abbrev reset : Csr → ℕ
reset mhartid = 1
reset mstatus = 0x1800
reset _ = 0

abbrev hart : Hart
hart = record { csr = reset; tp = 0; mode = machine; pc = 0x80000000 }

abbrev vectors : Vectors
vectors = record { mtrapvec = 0x80000100; strapvec = 0x80000200 }

abbrev fn_main : ℕ
fn_main = 0x80000400

abbrev mem : Mem
mem = update (λ q. 0) mtime_at 55

abbrev after : Mem
after = update mem (mtimecmp_at 1) 10_000_055

abbrev linker : Linker
linker = record {
  text_end = 0x80008000;
  rodata_end = 0x8000A000;
  data_end = 0x8000B000;
  stacks_start = 0x8000B000;
  intstacks_start = 0x80011000;
  bss_start = 0x8001A000;
  bss_end = 0x8001B000;
  dram_end = 0x88000000;
}

abbrev globals : Globals
globals = record { page_pool = none; global = none }

abbrev port : Port
port = record {
  view = record {
    line_control = 0;
    interrupt_enable = 0;
    fifo_control = 0;
    latch_low = 0;
    latch_high = 0;
    written = [];
  };
  received = [];
}

start-Started_example :
    (hart' : Hart) × (start plain vectors fn_main hart mem ≡ done hart' after)
    × Started vectors fn_main 1 hart'
unfolding update
start-Started_example =
    start-Started plain plain-IsRiscv vectors fn_main hart mem refl refl (omega arith) (omega arith)
      (omega arith)

start-main-other_example :
    (hart' : Hart) × ((start plain vectors fn_main hart >>= λ started.
    main chip plain vectors linker pure started globals port)
        mem
      ≡ done (hart', globals, port) after)
    × Waiting vectors 1 hart'
unfolding update
start-main-other_example =
    start-main-other chip plain plain-IsRiscv vectors linker pure fn_main hart globals port mem refl
      refl refl (omega arith) (omega arith) (omega arith) (omega arith)
