-- ===== src/Zone/Tests.antt =====
-- The theorems on `Zone::scan` of src/vm/vmalloc.rs, at the end of a zone that is one free chunk.
use reedos.Common.{ℕ, ◌+◌, ◌≡◌, refl, true, false, arith, some}
use reedos.Machine.Ends.{Ends}
use reedos.Zone.Ends.{scan-Ends}
use reedos.Machine.{Mem, done, update, page_size}
use reedos.Header.Fields.{word}
use reedos.Zone.{Zone, scan, scan_loop}
use reedos.Zone.Overrun.{scan_loop-overrun}

abbrev base : ℕ
base = 0x80000000

abbrev zone : Zone
zone = record { base = base; next = 0 }

-- One free chunk, and zeros behind it.
abbrev mem : Mem
mem = update (λ q. 0) (base + 8) 4080

zero_behind : mem (base + page_size) ≡ 0
unfolding update
zero_behind = refl

scan_loop-overrun_example :
    (m' : Mem) × (scan_loop 2 4088 (base + page_size) (base + 8) (word 4080 false) zone mem
      ≡ done (some (base + 16), record { base = base; next = 1 }) m')
    × (m' (base + 8) ≡ word 4088 true)
    × (base + 16 + 4088 ≡ base + page_size + 8)
scan_loop-overrun_example =
    scan_loop-overrun zone (omega arith) (omega arith) (omega arith) mem (base + 8) 4080 refl
      (omega arith) refl (omega arith) zero_behind 0

-- Every word, in RAM and outside, is a free header of size 0.
scan-Ends_example : Ends (scan zone 24 (λ q. 0))
scan-Ends_example = scan-Ends zone 24 (λ q. 0)
