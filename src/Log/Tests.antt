-- ===== src/Log/Tests.antt =====
-- The theorems on src/log.rs at a chip that has been set up.
use reedos.Common.{◌≡◌, refl, [], ◌∷◌, ◌++◌, some, codes}
use reedos.Log.{warning, log}
use reedos.Log.Lines.{text, name, log-view}
use reedos.Log.Interleaved.{
  printing, printed, Prints, Interleaving, done, from_left, from_right, print-Interleaving,
}
use reedos.Uart.Line.{sent}
use reedos.Uart.Plain.{Port, chip, chip_laws}

abbrev device : Port
device = record {
  view = record {
    line_control = 3;
    interrupt_enable = 3;
    fifo_control = 7;
    latch_low = 3;
    latch_high = 0;
    written = [];
  };
  received = [];
}

log-view_example :
    (d' : Port) × (log chip warning (codes "cause " ∷ codes "0x7" ∷ []) device ≡ some d')
    × (d'.view
        ≡ sent device.view (
            codes "["
            ++ (name warning
                ++ (codes "] " ++ (text (codes "cause " ∷ codes "0x7" ∷ []) ++ 13 ∷ 10 ∷ [])))))
unfolding chip_laws
log-view_example = log-view chip chip_laws warning (codes "cause " ∷ codes "0x7" ∷ []) device refl

mixed : Interleaving (codes "ab") (codes "cd") (codes "acbd")
mixed = from_left _ (from_right _ (from_left _ (from_right _ done)))

print-Interleaving_example :
    (d' : Port) × Prints chip
      (printing (codes "ab"))
      (printing (codes "cd"))
      device
      printed
      printed
      d'
    × (d'.view ≡ sent device.view (codes "acbd"))
unfolding chip_laws
print-Interleaving_example =
    print-Interleaving chip chip_laws (codes "ab") (codes "cd") (codes "acbd") device mixed refl
