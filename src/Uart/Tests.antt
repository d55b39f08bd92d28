-- ===== src/Uart/Tests.antt =====
-- The theorems on src/device/uart.rs at a chip with two received bytes and an open latch.
use reedos.Common.{◌≡◌, refl, [], codes}
use reedos.Uart.{init, get, write_str}
use reedos.Uart.Line.{port, first, rest, sent, init-view, write_str-view, get-received}
use reedos.Uart.Plain.{Port, chip, chip_laws}

-- The latch is open, as nothing says that it is closed at reset.
abbrev reset : Port
reset = record {
  view = record {
    line_control = 0x80;
    interrupt_enable = 1;
    fifo_control = 0;
    latch_low = 0;
    latch_high = 9;
    written = [];
  };
  received = codes "ok";
}

abbrev device : Port
device = init chip reset

init-view_example : (init chip reset).view ≡ record {
  line_control = 3;
  interrupt_enable = 3;
  fifo_control = 7;
  latch_low = 3;
  latch_high = 0;
  written = [];
}
unfolding chip_laws
init-view_example = init-view chip chip_laws reset

write_str-view_example :
    (write_str chip port (codes "hi") device).1.view ≡ sent device.view (codes "hi")
unfolding init chip_laws
write_str-view_example = write_str-view chip chip_laws (codes "hi") device refl

get-received_example :
    ((get chip port device).0 ≡ first device.received)
    × ((get chip port device).1.received ≡ rest device.received)
    × ((get chip port device).1.view ≡ device.view)
unfolding init chip_laws
get-received_example = get-received chip chip_laws device refl
