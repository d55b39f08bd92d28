-- ===== src/Uart/Plain.antt =====
-- A chip that is `Is16550` of src/device/uart.rs, with the bytes that it has received.
use reedos.Common.{ℕ, ◌+◌, refl, ap, List, [], ◌∷◌, ◌++◌, ◌==◌, if◌then◌else◌, ==_true}
use reedos.Uart.{Chip, View, Is16550, latch_access}
use reedos.Uart.Line.{rest}
use reedos.Ptable.{uart_base}

pub record Port : Type 0 where
  pub view : View
  pub received : List ℕ

abbrev latched : ℕ → ℕ → View → View
latched p v view =
    if p == uart_base then record view { latch_low = v } else record view { latch_high = v }

abbrev unlatched : ℕ → ℕ → View → View
unlatched p v view =
    if p == uart_base
    then record view { written = view.written ++ v ∷ [] }
    else record view { interrupt_enable = v }

abbrev stored : ℕ → ℕ → View → View
stored p v view =
    if p == uart_base + 3
    then record view { line_control = v }
    else (if p == uart_base + 2
        then record view { fifo_control = v }
        else (if latch_access view == 1 then latched p v view else unlatched p v view))

abbrev ready : List ℕ → ℕ
ready [] = 0
ready (c ∷ cs) = 1

abbrev front : List ℕ → ℕ
front [] = 0
front (c ∷ cs) = c

abbrev pub chip : Chip Port
chip = record {
  load = λ p port.
      if p == uart_base + 5
      then (ready port.received, port)
      else (front port.received, record port { received = rest port.received });
  store = λ p v port. record port { view = stored p v port.view };
}

unfoldable pub chip_laws : Is16550 chip
chip_laws = record {
  view = λ port. port.view;
  received = λ port. port.received;
  store_line = λ v port. refl;
  store_fifo = λ v port. refl;
  store_latch_low = λ v port h. rw (==_true (latch_access port.view) 1 h) refl;
  store_latch_high = λ v port h. rw (==_true (latch_access port.view) 1 h) refl;
  store_interrupt = λ v port h. rw h refl;
  store_data = λ v port h. rw h refl;
  load_empty = λ port h. rw h (refl, refl, refl);
  load_ready = λ port c cs h. rw h (refl, refl, refl);
  load_data = λ port c cs closed h. (ap front h, ap rest h, refl);
}
