-- ===== src/Uart/Line.antt =====
-- What the driver of src/device/uart.rs stores to the chip and loads from it.

use reedos.Common.{
  ℕ, ◌+◌, ◌^◌, ◌≡◌, refl, sym, ap, ◌∙◌, ◌⊎◌, inl, inr, arith, List, [], ◌∷◌, ◌++◌, Option, none,
  some,
}
use mathlib.Core.List.{append_assoc, append-nil}
use reedos.Ptable.{uart_base}
use reedos.Uart.{Uart, Chip, View, Is16550, latch_access, init, put, get, put_bytes, write_str}

abbrev pub port : Uart
port = record { base_address = uart_base }

abbrev pub first : List ℕ → Option ℕ
first [] = none
first (c ∷ cs) = some c

abbrev pub rest : List ℕ → List ℕ
rest [] = []
rest (c ∷ cs) = cs

received-cases : (cs : List ℕ) → (cs ≡ []) ⊎ ((c : ℕ) × (cs' : List ℕ) × (cs ≡ c ∷ cs'))
received-cases [] = inl refl
received-cases (c ∷ cs) = inr (c, cs, refl)

-- The chip with other bytes stored to its transmitter, and with more of them.
abbrev send : View → List ℕ → View
send view out = record view { written = out }

abbrev pub sent : View → List ℕ → View
sent view out = send view (view.written ++ out)

pub sent-nil : (view : View) → sent view [] ≡ view
sent-nil view = ap (send view) (append-nil view.written)

pub sent-append :
    (view : View) (front out : List ℕ) → sent (sent view front) out ≡ sent view (front ++ out)
sent-append view front out = ap (send view) (append_assoc view.written front out)

module _ {D : Type 0} (chip : Chip D) (law : Is16550 chip) where
  -- The store to the interrupt enable register goes to the divisor latch where that is open.
  first_store : (d : D) → (law.view (chip.store (uart_base + 1) 0 d)).written ≡ (law.view d).written
  first_store d = elim (latch_access-cases (law.view d)) [
    | inl e ↦ ap (λ (view : View). view.written) (law.store_interrupt 0 d e)
    | inr e ↦ ap (λ (view : View). view.written) (law.store_latch_high 0 d e)
  ]
    where
      latch_access-cases : (view : View) → (latch_access view ≡ 0) ⊎ (latch_access view ≡ 1)
      latch_access-cases view = omega arith

  -- A store whose law asks for the state of the latch, where the registers are known.
  stored :
      (d d' : D) (view : View) (f : View → View) (k : ℕ)
      → (latch_access (law.view d) ≡ k → law.view d' ≡ f (law.view d))
      → latch_access view ≡ k
      → law.view d ≡ view
      → law.view d' ≡ f view
  stored d d' view f k store latch e = store (ap latch_access e ∙ latch) ∙ ap f e

  -- From any state, `init` leaves 8 bits to a byte, the divisor 3, the queues on and both interrupts
  -- enabled, with the divisor latch closed, and stores no byte to the transmitter.
  pub init-view :
      (d : D)
      → law.view (init chip d) ≡ record {
        line_control = 3;
        interrupt_enable = 3;
        fifo_control = 7;
        latch_low = 3;
        latch_high = 0;
        written = (law.view d).written;
      }
  unfolding init
  init-view d =
      let d₁ : D = chip.store (uart_base + 1) 0 d in
      let d₂ : D = chip.store (uart_base + 3) (2 ^ 7) d₁ in
      let d₃ : D = chip.store uart_base 3 d₂ in
      let d₄ : D = chip.store (uart_base + 1) 0 d₃ in
      let d₅ : D = chip.store (uart_base + 3) 3 d₄ in
      let d₆ : D = chip.store (uart_base + 2) 7 d₅ in
      let e₂ = law.store_line (2 ^ 7) d₁ in
      let e₃ =
        stored d₂ d₃ _ (λ view. record view { latch_low = 3 }) 1 (law.store_latch_low 3 d₂) refl
          e₂ in
      let e₄ =
        stored d₃ d₄ _ (λ view. record view { latch_high = 0 }) 1 (law.store_latch_high 0 d₃) refl
          e₃ in
      let e₅ = law.store_line 3 d₄ ∙ ap (λ (view : View). record view { line_control = 3 }) e₄ in
      let e₆ = law.store_fifo 7 d₅ ∙ ap (λ (view : View). record view { fifo_control = 7 }) e₅ in
      stored d₆ (chip.store (uart_base + 1) 3 d₆) _ (λ view. record view { interrupt_enable = 3 }) 0
        (law.store_interrupt 3 d₆) refl e₆
      ∙ ap
          (λ (out : List ℕ). record {
            line_control = 3;
            interrupt_enable = 3;
            fifo_control = 7;
            latch_low = 3;
            latch_high = 0;
            written = out;
          })
          (first_store d)

  -- The bytes of a text are stored to the transmitter in order, and no register changes. The
  -- divisor latch is closed.
  pub write_str-view :
      (out : List ℕ) (d : D)
      → latch_access (law.view d) ≡ 0
      → law.view (write_str chip port out d).1 ≡ sent (law.view d) out
  unfolding write_str put_bytes put
  write_str-view [] d latch = sym (sent-nil (law.view d))
  write_str-view (c ∷ out) d latch =
      let e = law.store_data c d latch in
      write_str-view out (chip.store uart_base c d) (ap latch_access e ∙ latch)
      ∙ ap (λ (view : View). sent view out) e
      ∙ sent-append (law.view d) (c ∷ []) out

  -- `get` gives the bytes that the chip has received, one at a time in their order, and `None` where
  -- there is none; no register changes. The divisor latch is closed.
  pub get-received :
      (d : D)
      → latch_access (law.view d) ≡ 0
      → ((get chip port d).0 ≡ first (law.received d))
        × (law.received (get chip port d).1 ≡ rest (law.received d))
        × (law.view (get chip port d).1 ≡ law.view d)
  unfolding get
  get-received d latch = elim (received-cases (law.received d)) [
    | inl e ↦
        (let (clear, none_left, kept) = law.load_empty d e in rw (clear, e) (refl, none_left, kept))
    | inr (c, cs, e) ↦
        (let (set, waiting, same) = law.load_ready d c cs e in
          let d₁ : D = (chip.load (uart_base + 5) d).1 in
          let (byte, left, kept) = law.load_data d₁ c cs (ap latch_access same ∙ latch) waiting in
          rw (set, e) (ap some byte, left, kept ∙ same))
  ]
