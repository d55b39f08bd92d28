-- ===== src/Uart.antt =====
-- The driver of the serial port, src/device/uart.rs. The chip is a parameter: what a load and a store
-- of a byte at an address do to it. `Is16550` says what the driver relies on in it, by its manual.
pub mod Line
pub mod Plain
mod Tests
use Prim.Native.Nat.{bit_and, bit_or}
use reedos.Common.{
  ℕ, ◌+◌, ◌*◌, ◌/◌, ◌%◌, ◌^◌, ◌≡◌, List, [], ◌∷◌, ◌++◌, Option, none, some, Result, ok, ◌==◌,
  if◌then◌else◌,
}
use reedos.Mutex.{Mutex}
use reedos.Mutex
use reedos.Ptable.{uart_base}

abbrev pub ier : ℕ
ier = 1

abbrev pub lcr : ℕ
lcr = 3

abbrev pub fcr : ℕ
fcr = 2

-- `read_volatile` and `write_volatile` at `*mut u8`
pub record Chip (D : Type 0) : Type 0 where
  pub load : ℕ → D → ℕ × D
  pub store : ℕ → ℕ → D → D

pub record Uart : Type 0 where
  pub base_address : ℕ

unfoldable pub new : Mutex Uart
new = Mutex.new (record { base_address = uart_base })

module _ {D : Type 0} (chip : Chip D) where
  unfoldable pub init : D → D
  init chip₀ =
      let ptr : ℕ = uart_base in
      let chip₁ = chip.store (ptr + ier) 0 chip₀ in
      let chip₂ = chip.store (ptr + lcr) (2 ^ 7) chip₁ in
      let chip₃ = chip.store (ptr + 0) 0x03 chip₂ in
      let chip₄ = chip.store (ptr + 1) 0x00 chip₃ in
      let chip₅ = chip.store (ptr + lcr) 3 chip₄ in
      let chip₆ = chip.store (ptr + fcr) (bit_or 1 (3 * 2)) chip₅ in
      chip.store (ptr + ier) (bit_or 2 1) chip₆

  unfoldable pub put : Uart → ℕ → D → D
  put uart c device = chip.store (uart.base_address + 0) c device

  unfoldable pub get : Uart → D → Option ℕ × D
  get uart device =
      let (status, device') = chip.load (uart.base_address + 5) device in
      if bit_and status 1 == 0
      then (none, device')
      else (let (c, device'') = chip.load (uart.base_address + 0) device' in (some c, device''))

  -- The loop of `write_str`
  unfoldable pub put_bytes : Uart → List ℕ → D → D
  put_bytes uart [] device = device
  put_bytes uart (c ∷ out) device = put_bytes uart out (put uart c device)

  unfoldable pub write_str : Uart → List ℕ → D → Result (Unit {0}) (Unit {0}) × D
  unfolding put_bytes
  write_str uart out device = (ok tt, put_bytes uart out device)

-- The registers of the chip, and the bytes that were stored to its transmitter holding register, one
-- after another. The driver does not ask the chip whether the transmitter has room, and a chip may lose a
-- byte that is stored without room: `written` is what the driver stores, and not what the line carries.
pub record View : Type 0 where
  pub line_control : ℕ
  pub interrupt_enable : ℕ
  pub fifo_control : ℕ
  pub latch_low : ℕ
  pub latch_high : ℕ
  pub written : List ℕ

-- The bit of the line control register that puts the divisor latch at the first two addresses.
abbrev pub latch_access : View → ℕ
latch_access view = view.line_control / 2 ^ 7 % 2

pub record Is16550 {D : Type 0} (chip : Chip D) : Type 0 where
  pub view : D → View
  pub received : D → List ℕ
  pub store_line :
      (v : ℕ) (d : D) → view (chip.store (uart_base + 3) v d) ≡ record (view d) { line_control = v }
  pub store_fifo :
      (v : ℕ) (d : D) → view (chip.store (uart_base + 2) v d) ≡ record (view d) { fifo_control = v }
  pub store_latch_low :
      (v : ℕ) (d : D)
      → latch_access (view d) ≡ 1
      → view (chip.store uart_base v d) ≡ record (view d) { latch_low = v }
  pub store_latch_high :
      (v : ℕ) (d : D)
      → latch_access (view d) ≡ 1
      → view (chip.store (uart_base + 1) v d) ≡ record (view d) { latch_high = v }
  pub store_interrupt :
      (v : ℕ) (d : D)
      → latch_access (view d) ≡ 0
      → view (chip.store (uart_base + 1) v d) ≡ record (view d) { interrupt_enable = v }
  pub store_data :
      (v : ℕ) (d : D)
      → latch_access (view d) ≡ 0
      → view (chip.store uart_base v d) ≡ record (view d) { written = (view d).written ++ v ∷ [] }
  -- The line status has its lowest bit where a byte is there. Loading it may clear its error bits, and
  -- changes neither the received bytes nor the other registers.
  pub load_empty :
      (d : D)
      → received d ≡ []
      → (bit_and (chip.load (uart_base + 5) d).0 1 ≡ 0)
        × (received (chip.load (uart_base + 5) d).1 ≡ [])
        × (view (chip.load (uart_base + 5) d).1 ≡ view d)
  pub load_ready :
      (d : D) (c : ℕ) (rest : List ℕ)
      → received d ≡ c ∷ rest
      → (bit_and (chip.load (uart_base + 5) d).0 1 ≡ 1)
        × (received (chip.load (uart_base + 5) d).1 ≡ c ∷ rest)
        × (view (chip.load (uart_base + 5) d).1 ≡ view d)
  pub load_data :
      (d : D) (c : ℕ) (rest : List ℕ)
      → latch_access (view d) ≡ 0
      → received d ≡ c ∷ rest
      → ((chip.load uart_base d).0 ≡ c)
        × (received (chip.load uart_base d).1 ≡ rest)
        × (view (chip.load uart_base d).1 ≡ view d)
