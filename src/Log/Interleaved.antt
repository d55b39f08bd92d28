-- ===== src/Log/Interleaved.antt =====
-- `print!` of src/log.rs as steps, and two harts that print at a time: each locks a mutex of its own, so
-- nothing orders their bytes.
use reedos.Common.{ℕ, ◌≡◌, refl, sym, ap, ◌∙◌, true, List, [], ◌∷◌}
use reedos.Mutex.{Mutex, Place, outside, guarded, lock_round, drop}
use reedos.Mutex
use reedos.Uart.{Uart, Chip, View, Is16550, latch_access, put}
use reedos.Uart
use reedos.Ptable.{uart_base}
use reedos.Uart.Line.{sent, sent-nil, sent-append}

-- A hart in `print!`: its mutex, where it stands and the bytes that it has not put.
pub record Printer : Type 0 where
  pub mutex : Mutex Uart
  pub place : Place
  pub todo : List ℕ

abbrev pub printing : List ℕ → Printer
printing out = record { mutex = Uart.new; place = outside; todo = out }

module _ {D : Type 0} (chip : Chip D) where
  pub data PrintStep : Printer → D → Printer → D → Type 0 where
    acquire :
        {p : Printer} {d : D}
        → p.place ≡ outside
        → (lock_round p.mutex).0 ≡ true
        → PrintStep p d (record p { mutex = (lock_round p.mutex).1; place = guarded }) d
    put_byte :
        {p : Printer} {d : D} (c : ℕ) (cs : List ℕ)
        → p.place ≡ guarded
        → p.todo ≡ c ∷ cs
        → PrintStep p d (record p { todo = cs }) (put chip p.mutex.inner c d)
    release :
        {p : Printer} {d : D}
        → p.place ≡ guarded
        → p.todo ≡ []
        → PrintStep p d (record p { mutex = drop p.mutex; place = outside }) d

  -- The steps of two harts in any order, the first one first.
  pub data Prints : Printer → Printer → D → Printer → Printer → D → Type 0 where
    stop : {p q : Printer} {d : D} → Prints p q d p q d
    left :
        {p p' p'' q q'' : Printer} {d d' d'' : D}
        → PrintStep p d p' d'
        → Prints p' q d' p'' q'' d''
        → Prints p q d p'' q'' d''
    right :
        {p p'' q q' q'' : Printer} {d d' d'' : D}
        → PrintStep q d q' d'
        → Prints p q' d' p'' q'' d''
        → Prints p q d p'' q'' d''

pub data Interleaving : List ℕ → List ℕ → List ℕ → Type 0 where
  done : Interleaving [] [] []
  from_left :
      {xs ys zs : List ℕ} (c : ℕ) → Interleaving xs ys zs → Interleaving (c ∷ xs) ys (c ∷ zs)
  from_right :
      {xs ys zs : List ℕ} (c : ℕ) → Interleaving xs ys zs → Interleaving xs (c ∷ ys) (c ∷ zs)

-- Two harts with their locks, and both behind their calls.
abbrev holding : List ℕ → Printer
holding out = record { mutex = (lock_round Uart.new).1; place = guarded; todo = out }

abbrev pub printed : Printer
printed = record { mutex = drop (lock_round Uart.new).1; place = outside; todo = [] }

module _ {D : Type 0} (chip : Chip D) (law : Is16550 chip) where
  follow :
      {xs ys zs : List ℕ} (d : D)
      → Interleaving xs ys zs
      → latch_access (law.view d) ≡ 0
      → (d' : D) × Prints chip (holding xs) (holding ys) d printed printed d'
        × (law.view d' ≡ sent (law.view d) zs)
  unfolding lock_round put Uart.new Mutex.new
  follow d done latch =
      (d, left (release refl refl) (right (release refl refl) stop), sym (sent-nil (law.view d)))
  follow d (from_left {xs = xs} {zs = zs} c i) latch =
      let e = law.store_data c d latch in
      let (d', run, e') = follow (chip.store uart_base c d) i (ap latch_access e ∙ latch) in
      (
        d',
        left (put_byte c xs refl refl) run,
        e' ∙ ap (λ (view : View). sent view zs) e ∙ sent-append (law.view d) (c ∷ []) zs,
      )
  follow d (from_right {ys = ys} {zs = zs} c i) latch =
      let e = law.store_data c d latch in
      let (d', run, e') = follow (chip.store uart_base c d) i (ap latch_access e ∙ latch) in
      (
        d',
        right (put_byte c ys refl refl) run,
        e' ∙ ap (λ (view : View). sent view zs) e ∙ sent-append (law.view d) (c ∷ []) zs,
      )

  -- Two harts that print at a time can store their texts to the transmitter in every interleaving of the
  -- bytes, from the first byte on. The divisor latch is closed.
  pub print-Interleaving :
      (xs ys zs : List ℕ) (d : D)
      → Interleaving xs ys zs
      → latch_access (law.view d) ≡ 0
      → (d' : D) × Prints chip (printing xs) (printing ys) d printed printed d'
        × (law.view d' ≡ sent (law.view d) zs)
  unfolding lock_round Uart.new Mutex.new
  print-Interleaving xs ys zs d i latch =
      let (d', run, e) = follow d i latch in
      (d', left (acquire refl refl) (right (acquire refl refl) run), e)
