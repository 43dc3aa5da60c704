-- ===== src/PcieCan/Messages.antt =====
-- The bytes that `can_send` of hardware/pcie_sysfs_can.c puts into the registers, and those that
-- `can_recv` takes out of them.
use code_snippet.Prelude.{
  ℕ, zero, suc, ◌+◌, ◌*◌, ◌^◌, ◌%◌, ◌≡◌, ◌<◌, ◌/◌, ap, ap₂, ◌∙◌, refl, some, List, [], ◌∷◌,
  replicate, lt→ltb, arith,
}
use code_snippet.PcieCan

abbrev pub word : (b0 b1 b2 b3 : ℕ) → ℕ
word b0 b1 b2 b3 = b0 + b1 * 2 ^ 8 + b2 * 2 ^ 16 + b3 * 2 ^ 24

abbrev pub AreBytes : (b0 b1 b2 b3 : ℕ) → Type 0
AreBytes b0 b1 b2 b3 = (b0 < 256) × (b1 < 256) × (b2 < 256) × (b3 < 128)

bytes_of-word :
    (b0 b1 b2 b3 : ℕ) (rest : List ℕ)
    → AreBytes b0 b1 b2 b3
    → PcieCan.bytes_of (word b0 b1 b2 b3) rest ≡ b0 ∷ b1 ∷ b2 ∷ b3 ∷ rest
unfolding PcieCan.bytes_of
bytes_of-word b0 b1 b2 b3 rest (h0, h1, h2, h3) =
    let e0 : word b0 b1 b2 b3 % 256 ≡ b0 = omega (arith, h0, h1, h2, h3) in
    let e1 : word b0 b1 b2 b3 / 2 ^ 8 % 256 ≡ b1 = omega (arith, h0, h1, h2, h3) in
    let e2 : word b0 b1 b2 b3 / 2 ^ 16 % 256 ≡ b2 = omega (arith, h0, h1, h2, h3) in
    let e3 : word b0 b1 b2 b3 / 2 ^ 24 % 256 ≡ b3 = omega (arith, h0, h1, h2, h3) in
    ap₂ (λ x l. x ∷ l) e0
      (ap₂ (λ x l. x ∷ l) e1 (ap₂ (λ x l. x ∷ l) e2 (ap₂ (λ x l. x ∷ l) e3 refl)))

module _ (api : PcieCan.BarApi) where
  open api use {State, read, write, sleep}

  abbrev pub asleep : ℕ → State → State
  asleep zero s = s
  asleep (suc k) s = asleep k (sleep s)

  -- The registers for reception hold these words through the next `rounds` sleeps.
  abbrev pub IsDelivered : ℕ → ℕ → ℕ → State → Type 0
  IsDelivered w1 w2 rounds s =
      (k : ℕ)
      → k < rounds
      → (read PcieCan.recv_reg1 (asleep (suc k) s) ≡ w1)
        × (read PcieCan.recv_reg2 (asleep (suc k) s) ≡ w2)

  recv_rounds-replicate :
      (rounds w1 w2 : ℕ) (s : State)
      → IsDelivered w1 w2 rounds s
      → (PcieCan.recv_rounds api rounds s).0
        ≡ replicate rounds (PcieCan.bytes_of w1 (PcieCan.bytes_of w2 []))
  unfolding PcieCan.recv_rounds
  recv_rounds-replicate zero w1 w2 s h = refl
  recv_rounds-replicate (suc rounds) w1 w2 s h =
      let (first, second) = h 0 (omega arith) in
      ap₂ (λ x l. x ∷ l) (ap₂ (λ v w. PcieCan.bytes_of v (PcieCan.bytes_of w [])) first second)
        (recv_rounds-replicate rounds w1 w2 (sleep s) (λ k below. h (suc k) (omega (arith, below))))

  abbrev pub started : ℕ → State → State
  started id s = write PcieCan.ctl_reg (PcieCan.can_ctl_send * 2 ^ 12 + id % 2 ^ 12) s

  abbrev pub stopped : State → State
  stopped s =
      write PcieCan.ctl_reg (PcieCan.can_ctl_stop * 2 ^ 12 + read PcieCan.ctl_reg s % 2 ^ 12) s

  abbrev pub receiving : ℕ → State → State
  receiving id s = write PcieCan.ctl_reg (PcieCan.can_ctl_recv * 2 ^ 12 + id % 2 ^ 12) s

  -- For eight bytes of which the fourth and the eighth are below 128, the sender is defined: it
  -- writes two words, then the command to send with the number, and then the stop. Where these two
  -- words are in the registers for reception through all nine sleeps of a receiver, each of its rounds
  -- reads the eight bytes.
  pub can_recv-can_send :
      (id b0 b1 b2 b3 b4 b5 b6 b7 : ℕ) (s s' : State)
      → AreBytes b0 b1 b2 b3
      → AreBytes b4 b5 b6 b7
      → IsDelivered (word b0 b1 b2 b3) (word b4 b5 b6 b7) 9 (receiving id s')
      → (PcieCan.can_send api id (b0 ∷ b1 ∷ b2 ∷ b3 ∷ b4 ∷ b5 ∷ b6 ∷ b7 ∷ []) s
          ≡ some (
              stopped (
                started id (
                  write PcieCan.send_reg2
                    (word b4 b5 b6 b7)
                    (write PcieCan.send_reg1 (word b0 b1 b2 b3) s)))))
        × ((PcieCan.can_recv api id s').0
            ≡ replicate 9 (b0 ∷ b1 ∷ b2 ∷ b3 ∷ b4 ∷ b5 ∷ b6 ∷ b7 ∷ []))
  unfolding PcieCan.can_send PcieCan.can_recv
  can_recv-can_send id b0 b1 b2 b3 b4 b5 b6 b7 s s' h k delivered = (
    (let (_, _, _, low) = h in
        let (_, _, _, high) = k in rw (lt→ltb b3 128 low, lt→ltb b7 128 high) refl),
    recv_rounds-replicate 9 (word b0 b1 b2 b3) (word b4 b5 b6 b7) (receiving id s') delivered
        ∙ ap (replicate 9) (
            bytes_of-word b0 b1 b2 b3 _ h
            ∙ ap (λ l. b0 ∷ b1 ∷ b2 ∷ b3 ∷ l) (bytes_of-word b4 b5 b6 b7 [] k)),
  )
