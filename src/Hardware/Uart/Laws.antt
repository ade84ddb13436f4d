-- ===== src/Hardware/Uart/Laws.antt =====
-- The characters that reach the serial line.
use sth.Base.{
  ℕ, zero, suc, ◌≤◌, ◌<◌, ◌≡◌, ◌≢◌, refl, arith, bit_and, Bool, true, false, not, ◌==◌,
  if◌then◌else◌, some, List, [], ◌∷◌, ◌++◌, ◌∙◌, ap, Bool-cases, inl, inr, ne→==,
}
use sth.Hardware.{Bus}
use sth.Hardware.Uart.{
  lcr, lsr, operate, stdio_can_write, wait_to_write, stdio_write_char, uart_lcr_div_en,
  uart_lsr_tx_fifo_e, uart_op_flags,
}

-- What the manual of the device says: the divisor is selected by a bit of the line control; the
-- status shows after at most `bound` reads that the buffer is empty, and then a character written
-- while the divisor is not selected is sent.
pub record IsLine {D : Type 0} (bus : Bus D) (uart bound : ℕ) (sent : D → List ℕ)
    (divisor ready : D → Bool) (busy : D → ℕ) : Type 0 where
  pub control_read : (d : D) → (bus.read (lcr uart) d).1 ≡ d
  pub control_bit :
      (d : D) → (bit_and (bus.read (lcr uart) d).0 uart_lcr_div_en == 0) ≡ not (divisor d)
  pub control_sent : (w : ℕ) (d : D) → sent (bus.write (lcr uart) w d) ≡ sent d
  pub control_divisor :
      (w : ℕ) (d : D) → divisor (bus.write (lcr uart) w d) ≡ not (bit_and w uart_lcr_div_en == 0)
  pub control_busy : (w : ℕ) (d : D) → busy (bus.write (lcr uart) w d) ≡ busy d
  pub status_sent : (d : D) → sent (bus.read (lsr uart) d).1 ≡ sent d
  pub status_divisor : (d : D) → divisor (bus.read (lsr uart) d).1 ≡ divisor d
  pub status_ready :
      (d : D)
      → (bit_and (bus.read (lsr uart) d).0 uart_lsr_tx_fifo_e == 0) ≡ false
      → ready (bus.read (lsr uart) d).1 ≡ true
  pub status_empty :
      (d : D) → busy d ≡ 0 → (bit_and (bus.read (lsr uart) d).0 uart_lsr_tx_fifo_e == 0) ≡ false
  pub status_busy : (k : ℕ) (d : D) → busy d ≡ suc k → busy (bus.read (lsr uart) d).1 ≡ k
  pub drains : (d : D) → busy d ≤ bound
  pub written :
      (c : ℕ) (d : D)
      → divisor d ≡ false
      → ready d ≡ true
      → sent (bus.write uart c d) ≡ sent d ++ c ∷ []

module _ {D : Type 0} (bus : Bus D) (uart bound : ℕ) (sent : D → List ℕ) (divisor ready : D → Bool)
    (busy : D → ℕ) (hw : IsLine bus uart bound sent divisor ready busy) where
  operate-divisor :
      (d : D)
      → (d' : D) × (operate bus uart d ≡ some (tt, d'))
        × (divisor d' ≡ false)
        × (sent d' ≡ sent d)
        × (busy d' ≡ busy d)
  unfolding operate
  operate-divisor d = elim (Bool-cases (divisor d)) [
    | inl on ↦
        let bit : (bit_and (bus.read (lcr uart) d).0 uart_lcr_div_en == 0) ≡ false =
          hw.control_bit d ∙ ap not on in
        (
          bus.write (lcr uart) uart_op_flags d,
          rw (hw.control_read d, bit) refl,
          hw.control_divisor uart_op_flags d,
          hw.control_sent uart_op_flags d,
          hw.control_busy uart_op_flags d,
        )
    | inr off ↦
        let bit : (bit_and (bus.read (lcr uart) d).0 uart_lcr_div_en == 0) ≡ true =
          hw.control_bit d ∙ ap not off in
        (d, rw (hw.control_read d, bit) refl, off, refl, refl)
  ]

  -- The loop ends, with room for a character and nothing sent.
  wait_to_write-ready :
      (fuel : ℕ) (d : D)
      → (uart == 0) ≡ false
      → busy d < fuel
      → (d' : D) × (wait_to_write bus fuel uart d ≡ some (tt, d'))
        × (divisor d' ≡ false)
        × (ready d' ≡ true)
        × (sent d' ≡ sent d)
  unfolding wait_to_write stdio_can_write
  wait_to_write-ready zero d given h = absurd (omega arith)
  wait_to_write-ready (suc fuel) d given h =
      let (d1, run, off, same, still) = operate-divisor d in
      let d2 = (bus.read (lsr uart) d1).1 in
      elim (Bool-cases (bit_and (bus.read (lsr uart) d1).0 uart_lsr_tx_fifo_e == 0)) [
        | inl full ↦
            let (d', later, off', free, same') =
              wait_to_write-ready fuel d2 given
                (less (busy d1) d1 refl full (omega (arith, still))) in
            (d', rw (given, run, full) later, off', free, same' ∙ hw.status_sent d1 ∙ same)
        | inr empty ↦ (
          d2,
          rw (given, run, empty) refl,
          hw.status_divisor d1 ∙ off,
          hw.status_ready d1 empty,
          hw.status_sent d1 ∙ same,
        )
      ]
    where
      less :
          (n : ℕ) (d1 : D)
          → busy d1 ≡ n
          → (bit_and (bus.read (lsr uart) d1).0 uart_lsr_tx_fifo_e == 0) ≡ true
          → n < suc fuel
          → busy (bus.read (lsr uart) d1).1 < fuel
      less zero d1 e full lt = absurd (ground (arith, hw.status_empty d1 e, full))
      less (suc n) d1 e full lt = omega (arith, hw.status_busy n d1 e)

append_two : (xs : List ℕ) (a b : ℕ) → (xs ++ a ∷ []) ++ b ∷ [] ≡ xs ++ a ∷ b ∷ []
append_two [] a b = refl
append_two (x ∷ xs) a b = ap (λ zs. x ∷ zs) (append_two xs a b)

-- On a line as its manual says, whose buffer empties within the rounds of the loop, stdio_write_char
-- returns, and the character has been sent, followed by a carriage return if it is a line feed.
pub stdio_write_char-sends :
    (D : Type 0) (bus : Bus D) (uart bound : ℕ) (sent : D → List ℕ) (divisor ready : D → Bool)
    (busy : D → ℕ) (fuel c : ℕ) (d : D)
    → IsLine bus uart bound sent divisor ready busy
    → uart ≢ 0
    → bound < fuel
    → (d' : D) × (stdio_write_char bus fuel uart c d ≡ some (tt, d'))
      × (sent d' ≡ sent d ++ (if c == 10 then c ∷ 13 ∷ [] else c ∷ []))
unfolding stdio_write_char
stdio_write_char-sends D bus uart bound sent divisor ready busy fuel c d hw given room =
    let there : (uart == 0) ≡ false = ne→== uart 0 given in
    let (d1, wait, off, free, same) =
      wait_to_write-ready bus uart bound sent divisor ready busy hw fuel d there
        (omega (arith, hw.drains d)) in
    let d2 = bus.write uart c d1 in
    let first = hw.written c d1 off free ∙ ap (λ zs. zs ++ c ∷ []) same in
    elim (Bool-cases (c == 10)) [
      | inl feed ↦
          let (d3, wait', off', free', same') =
            wait_to_write-ready bus uart bound sent divisor ready busy hw fuel d2 there
              (omega (arith, hw.drains d2)) in
          (
            bus.write uart 13 d3,
            rw (there, wait, feed, wait') refl,
            rw feed (
                hw.written 13 d3 off' free'
                ∙ ap (λ zs. zs ++ 13 ∷ []) (same' ∙ first)
                ∙ append_two (sent d) c 13),
          )
      | inr other ↦ (d2, rw (there, wait, other) refl, rw other first)
    ]
