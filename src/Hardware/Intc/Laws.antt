-- ===== src/Hardware/Intc/Laws.antt =====
-- Which interrupt sources the driver masks.
use sth.Base.{
  ℕ, zero, suc, ◌+◌, ◌/◌, ◌%◌, ◌^◌, ◌≤◌, ◌<◌, ◌≡◌, ◌≢◌, refl, arith, bit_and, bit_or, Bool, true,
  false, ◌==◌, if◌then◌else◌, not32, update, some, ◌∙◌, ap, bit_at, or-power, and-power, Bool-cases,
  inl, inr, ne→==,
}
use sth.Hardware.{continue, Bus, ◌>>◌, pure, store, io_va_address}
use sth.Hardware.Intc.{
  Intc, Functions, sysconfig, sysstatus, control, mir, mir_clear, mir_set, cpu_irq_set_handler,
  cpu_irq_set_enable, wait_for_reset, turn_off, soc_interrupt_init, intc_base, is_invalid,
}

-- What the manual of the controller says: the mask register of a section can be read and written,
-- writing the registers beside it clears or sets the bits of the mask that are written as ones, and a
-- reset, which has been asked for, is done after some reads of the status.
pub record IsController {D : Type 0} (bus : Bus D) (intc : ℕ) (masks : D → ℕ → ℕ) (busy : D → ℕ)
    : Type 0 where
  pub read_mir : (s : ℕ) (d : D) → s < 3 → bus.read (mir intc s) d ≡ (masks d s, d)
  pub write_mir :
      (s w t : ℕ) (d : D)
      → s < 3
      → masks (bus.write (mir intc s) w d) t ≡ (if t == s then w else masks d t)
  pub write_clear :
      (s w t : ℕ) (d : D)
      → s < 3
      → masks (bus.write (mir_clear intc s) w d) t
        ≡ (if t == s then bit_and (masks d t) (not32 w) else masks d t)
  pub write_set :
      (s w t : ℕ) (d : D)
      → s < 3
      → masks (bus.write (mir_set intc s) w d) t
        ≡ (if t == s then bit_or (masks d t) w else masks d t)
  pub write_control : (w t : ℕ) (d : D) → masks (bus.write (control intc) w d) t ≡ masks d t
  pub done : (d : D) → busy d ≡ 0 → bit_and (bus.read (sysstatus intc) d).0 1 ≡ 1
  pub waits : (k : ℕ) (d : D) → busy d ≡ suc k → busy (bus.read (sysstatus intc) d).1 ≡ k

-- Whether a source is masked.
abbrev pub masked : (ℕ → ℕ) → (n : ℕ) → ℕ
masked words n = bit_at (words (n / 32)) (n % 32)

same_source : (n m : ℕ) → ((m / 32 == n / 32) ≡ true) → (m % 32 == n % 32) ≡ (m == n)
same_source n m h = elim (Bool-cases (m == n)) [
  | inl same ↦ rw (same) (ground arith)
  | inr other ↦ rw (other) (ne→== (m % 32) (n % 32) (λ e. ground (arith, e, other, h)))
]

-- A value for source `n`, by the bit of its word.
pub same_bit :
    (n m v : ℕ) (old : ℕ → ℕ) (new : ℕ)
    → bit_at new (m % 32) ≡ (if m % 32 == n % 32 then v else bit_at (old (n / 32)) (m % 32))
    → bit_at (if m / 32 == n / 32 then new else old (m / 32)) (m % 32)
      ≡ (if m == n then v else masked old m)
same_bit n m v old new e = elim (Bool-cases (m / 32 == n / 32)) [
  | inl here ↦
      let word : n / 32 ≡ m / 32 = ground (arith, here) in
      rw here (
        e
        ∙ ap (λ k. if m % 32 == n % 32 then v else bit_at (old k) (m % 32)) word
        ∙ ap (λ t. if t then v else masked old m) (same_source n m here))
  | inr there ↦ rw (there, ne→== m n (λ same. ground (arith, there, ap (λ k. k / 32) same))) refl
]

again : (q : Bool) (v x : ℕ) → (if q then v else (if q then v else x)) ≡ (if q then v else x)
again true v x = refl
again false v x = refl

-- What the two writes for a section make of a word.
both_writes :
    (q : Bool) (f : ℕ → ℕ) (word old : ℕ)
    → (if q then f (if q then word else old) else (if q then word else old))
      ≡ (if q then f word else old)
both_writes true f word old = refl
both_writes false f word old = refl

module _ {D : Type 0} (bus : Bus D) (masks : D → ℕ → ℕ) (busy : D → ℕ) (c : Intc) where
  -- Enabling a source, or disabling it, changes the mask of no other one.
  pub cpu_irq_set_enable-masks :
      (n : ℕ) (enable : Bool) (d : D)
      → IsController bus c.intc masks busy
      → n < 96
      → (d' : D) × (cpu_irq_set_enable bus c n enable d ≡ some (tt, d'))
        × ((m : ℕ)
            → masked (masks d') m
              ≡ (if m == n then (if enable then 0 else 1) else masked (masks d) m))
  unfolding cpu_irq_set_enable
  cpu_irq_set_enable-masks n true d hw h =
      let valid : is_invalid n ≡ false = ground arith in
      let s = n / 32 in
      let word = bit_and (masks d s) (not32 (2 ^ (n % 32))) in
      let d1 = bus.write (mir c.intc s) word d in
      (
        bus.write (mir_clear c.intc s) (2 ^ (n % 32)) d1,
        rw (valid, hw.read_mir s d (omega arith)) refl,
        λ m.
            ap (λ w. bit_at w (m % 32))
              (hw.write_clear s (2 ^ (n % 32)) (m / 32) d1 (omega arith)
                ∙ ap (λ w. if m / 32 == s then bit_and w (not32 (2 ^ (n % 32))) else w)
                    (hw.write_mir s word (m / 32) d (omega arith))
                ∙ both_writes (m / 32 == s) (λ w. bit_and w (not32 (2 ^ (n % 32)))) word
                    (masks d (m / 32)))
            ∙ same_bit n m 0 (masks d) (bit_and word (not32 (2 ^ (n % 32))))
                (cleared (masks d s) m),
      )
    where
      cleared :
          (w m : ℕ)
          → bit_at (bit_and (bit_and w (not32 (2 ^ (n % 32)))) (not32 (2 ^ (n % 32)))) (m % 32)
            ≡ (if m % 32 == n % 32 then 0 else bit_at w (m % 32))
      cleared w m =
          and-power (bit_and w (not32 (2 ^ (n % 32)))) (n % 32) (m % 32) (omega arith) (omega arith)
          ∙ ap (λ b. if m % 32 == n % 32 then 0 else b)
              (and-power w (n % 32) (m % 32) (omega arith) (omega arith))
          ∙ again (m % 32 == n % 32) 0 (bit_at w (m % 32))
  cpu_irq_set_enable-masks n false d hw h =
      let valid : is_invalid n ≡ false = ground arith in
      let s = n / 32 in
      let word = bit_or (masks d s) (2 ^ (n % 32)) in
      let d1 = bus.write (mir c.intc s) word d in
      (
        bus.write (mir_set c.intc s) (2 ^ (n % 32)) d1,
        rw (valid, hw.read_mir s d (omega arith)) refl,
        λ m.
            ap (λ w. bit_at w (m % 32))
              (hw.write_set s (2 ^ (n % 32)) (m / 32) d1 (omega arith)
                ∙ ap (λ w. if m / 32 == s then bit_or w (2 ^ (n % 32)) else w)
                    (hw.write_mir s word (m / 32) d (omega arith))
                ∙ both_writes (m / 32 == s) (λ w. bit_or w (2 ^ (n % 32))) word (masks d (m / 32)))
            ∙ same_bit n m 1 (masks d) (bit_or word (2 ^ (n % 32))) (raised (masks d s) m),
      )
    where
      raised :
          (w m : ℕ)
          → bit_at (bit_or (bit_or w (2 ^ (n % 32))) (2 ^ (n % 32))) (m % 32)
            ≡ (if m % 32 == n % 32 then 1 else bit_at w (m % 32))
      raised w m =
          or-power (bit_or w (2 ^ (n % 32))) (n % 32) (m % 32)
          ∙ ap (λ b. if m % 32 == n % 32 then 1 else b) (or-power w (n % 32) (m % 32))
          ∙ again (m % 32 == n % 32) 1 (bit_at w (m % 32))

  pub wait_for_reset-done :
      (fuel : ℕ) (d : D)
      → IsController bus c.intc masks busy
      → busy d < fuel
      → (d' : D) × (wait_for_reset bus fuel c.intc d ≡ some (tt, d'))
  unfolding wait_for_reset
  wait_for_reset-done zero d hw h = absurd (omega arith)
  wait_for_reset-done (suc fuel) d hw h =
      elim (Bool-cases (bit_and (bus.read (sysstatus c.intc) d).0 1 == 0)) [
        | inl still ↦
            let (d', run) =
              wait_for_reset-done fuel (bus.read (sysstatus c.intc) d).1 hw
                (less (busy d) refl still) in
            (d', rw still run)
        | inr ready ↦ ((bus.read (sysstatus c.intc) d).1, rw ready refl)
      ]
    where
      less :
          (n : ℕ)
          → busy d ≡ n
          → (bit_and (bus.read (sysstatus c.intc) d).0 1 == 0) ≡ true
          → busy (bus.read (sysstatus c.intc) d).1 < fuel
      less zero e still = absurd (ground (arith, hw.done d e, still))
      less (suc n) e still = omega (arith, hw.waits n d e)

  pub turn_off-masks :
      (f : Functions) (count i : ℕ) (table : ℕ → ℕ) (d : D)
      → IsController bus c.intc masks busy
      → count + i ≡ 96
      → f.default_handler ≢ 0
      → (d' : D) × (table' : ℕ → ℕ) × (turn_off bus f count i
            (record c { irq_function_table = table })
            d
          ≡ some (record c { irq_function_table = table' }, d'))
        × ((m : ℕ) → i ≤ m → m < 96 → masked (masks d') m ≡ 1)
        × ((m : ℕ) → i ≤ m → m < 96 → table' m ≡ f.default_handler)
        × ((m : ℕ) → m < i → table' m ≡ table m)
        × ((m : ℕ) → 96 ≤ m → table' m ≡ table m)
        × ((m : ℕ) → m < i → masked (masks d') m ≡ masked (masks d) m)
  unfolding turn_off cpu_irq_set_handler cpu_irq_set_enable
  turn_off-masks f zero i table d hw e given = (
    d,
    table,
    refl,
    (λ m lo hi. absurd (omega arith)),
    (λ m lo hi. absurd (omega arith)),
    (λ m lt. refl),
    (λ m le. refl),
    λ m lt. refl,
  )
  turn_off-masks f (suc count) i table d hw e given =
      let (d1, run, masks1) = cpu_irq_set_enable-masks i false d hw (omega arith) in
      let valid : is_invalid i ≡ false = ground arith in
      let callback : (f.default_handler == 0) ≡ false = ne→== f.default_handler 0 given in
      let table1 = update table i f.default_handler in
      let (d', table', later, m1, t1, t2, t3, m2) =
        turn_off-masks f count (i + 1) table1 d1 hw (omega arith) given in
      (
        d',
        table',
        rw (run, valid, callback) later,
        λ m lo hi. elim (Bool-cases (m == i)) [
          | inl here ↦
              let first : masked (masks d1) m ≡ 1 = masks1 m ∙ rw here refl in
              m2 m (ground (arith, here)) ∙ first
          | inr there ↦ m1 m (ground (arith, there)) hi
        ],
        λ m lo hi. elim (Bool-cases (m == i)) [
          | inl here ↦ t2 m (ground (arith, here)) ∙ rw here refl
          | inr there ↦ t1 m (ground (arith, there)) hi
        ],
        λ m lt. t2 m (omega arith) ∙ rw (ne→== m i (omega arith)) refl,
        λ m le. t3 m le ∙ rw (ne→== m i (omega arith)) refl,
        λ m lt. m2 m (omega arith) ∙ masks1 m ∙ rw (ne→== m i (omega arith)) refl,
      )

-- With a controller as its manual says, that ends its reset within the rounds of the loop, and a
-- default handler that is not null, soc_interrupt_init returns; source 0x4a is enabled and each
-- other one of the 96 is masked. The callback of each source is the default one, and
-- interrupt_handler is that of the hypervisor.
pub soc_interrupt_init-masks :
    (D : Type 0) (bus : Bus D) (masks : D → ℕ → ℕ) (busy : D → ℕ) (fuel : ℕ) (f : Functions)
    (c : Intc) (d : D)
    → IsController bus (io_va_address intc_base) masks busy
    → busy (bus.write (sysconfig (io_va_address intc_base)) 2 d) < fuel
    → f.default_handler ≢ 0
    → (d' : D) × (c' : Intc) × (soc_interrupt_init bus fuel f c d ≡ some (c', d'))
      × ((m : ℕ) → m < 96 → masked (masks d') m ≡ (if m == 0x4a then 0 else 1))
      × ((m : ℕ) → m < 96 → c'.irq_function_table m ≡ f.default_handler)
      × (c'.interrupt_handler ≡ f.irq_handler)
unfolding soc_interrupt_init
soc_interrupt_init-masks D bus masks busy fuel f c d hw h given =
    let base = io_va_address intc_base in
    let c1 : Intc = record c { interrupt_handler = f.irq_handler; intc = base } in
    let (d1, reset) =
      wait_for_reset-done bus masks busy c1 fuel (bus.write (sysconfig base) 2 d) hw h in
    let (d2, table, off, m2, t2, t3, t4, m3) =
      turn_off-masks bus masks busy c1 f 96 0 c.irq_function_table d1 hw (omega arith) given in
    let ready : Intc = record c1 { irq_function_table = table } in
    let (d3, on, m4) =
      cpu_irq_set_enable-masks bus masks busy ready 0x4a true d2 hw (omega arith) in
    let finish =
      λ (r : Intc). cpu_irq_set_enable bus r 0x4a true >> (store bus (control base) 1 >> pure r) in
    (
      bus.write (control base) 1 d3,
      ready,
      rw reset (
          ap (λ o. continue o finish) off
          ∙ ap (λ o. continue o (λ _. (store bus (control base) 1 >> pure ready))) on),
      λ m hi.
          ap (λ w. bit_at w (m % 32)) (hw.write_control 1 (m / 32) d3)
          ∙ m4 m
          ∙ ap (λ b. if m == 0x4a then 0 else b) (m2 m (omega arith) hi),
      λ m hi. t2 m (omega arith) hi,
      refl,
    )
