-- ===== src/Hardware/Timer/Laws.antt =====
-- What soc_timer_init leaves of the timers.
use sth.Base.{
  ℕ, zero, suc, ◌+◌, ◌≤◌, ◌<◌, ◌≡◌, refl, arith, bit_or, ◌==◌, if◌then◌else◌, some, ◌∙◌, ap,
  Bool-cases, inl, inr, ne→==, bit_at, bit_at-or,
}
use sth.Hardware.{Bus}
use sth.Hardware.Timer.{timer_get, tclr, tisr, raise, init_timers, soc_timer_init}

-- The control registers of the twelve timers are words that can be read and written, and no other
-- access of soc_timer_init changes them.
pub record HasTimers {D : Type 0} (bus : Bus D) (controls : D → ℕ → ℕ) : Type 0 where
  pub version :
      (n : ℕ) (d : D) → 0 < n → n < 13 → controls (bus.read (timer_get n) d).1 ≡ controls d
  pub read_control :
      (n : ℕ) (d : D) → 0 < n → n < 13 → bus.read (tclr (timer_get n)) d ≡ (controls d n, d)
  pub write_control :
      (n w m : ℕ) (d : D)
      → 0 < n
      → n < 13
      → controls (bus.write (tclr (timer_get n)) w d) m ≡ (if m == n then w else controls d m)
  pub read_status :
      (n : ℕ) (d : D) → 0 < n → n < 13 → controls (bus.read (tisr (timer_get n)) d).1 ≡ controls d
  pub write_status :
      (n w : ℕ) (d : D)
      → 0 < n
      → n < 13
      → controls (bus.write (tisr (timer_get n)) w d) ≡ controls d

init_timers-start :
    (D : Type 0) (bus : Bus D) (controls : D → ℕ → ℕ) (count i : ℕ) (d : D)
    → HasTimers bus controls
    → 0 < i
    → count + i ≡ 13
    → (d' : D) × (init_timers bus count i d ≡ some (tt, d'))
      × ((m : ℕ) → i ≤ m → m < 13 → controls d' m ≡ bit_or (controls d m) 0xffff_fffe)
      × ((m : ℕ) → m < i → controls d' m ≡ controls d m)
unfolding init_timers raise
init_timers-start D bus controls zero i d hw p e =
    (d, refl, (λ m lo hi. absurd (omega arith)), λ m lt. refl)
init_timers-start D bus controls (suc count) i d hw p e =
    let d1 = (bus.read (timer_get i) (bus.read (timer_get i) d).1).1 in
    let same1 : controls d1 ≡ controls d =
      hw.version i (bus.read (timer_get i) d).1 p (omega arith) ∙ hw.version i d p (omega arith) in
    let d2 = bus.write (tclr (timer_get i)) (bit_or (controls d1 i) 0xffff_fffe) d1 in
    let d3 = (bus.read (tisr (timer_get i)) d2).1 in
    let d4 = bus.write (tisr (timer_get i)) (bit_or (bus.read (tisr (timer_get i)) d2).0 7) d3 in
    let same4 : controls d4 ≡ controls d2 =
      hw.write_status i (bit_or (bus.read (tisr (timer_get i)) d2).0 7) d3 p (omega arith)
      ∙ hw.read_status i d2 p (omega arith) in
    let (d', later, set, kept) =
      init_timers-start D bus controls count (i + 1) d4 hw (omega arith) (omega arith) in
    let step : (m : ℕ)
        → controls d4 m ≡ (if m == i then bit_or (controls d i) 0xffff_fffe else controls d m) =
      λ m.
        ap (λ f. f m) same4
        ∙ hw.write_control i (bit_or (controls d1 i) 0xffff_fffe) m d1 p (omega arith)
        ∙ ap (λ f. if m == i then bit_or (f i) 0xffff_fffe else f m) same1 in
    (
      d',
      rw (hw.read_control i d1 p (omega arith)) later,
      λ m lo hi. elim (Bool-cases (m == i)) [
        | inl here ↦
            kept m (ground (arith, here))
            ∙ step m
            ∙ ap (λ t. if t then bit_or (controls d i) 0xffff_fffe else controls d m) here
            ∙ ap (λ k. bit_or (controls d k) 0xffff_fffe) (ground (arith, here))
        | inr there ↦
            set m (ground (arith, there)) hi
            ∙ ap (λ w. bit_or w 0xffff_fffe)
                (step m
                  ∙ ap (λ t. if t then bit_or (controls d i) 0xffff_fffe else controls d m) there)
      ],
      λ m lt. kept m (omega arith) ∙ step m ∙ rw (ne→== m i (omega arith)) refl,
    )

-- With control registers that can be read and written, soc_timer_init returns, and the start bit of
-- each of the twelve timers is as it was before: a timer that runs goes on running.
pub soc_timer_init-keeps_running :
    (D : Type 0) (bus : Bus D) (controls : D → ℕ → ℕ) (d : D)
    → HasTimers bus controls
    → (d' : D) × (soc_timer_init bus d ≡ some (tt, d'))
      × ((n : ℕ) → 1 ≤ n → n < 13 → bit_at (controls d' n) 0 ≡ bit_at (controls d n) 0)
unfolding soc_timer_init
soc_timer_init-keeps_running D bus controls d hw =
    let (d', run, set, kept) =
      init_timers-start D bus controls 12 1 d hw (omega arith) (omega arith) in
    (d', run, λ n lo hi. ap (λ w. bit_at w 0) (set n lo hi) ∙ start_bit (controls d n))
  where
    start_bit : (w : ℕ) → bit_at (bit_or w 0xffff_fffe) 0 ≡ bit_at w 0
    start_bit w = omega (arith, bit_at-or 0 w 0xffff_fffe)
