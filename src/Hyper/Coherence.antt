-- ===== src/Hyper/Coherence.antt =====
-- What holds of the modes between two entries of the hypervisor, and that each handler keeps it.
use sth.Base.{ℕ, ◌<◌, ◌≡◌, some, arith}
use sth.Hyper.{nguestmodes, Hyp, Outcome, ok, halted, fault, out_of_fuel}
use sth.Hyper.Mode.{change_guest_mode}

-- A handler may halt the machine by a panic; it returns in a state with `P`; it never makes an
-- access that C leaves undefined.
abbrev pub Ensures : {A : Type 0} → (Hyp → Type 0) → Outcome A → Type 0
Ensures P (ok a s) = P s
Ensures P (halted m c) = Unit
Ensures P fault = ⊥
Ensures P out_of_fuel = ⊥

-- The current mode, the pointer to its state, the area that the next exception saves to and the
-- domain access register are those of one mode; the modes have the access that is configured.
pub record IsCoherent (s : Hyp) : Type 0 where
  pub bound : s.vm.current_guest_mode < nguestmodes
  pub pointer : s.vm.current_mode_state ≡ some s.vm.current_guest_mode
  pub context : s.cpu.context ≡ some s.vm.current_guest_mode
  pub domain : s.cpu.domain ≡ (s.vm.config.guest_modes s.vm.current_guest_mode).domain_ac
  pub configured :
      (m : ℕ) → m < nguestmodes → (s.vm.mode_states m).mode_config ≡ s.vm.config.guest_modes m

-- The state after a switch of modes.
abbrev pub switched : ℕ → Hyp → Hyp
switched mode s = record s {
  vm = record (s.vm) { current_mode_state = some mode; current_guest_mode = mode };
  cpu = record (s.cpu) {
    context = some mode;
    domain = (s.vm.mode_states mode).mode_config.domain_ac;
  };
}

pub change_guest_mode-ok :
    (mode : ℕ) (s : Hyp) → mode < nguestmodes → change_guest_mode mode s ≡ ok tt (switched mode s)
unfolding change_guest_mode
change_guest_mode-ok mode s h = ground arith

pub change_guest_mode-IsCoherent :
    (mode : ℕ) (s : Hyp) → IsCoherent s → Ensures IsCoherent (change_guest_mode mode s)
unfolding change_guest_mode
change_guest_mode-IsCoherent mode s c = grind arith
