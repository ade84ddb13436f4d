-- ===== src/Hyper/Boot.antt =====
-- The state in which the guest is started.
use sth.Base.{◌/◌, ◌%◌, ◌≢◌, ℕ, ◌<◌, ◌≡◌, refl, sym, ◌∙◌, arith, zero, suc}
use sth.Hyper.{gm_kernel, gm_trusted, mode_none, nguestmodes, Hyp, ok, ◌>>◌}
use sth.Hyper.Mode.{change_guest_mode, guests_init, start_guest}
use sth.Hyper.Validity.{IsValid, Isolates}
use sth.Hyper.Config.{rpc_handler_trusted, linux_config}

-- The booted machine.
abbrev pub started : (phys : ℕ) → Hyp → Hyp
started phys s = elim ((guests_init (linux_config phys) >> start_guest) s) [ ok _ t ↦ t | _ ↦ s ]

by_mode {ℓ} : (P : ℕ → Type ℓ) → P 0 → P 1 → P 2 → P 3 → (m : ℕ) → m < nguestmodes → P m
by_mode P a b c d zero h = a
by_mode P a b c d (suc zero) h = b
by_mode P a b c d (suc (suc zero)) h = c
by_mode P a b c d (suc (suc (suc zero))) h = d
by_mode P a b c d (suc (suc (suc (suc m)))) h = absurd (omega arith)

pub linux_config-Isolates : (phys : ℕ) → Isolates (linux_config phys)
linux_config-Isolates phys = record {
  others =
      by_mode (λ m. m ≢ gm_trusted → ((linux_config phys).guest_modes m).domain_ac / 64 % 4 ≡ 0)
        (λ ne. absurd (ne refl)) (λ ne. refl) (λ ne. refl) (λ ne. refl);
  service = refl;
}

module _ (phys : ℕ) (s : Hyp) where
  started-rpc_to :
      (m : ℕ) → m < nguestmodes → ((started phys s).vm.mode_states m).rpc_to ≡ mode_none
  unfolding guests_init start_guest change_guest_mode
  started-rpc_to =
      by_mode (λ m. ((started phys s).vm.mode_states m).rpc_to ≡ mode_none) refl refl refl refl

  started-rpc_for :
      (m : ℕ) → m < nguestmodes → ((started phys s).vm.mode_states m).rpc_for ≡ mode_none
  unfolding guests_init start_guest change_guest_mode
  started-rpc_for =
      by_mode (λ m. ((started phys s).vm.mode_states m).rpc_for ≡ mode_none) refl refl refl refl

  started-mode_config :
      (m : ℕ)
      → m < nguestmodes
      → ((started phys s).vm.mode_states m).mode_config ≡ (linux_config phys).guest_modes m
  unfolding guests_init start_guest change_guest_mode
  started-mode_config =
      by_mode
        (λ m. ((started phys s).vm.mode_states m).mode_config ≡ (linux_config phys).guest_modes m)
        refl refl refl refl

-- From any contents of the data structures, the start of the Linux guest returns, in a valid state
-- of the kernel mode in which no mode is in a call.
pub start_guest-IsValid :
    (phys m : ℕ) (s : Hyp)
    → m < nguestmodes
    → (t : Hyp) × ((guests_init (linux_config phys) >> start_guest) s ≡ ok tt t)
      × IsValid rpc_handler_trusted t
      × (t.vm.current_guest_mode ≡ gm_kernel)
      × (t.vm.config ≡ linux_config phys)
      × ((t.vm.mode_states m).rpc_to ≡ mode_none)
      × ((t.vm.mode_states m).rpc_for ≡ mode_none)
unfolding guests_init start_guest change_guest_mode
start_guest-IsValid phys m s h = (
  started phys s,
  refl,
  record {
    coherent = record {
      bound = omega arith;
      pointer = refl;
      context = refl;
      domain = refl;
      configured = started-mode_config phys s;
    };
    paired = record {
      answered = λ m k b ne e. absurd (ne (sym e ∙ started-rpc_to phys s m b));
      called = λ m k b ne e. absurd (ne (sym e ∙ started-rpc_for phys s m b));
    };
    handled = record { handler = refl; trusted = refl; isolated = linux_config-Isolates phys };
  },
  refl,
  refl,
  started-rpc_to phys s m h,
  started-rpc_for phys s m h,
)
