-- ===== src/Tests/Dispatch.antt =====
-- The theorems on exceptions and on the end of a system call, at concrete machines.
use sth.Base.{ℕ, Bool, leb, ltb, ◌&&◌, ◌+◌, ◌*◌, ◌/◌, ◌%◌, ◌≡◌, true, refl, arith}
use sth.Hyper.{gm_kernel, gm_task, gm_trusted, sp, pc, Hyp, ok, ◌>>◌, put_reg}
use sth.Hyper.Mode.{guests_init, start_guest, change_guest_mode}
use sth.Hyper.Config.{rpc_handler_trusted, linux_config}
use sth.Hyper.Validity.{IsValid}
use sth.Hyper.Boot.{started}
use sth.Hyper.Rpc.{hypercall_rpc}
use sth.Hyper.Interrupt.{irq_handler}
use sth.Hyper.Interrupt.Modes.{interrupted, irq_handler_lem}
use sth.Hyper.Registers.{hypercall_restore_linux_regs, clear_linux_mappings}
use sth.Hyper.Registers.Clear.{clear_linux_mappings-keeps_upper}
use sth.Hyper.Handlers.Frame.{system_call-escalates}
use sth.Hyper.Handlers.{swi_handler, hypercall, system_call, push_context}
use sth.Hyper.Handlers.Runs.{
  Reaches, here, exception, guest, interrupt, swi, guest_ran, handle-IsValid, Reaches-isolated,
  Reaches-confined,
}
use sth.Tests.Machine.{board, machine, kernel, kernel-IsValid}

-- The variables of the hypervisor, 256 words.
abbrev variables : ℕ → Bool
variables a = leb 0xf000_4000 a && ltb a 0xf000_4400

handle-IsValid_example : IsValid rpc_handler_trusted (interrupted 37 kernel)
unfolding irq_handler change_guest_mode
handle-IsValid_example =
    handle-IsValid variables board 100 rpc_handler_trusted (interrupt 37) kernel kernel-IsValid
      (irq_handler_lem 37 kernel kernel-IsValid.coherent refl) (λ shadow. refl)

abbrev booted : Hyp
booted = started 0x8000_0000 kernel

boots : (guests_init (linux_config 0x8000_0000) >> start_guest) kernel ≡ ok tt booted
unfolding guests_init start_guest change_guest_mode
boots = refl

-- The kernel clears its registers and is interrupted.
at_work : Reaches variables board 100 booted (interrupted 37 (guest_ran (λ _. 0) (λ _. 0) booted))
unfolding guests_init start_guest change_guest_mode irq_handler
at_work =
    guest (λ _. 0) (λ _. 0) (λ a own. refl) (exception (interrupt 37) refl (λ shadow. refl) here)

Reaches-isolated_example :
    (interrupted 37 (guest_ran (λ _. 0) (λ _. 0) booted)).cpu.domain / 64 % 4 ≡ 0
Reaches-isolated_example =
    Reaches-isolated variables board 100 0x8000_0000 kernel boots at_work (omega arith)

abbrev served : Hyp
served = elim (hypercall_rpc 2 7 booted) [ ok _ t ↦ t | _ ↦ booted ]

in_service : Reaches variables board 100 booted served
unfolding guests_init start_guest change_guest_mode swi_handler hypercall hypercall_rpc
in_service = exception (swi 2 7 0 1020) refl (λ shadow. refl) here

serves : served.vm.current_guest_mode ≡ gm_trusted
unfolding guests_init start_guest change_guest_mode hypercall_rpc
serves = refl

Reaches-confined_example : served.cpu.domain / 4 % 16 ≡ 0
Reaches-confined_example =
    Reaches-confined variables board 100 0x8000_0000 kernel boots in_service serves

-- A task whose stack pointer is an address of the kernel makes a system call.
abbrev calling : Hyp
calling = put_reg gm_task sp 0xc000_3000 (put_reg gm_kernel sp 0xc000_1000 (machine gm_task))

abbrev in_call : Hyp
unfolding system_call push_context
in_call = elim (system_call calling) [ ok _ t ↦ t | _ ↦ calling ]

in_call-run : system_call calling ≡ ok tt in_call
unfolding system_call push_context change_guest_mode
in_call-run = refl

system_call-escalates_example :
    (u : Hyp) × (hypercall_restore_linux_regs 0 true in_call ≡ ok tt u)
    × (u.vm.current_guest_mode ≡ gm_kernel)
    × ((u.vm.mode_states gm_kernel).ctx pc ≡ 0xc000_3000)
system_call-escalates_example =
    system_call-escalates 0 calling refl (omega arith) (omega arith) refl in_call-run

clear_linux_mappings-keeps_upper_example :
    (t : Hyp) × (clear_linux_mappings board 1921 kernel ≡ ok tt t)
    × (t.mem (0xf001_0000 + 4 * 0xc80) ≡ kernel.mem (0xf001_0000 + 4 * 0xc80))
    × (t.vm ≡ kernel.vm)
clear_linux_mappings-keeps_upper_example =
    clear_linux_mappings-keeps_upper board 0xc80 1920 kernel refl (omega arith) (omega arith)
      (omega arith) (omega arith) (omega arith) (omega arith) (omega arith) (omega arith)
