-- ===== src/Tests/Modes.antt =====
-- The theorems on calls and interrupts, from the kernel mode of a booted guest.
use sth.Base.{◌≡◌, refl, arith}
use sth.Hyper.{mode_none, gm_kernel, gm_interrupt, Hyp, ok, ◌>>◌}
use sth.Hyper.Mode.{guests_init, start_guest}
use sth.Hyper.Config.{rpc_handler_trusted, linux_config}
use sth.Hyper.Validity.{IsValid}
use sth.Hyper.Coherence.{Ensures}
use sth.Hyper.Boot.{start_guest-IsValid}
use sth.Hyper.Rpc.{hypercall_rpc, hypercall_end_rpc}
use sth.Hyper.Rpc.Pairing.{hypercall_rpc-IsValid, hypercall_end_rpc-IsValid}
use sth.Hyper.Rpc.RoundTrip.{MayCall, MayCall→rpc-ok, entry, entry-IsValid, Resumed, rpc-end_rpc}
use sth.Hyper.Interrupt.{irq_handler, hypercall_end_interrupt}
use sth.Hyper.Interrupt.Modes.{HasVector}
use sth.Hyper.Interrupt.RoundTrip.{Back, irq-end_interrupt}
use sth.Tests.Machine.{kernel, kernel-IsValid}

kernel-MayCall : MayCall 2 kernel
kernel-MayCall = record { free = refl; other = omega arith; idle = refl; known = omega arith }

hypercall_rpc-IsValid_example : Ensures (IsValid rpc_handler_trusted) (hypercall_rpc 2 7 kernel)
hypercall_rpc-IsValid_example = hypercall_rpc-IsValid rpc_handler_trusted 2 7 kernel kernel-IsValid

abbrev serving : Hyp
serving = entry rpc_handler_trusted 2 7 kernel kernel-IsValid

serving-IsValid : IsValid rpc_handler_trusted serving
serving-IsValid = entry-IsValid rpc_handler_trusted 2 7 kernel kernel-IsValid kernel-MayCall

hypercall_end_rpc-IsValid_example :
    Ensures (IsValid rpc_handler_trusted) (hypercall_end_rpc serving)
hypercall_end_rpc-IsValid_example =
    hypercall_end_rpc-IsValid rpc_handler_trusted serving serving-IsValid

rpc-end_rpc_example : (u : Hyp) × (hypercall_end_rpc serving ≡ ok tt u) × Resumed kernel u
rpc-end_rpc_example =
    rpc-end_rpc rpc_handler_trusted 2 7 kernel kernel-IsValid
      (MayCall→rpc-ok rpc_handler_trusted 2 7 kernel kernel-IsValid kernel-MayCall)

start_guest-IsValid_example :
    (t : Hyp) × ((guests_init (linux_config 0x8000_0000) >> start_guest) kernel ≡ ok tt t)
    × IsValid rpc_handler_trusted t
    × (t.vm.current_guest_mode ≡ gm_kernel)
    × (t.vm.config ≡ linux_config 0x8000_0000)
    × ((t.vm.mode_states 2).rpc_to ≡ mode_none)
    × ((t.vm.mode_states 2).rpc_for ≡ mode_none)
start_guest-IsValid_example = start_guest-IsValid 0x8000_0000 2 kernel (omega arith)

kernel-HasVector : HasVector kernel
kernel-HasVector = refl

irq-end_interrupt_example :
    (t u : Hyp) × (irq_handler 37 kernel ≡ ok tt t)
    × (t.vm.current_guest_mode ≡ gm_interrupt)
    × (hypercall_end_interrupt t ≡ ok tt u)
    × Back kernel u
irq-end_interrupt_example =
    irq-end_interrupt rpc_handler_trusted 37 kernel kernel-IsValid kernel-HasVector (omega arith)
