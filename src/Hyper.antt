-- ===== src/Hyper.antt =====
-- The state that the hypervisor's handlers share, and the commands they are written in
-- (core/hypervisor/hyper.h, core/hypervisor/hyper_config_base.h,
-- core/hypervisor/guest_config/hyper_config.h, core/hw/cpu/arm/arm_common/arm_common.h).
-- Memory is read and written by aligned words at virtual addresses.
pub mod Mode
pub mod Rpc
pub mod Interrupt
pub mod Coherence
pub mod Validity
pub mod Config
pub mod Boot
pub mod Cache
pub mod PageTable
pub mod Layout
pub mod Mmu
pub mod PageDirectory
pub mod Stable
pub mod Registers
pub mod Handlers
use sth.Base.{
  u32, sub32, ◌+◌, ℕ, ◌%◌, Bool, Option, none, some, List, ◌∷◌, ltb, ◌==◌, if◌then◌else◌, update,
}

-- HC_NGUESTMODES and the modes
abbrev pub nguestmodes : ℕ
nguestmodes = 4

abbrev pub gm_trusted : ℕ
gm_trusted = 0

abbrev pub gm_kernel : ℕ
gm_kernel = 1

abbrev pub gm_task : ℕ
gm_task = 2

abbrev pub gm_interrupt : ℕ
gm_interrupt = 3

-- `(uint32_t)-1`
abbrev pub mode_none : ℕ
mode_none = 0xffff_ffff

abbrev pub hal_virt_start : ℕ
hal_virt_start = 0xf000_0000

-- The 17 words of a `context`, by index: `reg[0]` to `reg[12]`, then the four below.
abbrev pub Context : Type 0
Context = ℕ → ℕ

abbrev pub sp : ℕ
sp = 13

abbrev pub lr : ℕ
lr = 14

abbrev pub pc : ℕ
pc = 15

abbrev pub psr : ℕ
psr = 16

pub record GuestMode : Type 0 where
  pub domain_ac : ℕ

pub record RpcHandler : Type 0 where
  pub mode : ℕ
  pub entry_point : ℕ
  pub sp : ℕ

pub record HcConfig : Type 0 where
  pub guest_entry_point : ℕ
  pub guest_modes : ℕ → GuestMode
  pub rpc_handlers : Option RpcHandler

pub record GuestInfo : Type 0 where
  pub nr_syscalls : ℕ
  pub page_offset : ℕ
  pub phys_offset : ℕ
  pub vmalloc_end : ℕ
  pub guest_size : ℕ

pub record ModeState : Type 0 where
  pub ctx : Context
  pub mode_config : GuestMode
  pub rpc_for : ℕ
  pub rpc_to : ℕ

-- `current_mode_state` points into `mode_states`, and is given by its index there. `id` and `next`, and
-- the names in the configuration, are read by no handler and left out.
pub record VirtualMachine : Type 0 where
  pub current_guest_mode : ℕ
  pub interrupted_mode : ℕ
  pub guest_info : GuestInfo
  pub exception_vector : ℕ
  pub mode_states : ℕ → ModeState
  pub current_mode_state : Option ℕ
  pub config : HcConfig

-- The maintenance operations that coprocessor 15 is asked for, with their operand.
pub data CopOp : Type 0 where
  dcache_invalidate_mva dcache_clean_invalidate_mva : ℕ → CopOp
  icache_invalidate_all branch_pred_inval_all : CopOp
  tlb_invalidate_all tlb_invalidate_all_inst tlb_invalidate_all_data : CopOp
  tlb_invalidate_mva tlb_invalidate_asid : ℕ → CopOp
  dcache_clean_invalidate_sw dcache_invalidate_sw : ℕ → CopOp

-- The registers of coprocessor 15 that the handlers set, and its operations, the last one first.
-- `context` is the area that the next exception saves to (`cpu_context_current_set`).
pub record Cpu : Type 0 where
  pub domain : ℕ
  pub translation_table0 : ℕ
  pub context_id : ℕ
  pub thread_id : ℕ
  pub csselr : ℕ
  pub ops : List CopOp
  pub context : Option ℕ

pub record Hyp : Type 0 where
  pub vm : VirtualMachine
  pub boot : ℕ
  pub cpu : Cpu
  pub mem : ℕ → ℕ
  pub l2_index_p : ℕ

-- What the build and the processor fix: HAL_PHYS_START, the linker's `__hyper_pt_start__`, the cache
-- size register by the selected cache, the cache level register, and three identification registers.
pub record Platform : Type 0 where
  pub hal_phys_start : ℕ
  pub hyper_pt_start : ℕ
  pub ccsidr : ℕ → ℕ
  pub clidr : ℕ
  pub cpu_id : ℕ
  pub cpu_mmf : ℕ
  pub cpu_cr : ℕ

-- The messages of `hyper_panic` in the handlers that are modelled.
pub data Message : Type 0 where
  unknown_guest_mode : Message
  rpc_while_in_rpc rpc_to_itself rpc_to_busy_mode rpc_unallowed : Message
  end_rpc_outside_rpc end_rpc_not_started : Message
  unknown_interrupt_operation end_interrupt_outside invalid_interrupted_mode : Message
  not_kernel_pointer boot_info_twice : Message
  sensitive_virtual_address foreign_physical_address outside_address_space : Message
  table_base_not_kernel table_base_writable : Message
  clear_hypervisor_page not_implemented unknown_hypercall : Message

-- `halted` is `terminate`, which loops for ever. `fault` is an access that C leaves undefined:
-- past the end of `mode_states`, through a null pointer, to a word that is not aligned, or of a
-- variable that has no value. `out_of_fuel` is a loop that took all the rounds it was given.
pub data Outcome (A : Type 0) : Type 0 where
  ok : A → Hyp → Outcome A
  halted : Message → ℕ → Outcome A
  fault : Outcome A
  out_of_fuel : Outcome A

abbrev pub M : Type 0 → Type 0
M A = Hyp → Outcome A

abbrev pub pure : {A : Type 0} → A → M A
pure = ok

module _ {A B : Type 0} where
  abbrev pub and_then : Outcome A → (A → M B) → Outcome B
  and_then (ok a s) k = k a s
  and_then (halted m c) k = halted m c
  and_then fault k = fault
  and_then out_of_fuel k = out_of_fuel

  infixl 5 ◌>>=◌ ◌>>◌
  abbrev pub ◌>>=◌ : M A → (A → M B) → M B
  m >>= k = λ s. and_then (m s) k

  abbrev pub ◌>>◌ : M A → M B → M B
  m >> k = m >>= λ _. k

abbrev pub hyper_panic : {A : Type 0} → Message → ℕ → M A
hyper_panic m code s = halted m code

-- `if(test) hyper_panic(...)`
abbrev pub panic_if : Bool → Message → ℕ → M (Unit {0})
panic_if test m code s = if test then halted m code else ok tt s

abbrev pub get_vm : M VirtualMachine
get_vm s = ok s.vm s

abbrev pub set_vm : VirtualMachine → M (Unit {0})
set_vm vm s = ok tt (record s { vm = vm })

abbrev pub modify_cpu : (Cpu → Cpu) → M (Unit {0})
modify_cpu f s = ok tt (record s { cpu = f s.cpu })

abbrev pub cop_op : CopOp → M (Unit {0})
cop_op op = modify_cpu (λ c. record c { ops = op ∷ c.ops })

-- `curr_vm->mode_states[mode]`
abbrev pub mode_state : ℕ → M ModeState
mode_state mode s = if ltb mode nguestmodes then ok (s.vm.mode_states mode) s else fault

abbrev pub put_mode : ℕ → ModeState → Hyp → Hyp
put_mode mode m s = record s { vm = record (s.vm) { mode_states = update s.vm.mode_states mode m } }

abbrev pub set_mode_state : ℕ → ModeState → M (Unit {0})
set_mode_state mode m s = if ltb mode nguestmodes then ok tt (put_mode mode m s) else fault

-- the index that `curr_vm->current_mode_state` stands for
abbrev pub current : M ℕ
current s = elim (s.vm.current_mode_state) [ none ↦ fault | some m ↦ ok m s ]

-- `curr_vm->mode_states[mode].ctx`, word `i`
abbrev pub reg : ℕ → ℕ → M ℕ
reg mode i = mode_state mode >>= λ m. pure (m.ctx i)

abbrev pub put_reg : ℕ → ℕ → ℕ → Hyp → Hyp
put_reg mode i v s =
    let m = s.vm.mode_states mode in put_mode mode (record m { ctx = update m.ctx i v }) s

abbrev pub set_reg : ℕ → ℕ → ℕ → M (Unit {0})
set_reg mode i v =
    mode_state mode >>= λ m. set_mode_state mode (record m { ctx = update m.ctx i v })

abbrev pub load : ℕ → M ℕ
load a s = if a % 4 == 0 then ok (s.mem a) s else fault

-- The virtual machine and its configuration lie in variables of the hypervisor, which `vm` holds apart
-- from `mem`: a word stored at their addresses does not reach `vm`. A run in which that happens is not
-- one of the program; Hyper/Handlers/Runs.antt names the runs in which it does not.
abbrev pub store : ℕ → ℕ → M (Unit {0})
store a v s = if a % 4 == 0 then ok tt (record s { mem = update s.mem a v }) else fault

-- `flpt_va` and `slpt_va`
abbrev pub flpt_va : Platform → ℕ
flpt_va p = p.hyper_pt_start

abbrev pub slpt_va : Platform → ℕ
slpt_va p = u32 (p.hyper_pt_start + 0x4000)

-- GET_VIRT and GET_PHYS
abbrev pub get_virt : Platform → ℕ → ℕ
get_virt p phy = sub32 (u32 (phy + hal_virt_start)) p.hal_phys_start

abbrev pub get_phys : Platform → ℕ → ℕ
get_phys p vir = sub32 (u32 (vir + p.hal_phys_start)) hal_virt_start
