-- ===== src/Hyper/Config.antt =====
-- The configuration of the Linux guest with a trusted service
-- (core/hypervisor/guest_config/linux_config.c). `phys` is the platform's HAL_PHYS_START.
use sth.Base.{ℕ, ◌+◌, ◌-◌, ◌*◌, bit_or, some, u32, ◌<<<◌, ◌==◌, if◌then◌else◌}
use sth.Hyper.{gm_trusted, gm_kernel, gm_task, GuestMode, RpcHandler, HcConfig}

-- HC_DOM_DEFAULT, HC_DOM_KERNEL, HC_DOM_TASK, HC_DOM_TRUSTED
abbrev pub dom_default : ℕ
dom_default = 0

abbrev pub dom_kernel : ℕ
dom_kernel = 1

abbrev pub dom_task : ℕ
dom_task = 2

abbrev pub dom_trusted : ℕ
dom_trusted = 3

-- Client access to a domain, two bits for each.
abbrev client : ℕ → ℕ
client dom = 1 <<< (2 * dom)

abbrev domac_kernel : ℕ
domac_kernel = bit_or (bit_or (client dom_default) (client dom_kernel)) (client dom_task)

abbrev domac_trusted : ℕ
domac_trusted = bit_or (client dom_default) (client dom_trusted)

abbrev domac_interrupt : ℕ
domac_interrupt = bit_or (bit_or (client dom_default) (client dom_kernel)) (client dom_task)

abbrev domac_task : ℕ
domac_task = bit_or (client dom_default) (client dom_task)

abbrev trusted_location : ℕ
trusted_location = 0xf010_0000

abbrev pub rpc_handler_trusted : RpcHandler
rpc_handler_trusted = record {
  mode = gm_trusted;
  entry_point = trusted_location + 4;
  sp = trusted_location + 0x0010_0000 - 4;
}

-- The modes by their index; the last is the interrupt mode.
abbrev linux_guest_modes : ℕ → GuestMode
linux_guest_modes m = record {
  domain_ac =
      if m == gm_trusted
      then domac_trusted
      else if m == gm_kernel
      then domac_kernel
      else if m == gm_task
      then domac_task
      else domac_interrupt;
}

abbrev pub linux_config : ℕ → HcConfig
linux_config phys = record {
  guest_entry_point = u32 (phys + 0x101_0000);
  guest_modes = linux_guest_modes;
  rpc_handlers = some rpc_handler_trusted;
}
