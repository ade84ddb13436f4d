-- ===== src/Tests/Machine.antt =====
-- Concrete machines: the Linux guest at work, in its kernel or its interrupt mode.
use sth.Base.{ℕ, refl, sym, arith, []}
use sth.Base.{some}
use sth.Hyper.{mode_none, gm_kernel, GuestInfo, ModeState, Hyp, Platform}
use sth.Hyper.Config.{rpc_handler_trusted, linux_config}
use sth.Hyper.Boot.{linux_config-Isolates}
use sth.Hyper.Validity.{IsValid}

abbrev pub board : Platform
board = record {
  hal_phys_start = 0x8000_0000;
  hyper_pt_start = 0xf001_0000;
  ccsidr = λ _. 0xe00f_e01a;
  clidr = 0x0a00_0023;
  cpu_id = 0x413f_c082;
  cpu_mmf = 0x3110_0003;
  cpu_cr = 0x00c5_187d;
}

abbrev pub linux_info : GuestInfo
linux_info = record {
  nr_syscalls = 378;
  page_offset = 0xc000_0000;
  phys_offset = 0x8100_0000;
  vmalloc_end = 0xf000_0000;
  guest_size = 0x0700_0000;
}

abbrev idle_mode : ℕ → ModeState
idle_mode m = record {
  ctx = λ _. 0x10;
  mode_config = (linux_config 0x8000_0000).guest_modes m;
  rpc_for = mode_none;
  rpc_to = mode_none;
}

-- The machine in `mode`, with every word of memory zero.
abbrev pub machine : ℕ → Hyp
machine mode = record {
  vm = record {
    current_guest_mode = mode;
    interrupted_mode = mode_none;
    guest_info = linux_info;
    exception_vector = 0xffff_0000;
    mode_states = idle_mode;
    current_mode_state = some mode;
    config = linux_config 0x8000_0000;
  };
  boot = 1;
  cpu = record {
    domain = ((linux_config 0x8000_0000).guest_modes mode).domain_ac;
    translation_table0 = 0;
    context_id = 0;
    thread_id = 0;
    csselr = 0;
    ops = [];
    context = some mode;
  };
  mem = λ _. 0;
  l2_index_p = 0;
}

abbrev pub kernel : Hyp
kernel = machine gm_kernel

pub kernel-IsValid : IsValid rpc_handler_trusted kernel
kernel-IsValid = record {
  coherent = record {
    bound = omega arith;
    pointer = refl;
    context = refl;
    domain = refl;
    configured = λ m b. refl;
  };
  paired = record {
    answered = λ m h b ne e. absurd (ne (sym e));
    called = λ m h b ne e. absurd (ne (sym e));
  };
  handled = record { handler = refl; trusted = refl; isolated = linux_config-Isolates 0x8000_0000 };
}
