-- ===== src/Lib.antt =====
-- STH, a small hypervisor for ARM that runs a Linux guest beside a trusted service.
--
-- The guest runs in guest modes (trusted, kernel, task, interrupt) that all use the processor's
-- user mode; the hypervisor tells them apart by the domain access register. Each exception enters a
-- handler, which reads and changes one shared state: the virtual machine with the saved registers
-- of each mode, the page tables in memory, and the registers of coprocessor 15.
--
-- Hyper.antt holds that state and the commands of the handlers: a handler is a function of the
-- state that returns a new state, halts by `hyper_panic`, or faults where C leaves an access
-- undefined. Below it:
--   Hyper/Mode, Hyper/Config, Hyper/Boot: change_guest_mode (core/hypervisor/hypercalls/hypercalls.c),
--     guests_init and start_guest (core/hypervisor/init.c), and the configuration
--     (core/hypervisor/guest_config/linux_config.c).
--   Hyper/Coherence, Hyper/Validity: the invariant of the guest modes.
--   Hyper/Handlers and its children: the exception handlers (core/hypervisor/handlers.c), and runs of
--     the machine as sequences of guest activity and exceptions.
--   Hyper/Registers and its children: registers and boot information
--     (core/hypervisor/hypercalls/hypercalls.c, hyp_cpu.c, core/hypervisor/linux/linux_init.c).
--   Hyper/Stable, and a module Validity below each part: every command keeps the modes valid.
--   Hyper/Rpc and its children: core/hypervisor/hypercalls/hyp_rpc.c.
--   Hyper/Interrupt and its children: core/hypervisor/hypercalls/hyp_interrupt.c, and irq_handler of
--     core/hypervisor/handlers.c.
--   Hyper/Mmu and its children, Hyper/PageDirectory: core/hypervisor/hypercalls/hyp_mmu.c.
--   Hyper/Layout: the memory layout in core/hypervisor/init.c and mem.c.
--   Hyper/PageTable and its children: core/hw/cpu/arm/arm_common/arm_mmu_pt.c.
--   Hyper/Cache and its children: core/hw/cpu/arm/armv7a/cpu_mem.c, core/hypervisor/hypercalls/hyp_cache.c.
-- Library.antt holds the libraries that the hypervisor and the guests are built with:
--   Library/Bitset, Library/LinkedList, Library/ObjectList, Library/Pool, Library/Slab:
--     library/util/src/bitset.c, list.c, olist.c, pool.c and slab.c.
--   Library/Bytes, Library/Print: library/uc/src/string.c and print.c.
--   Library/Heap, Library/Buddy, Library/Regions: library/mem/src/heap.c, buddy.c and level 1 of mreg.c.
--   Library/Words: memory as words, and the commands on it.
--   Library/Heap/Blocks and the modules beside it: the heap as a list of blocks. Heap/Runs has the runs
--     of its callers, from heap_init on, and Heap/Services what they can rely on.
-- Hardware.antt holds drivers of a chip, and the bus that reads and writes the registers of a device:
--   Hardware/Intc, Hardware/Gpio, Hardware/Uart, Hardware/Timer, each with its laws:
--     core/hw/soc/omap35xx/soc_interrupt.c, soc_gpio.c, soc_uart.c and soc_timer.c.
--   Hardware/Console: printf_string on the serial line, by core/hypervisor/uart_print.c.
-- The operations of a library are functions with the names of the source; lists and heaps stand in
-- memory, and the other structures are records with the fields of the source. malloc is a parameter.
-- Tests.antt applies the theorems to concrete machines and structures. Base.antt holds the words and
-- lists.
--
-- Numbers are natural numbers; a 32-bit word is kept below 2 ^ 32 by `u32`, `sub32` and `<<<` where
-- the source computes on words. Memory is a function from the address of an aligned word to the
-- word. The loop over cache lines takes fuel: a round for each line is enough, away from the end of
-- the address space; so do the loops that clear page tables, in steps of 2 MB. The other loops count
-- down as in the source. In the libraries a loop over a string, a list, a heap or a free list takes
-- fuel: a round for each byte, item or block and one for the end are enough. HAL_PHYS_START, the
-- address of the hypervisor's page table, and the identification and cache size registers are
-- parameters (`Platform`).
--
-- The bus is a parameter (`Bus`); what the manual of a device says of its registers is a record of laws
-- (`IsController`, `HasOutputs`, `HasPads`, `IsLine`, `HasTimers`), and Tests has a device for each. The
-- loops that wait for a device take fuel: more rounds than the reads after which it is ready.
--
-- The virtual machine and its configuration are variables of the hypervisor, but the model holds them
-- apart from memory. The handlers of system calls and aborts save registers below the stack pointer of
-- the guest's kernel without a check of it, so in the program these words can lie in those variables.
-- The runs of Hyper/Handlers/Runs are therefore those that spare the addresses of the variables, by a
-- premise of each step (`Spares`, `SparesMemory`), and for other theorems on these handlers a state
-- stands for the program only as far as no such word is written. An interrupt may come in the model
-- though the mode at work masks it, so the runs include all of the processor's. In Library/Bytes the
-- addresses have no bound: its functions stand for runs that stay below the end of the address space.
--
-- Not modelled: assembly, the drivers of the other chips, the guests, the order of memory operations
-- (isb, dsb), and level 2 of the memory regions of library/mem/src/mreg.c.
-- An access to a word that is not aligned is a fault of the model, at which a run ends.
pub mod Base
pub mod Hyper
pub mod Hardware
pub mod Library
pub mod Tests
