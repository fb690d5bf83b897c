-- ===== src/Lib.antt =====
-- A model of the kernel os_c, a small x86-64 kernel that is booted by multiboot2, and what holds of it.
--
-- The parts, in the order in which `kernel_main` of src/kernel.c starts them:
--   src/terminal.c, src/terminal.h: the screen (Terminal.antt, record `Terminal`: cursor, colours, video
--     memory as a function of the cell) and `terminal_printf` (Printf.antt; Printf/Format.antt has the
--     format language, Printf/Hex.antt the hexadecimal conversion). Terminal/Sheet.antt is what the screen
--     promises: a window on an endless sheet on which text is typed.
--   src/pic.c, src/pit.c: the interrupt controllers and the timer (Pic.antt, Pit.antt), as the writes to
--     ports that the functions make, given what the ports hand out.
--   src/keyboard.c: the table of characters and the interrupt (Keyboard.antt), which prints to the screen.
--   src/multiboot.c, src/multiboot.h: the tags of the boot loader (Multiboot.antt, in a memory of bytes) and
--     its structures (Multiboot/Types.antt), which the frame allocator and paging read;
--     Multiboot/Data.antt reads them out of that memory.
--   src/frame_allocator.c: `init_allocator`, `allocate_frame` (FrameAllocator.antt, record `Allocator`;
--     FrameAllocator/Message.antt has the call of `terminal_printf`).
--   src/exceptions.c: the handlers of the processor's exceptions (Exceptions.antt), which print to the
--     screen and stop the processor.
--   src/paging.c: entries, indices, the walk through the recursive mapping, `unmap_page`, and the frames
--     that `remap_kernel` maps to themselves (Paging.antt, Paging/Remap.antt), on the memory that the
--     kernel sees; and the functions that map pages (Paging/Mmu.antt) and `remap_kernel`
--     itself (Paging/Mmu/Remap.antt), on physical memory, which the kernel reaches through the tables
--     that they change.
--   src/kmalloc.c: the heap (Kmalloc.antt, record `Heap`): a free list in a memory of bytes.
--     Kmalloc/Blocks.antt is what the heap promises: blocks that are free or handed out.
--   src/kernel.c: the start up to the keyboard, and the interrupts that follow (Kernel.antt).
-- Functions keep the names of the source. Shared notation, words and bit fields are in Prelude.antt, and
-- memory as bytes in Memory.antt. Each component has its runs and examples in a module Tests.
--
-- Machine words are natural numbers with the wrap written out. A call that may stop in a failed assertion,
-- or has no defined result in C, returns a `Result` of Printf/Outcome.antt. Loops that count are recursion
-- on the number of rounds. The others run on fuel: `allocate_frame` on one round per entry and one per
-- frame up to the end of the reserved ones, since a round passes a reserved frame or takes an area further
-- up; `terminal_printf` on the length of the text, since a round takes a character or more; the loop over
-- the pages of a section on one round per page. The loops over a free list and over tags take their fuel
-- as an argument, as nothing in the code bounds them: over a list that ends one round per element does.
--
-- The processor is a parameter where its walk through the page tables matters: the record `Mmu` of
-- Paging/Mmu.antt, which says where the walk leads when every entry on the way is present. A handler of an
-- exception gets what the processor pushed, whatever that is.
--
-- Not modelled: the assembly (src/arch), but for the table of handlers; the unused descriptor table
-- (src/interrupts.c), control registers but the one with the top table, and the TLB;
-- interrupts that arrive while `kernel_main` still registers the handlers.
-- In Multiboot.antt and Kmalloc.antt calls of `terminal_printf` are kept as a list instead of being run.
pub mod Prelude
pub mod Memory
pub mod Multiboot
pub mod FrameAllocator
pub mod Terminal
pub mod Printf
pub mod Kmalloc
pub mod Paging
pub mod Keyboard
pub mod Pic
pub mod Pit
pub mod Exceptions
pub mod Kernel
