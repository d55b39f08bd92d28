-- ===== src/Lib.antt =====
-- reedos, a RISC-V kernel in Rust: its memory management, its spinlock, and the start of the harts with
-- their timers, the serial port and the log.
--
-- The kernel's memory system has four layers. The page pool (src/vm/palloc.rs) keeps the free pages of
-- RAM in a doubly linked list whose links stand in the pages. Kalloc (src/vm/vmalloc.rs) carves chunks
-- below the size of a page out of zones, which are pages of the pool. Galloc (src/vm/global.rs) is Rust's
-- global allocator: it hands small requests to Kalloc and the others to the pool. The page tables
-- (src/vm/ptable.rs) are pages of the pool as well. src/vm.rs starts the layers, and src/lock/mutex.rs
-- is the lock around the pool.
--
-- Each hart starts in `_start` (src/main.rs), which sets its control registers (src/hw/riscv.rs) and its
-- timer (src/hw.rs, src/device/clint.rs) and goes to `main`, where hart 0 sets up the serial port
-- (src/device/uart.rs), the log on it (src/log.rs) and the memory system; src/trap.rs takes the timer's
-- interrupts.
--
--   Common          shared names, tests on numbers, bit operations as arithmetic (Common.Bits)
--   Machine         memory as words, and runs of kernel code: a result, a panic, a fault or no fuel;
--                   Machine.Ends for runs that end
--   Palloc          src/vm/palloc.rs: PagePool, Pool, Page and FreeNode
--     Links, FreeList, Steps            the free list in memory
--     Region, Alloc, AllocPages, AllocShort   alloc_pages
--     Splice, Free, FreePages           free_pages
--     Api, New, RoundTrip               the operations of PagePool
--   Header          src/vm/vmalloc.rs: Header; its bit fields in Header.Fields
--   Zone            src/vm/vmalloc.rs: Zone, alloc_chunk
--     Chunks        a zone as the list of its chunks, and first fit over such a list
--     Refs, Alloc, Rounds, Scan, FirstFit, Span, Owned   scan is first fit, and what first fit keeps
--     Apart, Blocks, Kept, Ends   what a new block overlaps, what writing to it and scan keep, and that scan ends
--     Overrun       scan at the end of a zone
--   Kalloc          src/vm/vmalloc.rs: Kalloc; New, Alloc, Grow, AllocGrow, Free, Freed, FreeLast for its operations
--   Galloc          src/vm/global.rs, and GlobalWrapper and init of src/vm.rs; Pages for large requests,
--                   Bytes, Copies, Zeroed and Moved for the bytes of small ones
--   Ptable          src/vm/ptable.rs
--     Entries, Walk, Map                entries and addresses, and tables that are there
--     Tree, Grow, Reach, Down, Paths    tables as a tree that walk extends
--     Update, MapPage, PageRange, MapLoop   page_map as an update of the map
--     Ranges, Kernel, Access, Layout    kpage_init, and kernel.ld's layout
--   Mutex           src/lock/mutex.rs: a step relation over any number of harts; Safety
--   Vm              src/vm.rs: the self-test of the page pool; Selftest
--   Riscv           src/hw/riscv.rs: the control registers and their wrappers
--   Clint, Trap     src/device/clint.rs and src/trap.rs; Trap.Timer has the steps of time and interrupts
--   Boot            src/hw.rs and src/main.rs; Registers and Start for `_start`, Harts for `main`
--   Uart, Log       src/device/uart.rs and src/log.rs; Line, Lines for one hart, Interleaved for two
--
-- A function of the code has the name it has in Rust, in the module of its type, and takes and returns
-- the value that the code changes through `&mut self`: `palloc pool` is a run that returns the result and
-- the new pool. A pointer is its address, and a structure behind a pointer is the words there. Memory is a
-- function from word addresses to words of 64 bits as natural numbers; `Machine.read` and
-- `Machine.write` fault at any address that is not an aligned word of the RAM of kernel.ld, so a run that is
-- `done` has no wild access to RAM. Arithmetic on usize is checked, as in the dev profile: an overflow is a
-- panic. Shifts and masks keep their 64 bits.
--
-- The global pool PAGEPOOL is passed along where the code reaches it through `palloc()` and `pfree()`.
-- The lock of PagePool is not part of the runs on the pool, which are those of the hart that holds it.
--
-- Loops take fuel, and `out_of_fuel` is a result of its own, which no theorem on a run allows: the loops of
-- the pool get one round for each page of the pool and one more, `scan` gets 262,656 rounds, at
-- most 513 for each of the 511 words where a header can stand and 512 more (`Zone.Ends`), the loops over
-- zones 0x8001 for the 0x8000 pages of RAM, and `page_map` one round for each page and two more.
--
-- The specifications are lists: the free list in memory is the ascending list of the free pages
-- (`Palloc.FreeList.IsPool`), a zone is the list of its chunks (`Zone.Chunks.IsZone`), and
-- `Zone.Chunks.first_fit` is the search over such a list. The tables of a page table are a tree
-- (`Ptable.Tree.IsTree`), and `Ptable.Tree.lookup` is the map from addresses to entries that it stands for.
-- `Ptable.Access.IsLayout` is the layout of kernel.ld with no section empty, and `Ptable.Access.access` says
-- how the kernel may reach each address.
--
-- Hardware is a parameter: `Riscv.Hardware` is what the instructions on control registers do, and
-- `Uart.Chip` what a load and a store of a byte at the serial port do. `Riscv.IsRiscv` and `Uart.Is16550`
-- are the laws of the manuals that the code relies on (in `Uart`, what is stored to the transmitter, as the
-- driver does not ask whether it has room); `Riscv.Plain` and `Uart.Plain` have an instance of
-- each. The registers of the timer are words outside RAM in the same memory, by the accesses of `Clint`.
--
-- Not modelled: assembly (src/asm) and the state that it saves at a trap, the structures for processes
-- (src/vm/process.rs) and `TrapFrame`, which no code uses, and what the `alloc` crate does in
-- `test_galloc`, which is a parameter of `main`. `log!` in the functions that `main` calls, and in the trap
-- handlers before they panic, has no line of its own: its output is that of `Log.log`, and it changes no
-- other state.
pub mod Boot
pub mod Clint
pub mod Common
pub mod Galloc
pub mod Header
pub mod Kalloc
pub mod Log
pub mod Machine
pub mod Mutex
pub mod Palloc
pub mod Ptable
pub mod Riscv
pub mod Trap
pub mod Uart
pub mod Vm
pub mod Zone
