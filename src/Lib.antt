-- ===== src/Lib.antt =====
-- hfo2, the hypervisor in Rust under hfo2/src, as definitions that run and theorems about them.
--
-- The hypervisor gives memory and pCPUs to VMs. A pool of pages (mpool.rs) feeds the page tables
-- (mm.rs) of the hypervisor and of each VM. Memory goes from one VM to another by messages
-- (spci_architected_message.rs), which change two page tables. The primary VM runs the vCPUs of the
-- others (hypervisor.rs); which VMs there are is read at the start from a device tree (fdt.rs,
-- manifest.rs). A vCPU gives the pCPU back with a value that is packed into a word (abi.rs),
-- and is woken by messages in its VM's mailbox (vm.rs) or by virtual interrupts (cpu.rs).
--
-- The files:
--   Prelude     shared tests, lists and `usize` arithmetic
--   Text        hfo2/src/std.rs and src/arch/aarch64/std.c: strings; Outcome says how methods end
--   MemIter     hfo2/src/memiter.rs; MemIter/Parse is what it reads
--   Fdt         hfo2/src/fdt.rs: the tokenizer; Fdt/Node has `FdtNode`. Fdt/Bounds and Fdt/Lookup are
--               about any memory; Fdt/Format describes the flattened format, and Fdt/Tokens, Fdt/Trees
--               and Fdt/Find are about memory in that format
--   Manifest    hfo2/src/manifest.rs: properties, string lists, `ManifestVm`; Manifest/Init has
--               `Manifest::init`, Manifest/Accepts and Manifest/Iff the trees that it accepts,
--               Manifest/Names and Manifest/Strings the names of nodes and the string lists
--   Addr        hfo2/src/page.rs, addr.rs, utils.rs and std.rs: `round_up`, `Pages::from_raw_u8`
--   Pool        hfo2/src/mpool.rs and slist.rs: `Pool`; Pool/Pages and Pool/Contiguous are its laws
--   MPool       hfo2/src/mpool.rs: `MPool`, a chain of pools; MPool/Session has its clients' histories
--   Mode        hfo2/src/mm.rs: `Mode`
--   Mm          hfo2/src/mm.rs: `PageTableEntry` and `mod addr`. Mm/Map has `map_level`, `map_root` and
--               `identity_update`, Mm/Attrs `get_attrs` and `defrag`. Mm/View says what a page table
--               shows to an address. Mm/Loop, Mm/Levels, Mm/Entries, Mm/Update, Mm/Tables and Mm/Root
--               follow an update from one entry to the whole page table, Mm/Steps, Mm/Ready and
--               Mm/Commit follow its two passes, and Mm/Identity puts them together; Mm/Leaks has what `replace` gives
--               back, and Mm/Operations gives the operations to those who share memory
--   DList       hfo2/src/list.rs: circular lists as pointers; DList/Chains and DList/Ways follow the
--               pointers, DList/Refines refines the operations to sequences
--   Load        hfo2/src/load.rs: the memory ranges for secondary VMs; Load/Reserved is about what is
--               reserved
--   Interrupts  hfo2/src/cpu.rs: `Interrupts`; Interrupts/Bits has words as bits
--   Abi         hfo2/src/abi.rs: `HfVCpuRunReturn`
--   Mailbox     hfo2/src/vm.rs: `Mailbox` and what `VmInner` does with it; Mailbox/Configure has
--               `configure` with its scope guards, Mailbox/Rollback is about them
--   VCpu        hfo2/src/hypervisor.rs: `vcpu_prepare_run`, `vcpu_run`, `switch_to_primary`
--   Spci        hfo2/src/spci.rs and spci_architected_message.rs: the transitions of shared memory
--   Hypervisor  hfo2/src/hypervisor.rs: the calls on mailboxes and interrupts. Hypervisor/Share has
--               `share_memory` and Hypervisor/Send `spci_msg_send`, with the messages of
--               spci_architected_message.rs; Hypervisor/Sharing, Hypervisor/Arrives and
--               Hypervisor/Delivery are about them
--   Tests       concrete inputs
--
-- A mutable object is passed in and returned. A `Result` is an Option, a Boolean whose `true` is `Ok`,
-- or a type that names its endings. A `usize` keeps its wrap-around. A page table is a tree whose
-- nodes own their tables, so its recursion is on the level, and its loops run over the lists of their
-- entries: there is no fuel. The loops over a device tree have the number of the bytes left as fuel,
-- and one round takes four bytes at least. The level below 0 that `map_level` would reach in
-- `level - 1` is an ending of its own, `fault`.
--
-- Not modelled: the architecture's functions, which are records that the definitions take (`Arch`,
-- `ArchRegs`), with what is relied on of them as a record of laws: a block's word can be read back, and
-- the word of a block that maps its addresses to themselves can be split as `populate_table` does it.
-- The words of aarch64 are so, those of the test architecture in C are not. Not modelled either: TLB
-- maintenance, locks and logging; the start-up code that uses the manifest, except for its memory
-- ranges. Outside DList the lists of slist.rs and list.rs are sequences.
pub mod Prelude
pub mod Text
pub mod Outcome
pub mod MemIter
pub mod Fdt
pub mod Manifest
pub mod Addr
pub mod Pool
pub mod MPool
pub mod Mode
pub mod Mm
pub mod DList
pub mod Load
pub mod Interrupts
pub mod Abi
pub mod Mailbox
pub mod VCpu
pub mod Spci
pub mod Hypervisor
pub mod Tests
