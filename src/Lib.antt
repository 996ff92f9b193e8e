-- ===== src/Lib.antt =====
-- vkernel: a kernel in C++ that starts from UEFI and runs user programs on several x86-64 CPUs
-- (src/ and include/vkernel/ of the repository). The parts that keep the kernel's state are modelled
-- here as functions on that state, and theorems are stated about these functions.
--
-- The parts, and how they meet:
--   * Boot (src/boot) passes the firmware's memory map to the physical page allocator. The kernel heap
--     takes its regions from that allocator, and everything else takes its memory from the heap.
--   * The scheduler (src/core/scheduler.cpp) switches tasks in the timer interrupt of every CPU, under
--     one lock. Processes, sleeping drivers and the network stack run as its tasks.
--   * The network stack (src/net) hands frames between a device driver and ARP, IPv4 and ICMP.
--   * Block drivers register their devices (src/core/block.cpp), and the file systems (src/fs) read
--     from them or, for the RAM file system, from the heap.
--
-- The files, and the code that they follow:
--   * Common: shared names, lists with native indices, arrays as functions, and 64-bit words with
--     `align_up` of include/vkernel/types.h.
--   * Memory/Phys: `phys_allocator` of src/core/memory.cpp and include/vkernel/memory.h. Types has the
--     region list and the pool of nodes, Init, Allocate and Free have `init`, `allocate_pages` and
--     `free_pages`; the other files reason about them. The list of nodes is a list of regions, and the
--     number of nodes in the pool is kept beside it.
--   * Memory/Heap: `kernel_heap` of the same files. Types has the blocks, and the merging of
--     neighbours; Region has `init` and `add_region`; Allocate has the part of `allocate` under the
--     lock; Free has `free`. A block's header stands in front of its data at the block's address.
--   * Memory/Bytes: `memory::set`, `copy` and `move` on a function from addresses to bytes.
--   * Sched: Types has `task` and the globals of src/core/scheduler.cpp, Pick has `pick_next_task`,
--     Preempt has `preempt`, `yield` and `start`, Tasks has `create_task`, `terminate_task`,
--     `exit_task`, `sleep` and the others. Each critical section is one function from state to state
--     with the CPU's number as an argument, and Safety has the relation of one step, in which any CPU
--     may take any section next.
--   * Net/Arp: Cache has the ARP cache of src/net/arp.cpp, Frame has the frames of
--     src/net/net_packet.cpp and the parser, Observe has `observe_frame`.
--   * Net/Transmit: `send_packet`, `queue_packet` and a round of `background_tx_task` of
--     src/net/net.cpp, with the ring of 64 slots between them; TransmitQueue reasons about it. What
--     a driver answers to a frame is a parameter.
--   * Net/Checksum and Net/Icmp: `internet_checksum` of include/vkernel/net.h, and src/net/icmp.cpp.
--   * Fs/Ramfs and Fs/Block: src/fs/ramfs.cpp and src/core/block.cpp.
--   * Fs/Fat: src/fs/fat32.cpp. Names has the short and long names of directory entries; Volume has
--     `mount_state`, split into what a mount fixes and what its operations change; Table has the cache of
--     the allocation table, `read_fat_value`, `write_fat_value`, `update_fsinfo`, `allocate_cluster` and
--     `free_cluster_chain`; Files has `read_file_range` and what it calls, and WholeFiles `read_file_data`;
--     the other files reason about them.
--   * The files called Tests, NameTests, TableTests, FileTests and BytesTests: runs on small inputs.
--
-- Numbers and bounds: machine words are natural numbers with the wrap-around written out, where an
-- operation can wrap. Addresses in memory stay below 2 ^ 62 in the invariants of both allocators, far
-- above what the processor can address. Loops over tables and lists are recursion on the list or on
-- the number of rounds left. The loop of `free_cluster_chain` has a round more than the table has
-- entries: a freed entry reads 0, so that no cluster leads on twice. The loops of `read_file_range` and
-- `read_file_data` have as many rounds as bytes to read, and each round reads one at least. A null
-- pointer is 0 or `none`.
--
-- Not modelled: the processor (interrupt controllers, FXSAVE, address spaces), device registers, the
-- firmware's services, and text output. The heap's `expand` and its aligned allocation, the waiting
-- loops around `yield`, the transmit side of IPv4, the directories and writes of files of FAT32,
-- partitions, processes, kernel objects,
-- virtual memory, sound and input are parts that still have no model. A lock is
-- taken to give mutual exclusion. Whether the heap has a block for a packet, its copy or a file is an argument
-- of the functions that ask for one.
pub mod Common
pub mod Fs
pub mod Memory
pub mod Net
pub mod Sched
