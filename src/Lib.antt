-- ===== src/Lib.antt =====
-- libudo (libcando): the C library's components, modelled as functions on explicit states, with the
-- theorems about them.
--
-- The library has no main program. Each component is a context that the caller creates, uses through
-- functions and destroys; contexts share the log and the macros, and the job pool and the shared
-- memory stand on the futex. Paths are from the repository's root.
--
-- * Macros (include/macros.h): the macros that compute a value, byte_align for UDO_BYTE_ALIGN,
--   page_get for UDO_PAGE_GET, strtou for UDO_STRTOU, max_of and min_of. Macros/Align and
--   Macros/Hash have their lemmas.
-- * Log (src/log.c, include/log.h): Sink is the state of the log, ErrorStruct the error record
--   that every context starts with. set_error_struct, get_error and get_error_code are the functions
--   udo_log_set_error_struct, udo_log_get_error and udo_log_get_error_code; log_time and
--   log_notime print, as a list of calls. Log/ErrorText is about the error record, Log/Messages about
--   what is printed.
-- * Mm (src/mm.c): Mm is struct udo_mm with the bytes of its mapping; alloc, sub_alloc, get_size, free
--   and destroy are the functions udo_mm_alloc, udo_mm_sub_alloc, udo_mm_sub_alloc_get_size,
--   udo_mm_free and udo_mm_destroy. Mm/Arena has the arena's invariant, Mm/Blocks its list of
--   blocks, Mm/Grow the move to a larger mapping, Mm/Free and Mm/Compact what freeing does.
-- * Jpool (src/jpool.c): Queue is struct udo_jpool_queue with its memory, and the functions on it
--   are those whose names start with p_queue. Jpool/Threads interleaves udo_jpool_add_job and
--   udo_jpool_wait with p_run_thread, one access to shared memory at a time, and Jpool/Bounds,
--   Jpool/Provenance and Jpool/Races are about every such interleaving, or about one. Jpool/Timely
--   is about those in which the worker does not overtake the caller: Ledger says where every job
--   is, Calls and Works that each step keeps that, Complete and Drain what follows. Jpool/Sleep
--   adds the worker's sleep on its futex, the wake-ups and udo_jpool_destroy: Shadow shows that it
--   does what Jpool/Threads does, Ends and Hangs when the destruction ends and when it does not.
--   Jpool/Fifo runs the same code a call at a time, on one queue; Slots is about its memory, Order
--   about the jobs, and Interleaved compares these calls with the interleavings. Jpool/Layout is
--   udo_jpool_create and udo_jpool_destroy with the layout of the mapping, with Placement and
--   Created. Jpool/Pool puts both together for a pool of any number of queues; Once is about its
--   jobs, and Lifetime starts with the creation.
-- * Futex (src/futex.c): create is udo_futex_create. Futex/Threads interleaves any number of
--   threads in udo_futex_lock, udo_futex_unlock and udo_futex_unlock_force; Futex/Exclusion and
--   Futex/Wakeup are about it. Futex/Waiting does the same for udo_futex_wait and
--   udo_futex_wake, and Futex/Waiting/Sleepers is about it; Futex/Condition for
--   udo_futex_wait_cond and udo_futex_wake_cond, with Futex/Condition/Seen and Futex/Condition/Lost.
-- * Shm (src/shm.c): Segment is the memory that the processes share, Shm a process's context.
--   try_create and create are p_shm_create and udo_shm_create; Shm/Segments, Shm/Attach and
--   Shm/Refusals are about them. Shm/Transfer has udo_shm_data_write and udo_shm_data_read,
--   Shm/Transfer/Copies and Bytes are about what their loops copy, Shm/Transfer/Calls about the
--   calls on their own, and Shm/Transfer/RoundTrip about how they meet. Shm/Channel has the same
--   two functions by any number of processes on one entry, an access at a time; Inside and Moves
--   are about the process that holds a lock, Fifo and Progress about all of them, Runs and Delivery
--   about how they can go on. Whole compares Shm/Transfer with Shm/Channel for a message, with
--   Stores and Loads for the two loops, and Ints for the bytes of an int.
-- * FileOps (src/file-ops.c): Flops is struct udo_file_ops, with create and destroy for
--   udo_file_ops_create and udo_file_ops_destroy. FileOps/Sizes is about the mapping, FileOps/Paths
--   about the path buffer, FileOps/Fields about single fields, FileOps/Lines about
--   udo_file_ops_get_line and its count, and FileOps/Remove about udo_file_ops_remove_dir.
-- * Sockets (the seven socket files): one module for each of src/sock-tcp.c (Tcp), src/sock-udp.c
--   (Udp), src/usock-tcp.c (UnixTcp), src/usock-udp.c (UnixUdp), src/vsock-tcp.c (VmTcp),
--   src/vsock-udp.c (VmUdp) and src/csock-raw.c (Can), whose definitions have the functions' names
--   without their prefix: Tcp's server_create is udo_sock_tcp_server_create. Sockets/System is the
--   operating system: it answers each call as a parameter says, gives out descriptors that are not
--   in use, and records the calls. Sockets/Steps has what the files do alike. Sockets/Triples and
--   Sockets/Descriptors are rules for the descriptors and blocks in use, Sockets/Results for what a
--   create returns; Sockets/Endpoint is the interface that a file's servers and clients fill (in
--   its Ownership), with Endpoint/Either for two kinds as one and Endpoint/Table for a program that
--   keeps many contexts; Sockets/Sessions puts all kinds together. Sockets/Datagrams is about the
--   transfers of the three datagram files. Cleanup, Transfers, Connect, Valid, Paths, Machine and
--   Frames are about single functions. Sockets/Ack interleaves udo_sock_udp_send_data and
--   udo_sock_udp_recv_data over a network; the UNIX and VM files do the same.
-- * Base has what the components share: tests on numbers, lists with native indices, 32-bit and 64-bit
--   words, memory as a function from offsets to bytes, and Outcome, in which `fault` is an access
--   outside the object that a pointer points into. Tests has concrete runs.
--
-- Numbers are native; a 32-bit or 64-bit value is reduced wherever the C code can wrap. System calls
-- are parameters: their answers are arguments, and their effects a list of calls or a new state.
-- A text that printf formats is given formatted; in an error of a socket, what the macro
-- udo_log_set_error puts in front, the file and the line, is a parameter of the system.
--
-- Fuel: Jpool/Fifo and Jpool/Pool count the rounds that the worker may run in a wait, and the size of
-- the queue is enough. The loops of Shm/Transfer run on the size of the message as fuel, which is more
-- than the number of `int`s. All other loops recur on a count, a list or a tree. The retry loop of the
-- futex is a step relation, with the bound CONTENTION_LOOP_CNT written out.
--
-- Not modelled: the functions that answer a sizeof, the version and the build. The memory that a caller
-- passes to udo_shm_create or udo_jpool_create for the context is zero. A message in shared memory is
-- moved in whole `int`s, which the caller's buffer holds. The network of Sockets/Ack does not
-- duplicate datagrams. Of the sockets the messages that are only printed are left out, and the data of
-- a transfer are counted, not carried. The processor's memory order is taken as sequential: the code uses acquire, release and
-- sequentially consistent accesses.
pub mod Base
pub mod Macros
pub mod Log
pub mod Mm
pub mod Futex
pub mod Jpool
pub mod FileOps
pub mod Shm
pub mod Sockets
mod Tests
