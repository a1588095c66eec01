-- ===== src/Lib.antt =====
-- spscring: lock-free single-producer single-consumer rings in shared memory.
--
-- The library is a set of C++ headers under include/spscring. A control block at the start of a
-- segment holds three byte positions (write_pos, commit_pos, read_pos) and two notify words; a
-- writer object on one side and a reader object on the other move the positions over a data region
-- and wake each other through the notify words.
--
-- Files:
--   * Base: the names that all files share, machine words as numbers modulo 2^w, laws of bit_and
--     and bit_or with the masks of the program.
--   * Memory: the data region as bytes at offsets, std::memcpy into it and out of it.
--   * Control (include/spscring/control_block.hpp): the control block, init_control_block,
--     validate_control_block; Control/Geometry proves which geometries they accept. Control/Layout
--     has the offsets of the members, for any SPSCRING_CACHE_LINE_SIZE (internal/platform.hpp);
--     Offsets computes them, Lines is about the static_asserts.
--   * Notify (include/spscring/notify_word.hpp): the notify word; Notify/Word has its bit laws.
--     Notify/Waiting is the waiting loop and its timed variant as a step relation, one shared
--     access to a step, beside a thread that publishes, bumps and wakes; Notify/Wakeup, Notify/Flag
--     and Notify/Change prove what its reachable states are like. Notify/Caller is a thread that is
--     inside such a call now and then.
--   * View (include/spscring/ring_view.hpp): the segment that both sides share, and the fill level;
--     View/Pointers has the constructor and get_ptr, with addresses.
--   * Queue: the bounded queue that a ring promises to be. Runs: steps of one side, counted.
--   * Fixed (include/spscring/fixed_writer.hpp, fixed_reader.hpp): one function for each method. A
--     method takes the object's own fields and the segment, and returns both as it leaves them.
--     Fixed/Valid holds the invariant, Fixed/Contents the abstraction to a list of slots,
--     Fixed/Refine and Fixed/Consume the refinement of write and read, Fixed/Run that of any
--     sequence of calls. Fixed/Spin is about spin_until_read and spin_until_reserve. Fixed/Threads
--     interleaves the two sides, one access to shared memory at a time: Sides is what the locals of
--     each know, Messages what an access does to the messages, Invariant, Producer, Consumer and
--     Reached are the invariant, and Safety holds its consequences. Fixed/Blocking puts that
--     together with the waits of Notify: the consumer blocks on commit_seq, the producer on
--     read_wake_seq; Safety and Progress say that they wake each other.
--   * Positions: multiples of the slot size and their remainders, which both rings use.
--   * Varlen (include/spscring/varlen_writer.hpp, varlen_reader.hpp, internal/varlen_header.hpp,
--     message_meta.hpp, reserve_result.hpp): Varlen/Header is the slot header as bytes,
--     Varlen/Writer and Varlen/Reader the methods. Varlen/Align is about slot sizes, Varlen/Layout
--     about headers in memory. Varlen/Chain is the abstraction, the slots between two positions and
--     the messages in them; Varlen/Valid holds the invariant, Varlen/Padding and Varlen/Reserve the
--     reservation, Varlen/Send and Varlen/Deliver the refinement of write, Varlen/Receive and
--     Varlen/Copy that of the two overloads of read. Varlen/Empty is about write of an empty
--     payload, Varlen/Commit about commit, Varlen/Spin about the spinning read, Varlen/Exchange
--     about any sequence of calls, Varlen/Reserved about the header that try_reserve stores.
--     Varlen/Threads interleaves the two sides, one access to the control block at a time:
--     Invariant is what each thread knows of the ring, Room what a round of the reservation has
--     found, Stores what an access leaves as the other side knows it; Producer, Slots, Publish,
--     Consumer and Reached keep the invariant, and Safety holds its consequences; Progress counts
--     the accesses of try_reserve. Varlen/Blocking lets the consumer block on commit_seq, with the
--     invariant in Invariant and Moves. Varlen/Names has the names of the statuses and the flags of
--     a message.
--   * Wait (include/spscring/atomic_wait.hpp, internal/atomic_wait_futex.hpp,
--     internal/atomic_wait_darwin.hpp, internal/atomic_wait_win32.hpp): the waits with a timeout,
--     over what the loads, the clock and the kernel answer at each instant. Wait/Deadline says
--     whether they end, Wait/Tuning is about the tuning variables on Windows. Wait/Windows is the
--     rest of the Windows header, and Wait/Platforms the choice of the platform and the calls that
--     each makes; Wait/Loops, Wait/Answers, Wait/Polling and Wait/Primitives prove what they come
--     to. Wait/Poll has the pauses of the portable poll.
--   * Backoff (include/spscring/atomic_backoff.hpp): the schedule of pauses, in Backoff/Schedule.
--   * Channel (examples/thread_channel.cpp): run_fixed_channel, both of its threads over
--     Fixed/Threads. Channel/Outcome says what the consumer counts, Channel/Words and
--     Channel/Silence whom the notify words wake.
--   * VarlenChannel (the same file): run_varlen_channel over Varlen/Threads. Invariant,
--     Sending and Draining keep the counts, VarlenChannel/Outcome says what the consumer counts.
--   * BasicUsage (examples/basic_usage.cpp): both demos as functions, and in BasicUsage/Printed
--     what they print.
--
-- Conventions. A pointer into the data region is its offset from data_, nullptr is none. Sums of
-- positions wrap modulo 2^64; theorems that need it assume that the positions have not been used
-- up. The calls of atomic_notify_all are recorded in the segment. The waiting loop blocks as on
-- Linux; that FUTEX_WAIT compares the word and that FUTEX_WAKE wakes every sleeper is the kernel's
-- documented behaviour. Atomic accesses take effect in one global order. The invariant of the
-- variable length ring asks for an alignment of 8 or more, so that both sizes of a padding slot's
-- header lie before the end of the ring.
--
-- Fuel. The loop of the variable length ring's try_reserve has fuel for two rounds: with a single
-- producer a second round starts at the beginning of the ring and ends the loop. The loop of its
-- read has one round more than there are committed bytes: each padding slot takes eight or more.
-- The waits and the spin loops take their fuel as an argument; the theorems on them say which is
-- enough, or that none is.
--
-- Not modelled: floating point (fill_ratio takes the quotient as a parameter), the detection of the
-- platform by the preprocessor (internal/platform.hpp, but for the cache line size), benchmarks and
-- tests (they only call the library), orders of memory weaker than one global order.
pub mod Base
pub mod Memory
pub mod Control
pub mod Notify
pub mod Positions
pub mod Queue
pub mod Runs
pub mod View
pub mod Fixed
pub mod Varlen
pub mod Wait
pub mod Backoff
pub mod Channel
pub mod VarlenChannel
pub mod BasicUsage
