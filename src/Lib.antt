-- ===== src/Lib.antt =====
-- Hohnor, an event-driven network library in C++: what its core promises, and proofs that it keeps it.
--
-- The parts. An `EventLoop` (src/core/EventLoop.cpp) waits in epoll, runs the callbacks of the ready
-- `IOHandler`s (src/core/IOHandler.cpp), and then the functors that any thread has queued; an eventfd
-- wakes it. A `TCPConnection` (src/net/TCPConnection.cpp) owns one handler and two `Buffer`s
-- (include/hohnor/common/Buffer.h, src/net/Buffer.cpp); a `TCPConnector` (src/net/TCPConnector.cpp)
-- makes connections and tries again, and a `TCPAcceptor` (src/net/TCPAcceptor.cpp) takes them. A `Thread`
-- (src/thread/Thread.cpp) runs a function. Threads hand items to each other in a `BoundedBlockingQueue`
-- (include/hohnor/thread/BoundedBlockingQueue.h) over a `CircularBuffer`
-- (include/hohnor/common/CircularBuffer.h), or in an unbounded `BlockingQueue`
-- (include/hohnor/thread/BlockingQueue.h), and wait for each other on a `CountDownLatch`
-- (include/hohnor/thread/CountDownLatch.h). The timers (src/core/Timer.cpp) stand in a
-- `BinaryHeap` (include/hohnor/common/BinaryHeap.h). The logger writes into a `LogStream`
-- (src/log/LogStream.cpp, include/hohnor/log/LogStream.h), and a thread of its own may write the records
-- out, to the files of a `LogFile` (src/file/LogFile.cpp). A `ThreadPool` (src/thread/ThreadPool.cpp) runs tasks
-- from a bounded queue. The loop also keeps the handlers of signals (src/core/Signal.cpp) and of the keyboard.
--
-- The files.
--   Prelude            shared names, Boolean tests, lists over the native numbers, 64-bit words, integers.
--   Common/CircularBuffer   the ring; Contents its invariant and view as a list, Fifo its specification, Runs
--                      sequences of calls.
--   Common/Buffer      the byte buffer; Room its invariant and how room is made, Content the operations,
--                      Refill `readFd` and `shrink`.
--   Common/BinaryHeap  the heap; Items its multiset, Path and Sift the two ways an item goes, Loops that they
--                      end, Order and Least the contract, Mapped items that change in place.
--   Thread/BoundedBlockingQueue   the queue with its waiting threads as a step relation; Waiters the threads
--                      that sleep, History the items that went through, Effects what a step does to the takers.
--   Thread/BlockingQueue, Thread/CountDownLatch   the queue without a bound and the latch, in the same way;
--                      Delivery and Opening their runs.
--   Thread/ThreadPool  the pool's threads over the bounded queue; Standing where they stand, Once and Quiet the
--                      tasks that they call.
--   Thread/Thread      a thread and its owner (src/thread/Thread.cpp); Standing, Latched and Calls the steps,
--                      Starting the schedules.
--   Core/IoHandler     the handler, and the commands that it gives to epoll; Registration what epoll then
--                      holds, Dispatch the callbacks of an event, Outcome what some calls leave.
--   Core/EventLoop     the phases, the queue and the eventfd as a step relation; Wakeup, Moves, Order, Turn.
--   Core/Timer         the timers over the heap; Taken, Popped and Expiry what `handleRead` takes out, Sharing
--                      the handles, with Carries, Steps and Silence the timers that are disabled, and Clearing the
--                      destructor.
--   Core/Keyboard      `handleKeyboard` with the terminal mode (src/io/FdUtils.cpp); Epoll and Following its calls.
--   Core/Signal        the handler of a signal (src/core/Signal.cpp); Fate what becomes of the signal, Unmade
--                      without an IO handler, Again when it is handled again.
--   Core/SignalMap     the handlers that `handleSignal` of the loop keeps; Latest.
--   Net/TcpConnection  reading and writing; Kept, Stream and Drain the bytes written, Reading the
--                      callbacks.
--   Net/TcpAcceptor    the listening socket (src/net/TCPAcceptor.cpp, `accept` of src/net/SocketWrap.cpp); Accepting
--                      what reaches its callback.
--   Net/TcpConnector   the attempts to connect; Attempts and Safety its invariant, Backoff the retries.
--   Log/LogStream      integers as text in a fixed buffer; Digits, Cursor.
--   Log/LogFile        the files of a log (src/file/LogFile.cpp); Rolling one call, Runs many.
--   Log/AsyncLogging   the log thread (src/log/AsyncLogging.cpp); Requests what a
--                      schedule asks for, Written and Stopping.
--   File/AppendFile    appending (src/file/FileUtils.cpp); Written what comes into the file.
--   File/ReadSmallFile   reading (src/file/FileUtils.cpp); Loop and Reading what comes of the bytes.
--   Process/ProcessInfo  the name of the process (src/process/ProcessInfo.cpp); Naming.
--   Time/Date          Julian day numbers (src/time/Date.cpp); Calendar the Gregorian calendar, Split and Days.
-- Each has a module Examples with tests and instances. Definitions keep the names of the source, in snake
-- case: `writeInLoop` is `write_in_loop`.
--
-- How it is modelled. A failed check or assertion, a thrown error and a call through a null pointer are
-- `none`. The words size_t and uint64_t wrap at 2^64 (`add64`, `sub64`). What runs in the loop's thread is
-- sequential; where threads meet (the bounded queue, the loop's queue) a step is what one thread does
-- between two points where others can run, and runs are lists of steps. Callbacks are numbers, and where
-- they may change what follows, functions. The results of the system calls are arguments; what the kernel
-- took of a connection's bytes is the field `wire`.
--
-- Bounds. The heap's loops run on fuel, the number of the items; that of `handleRead` and that of the
-- destructor of the timers on one more, and that of `readToString` on one more than the bytes of the file; and
-- the theorems show that they end.
-- `convert_loop` runs on fuel: one unit for a digit, and the twenty units given are enough for a
-- number of 64 bits. A vector holds at most 2^63 - 1 bytes (`vector_max_size`). The
-- conversions of a size to an `int` in `setMaxQueueSize` and `readableSlice` are written out, and the `int`s of
-- Date.cpp, none if they overflow, hold all the numbers up to year 1465000.
--
-- Not modelled: UDP sockets, addresses, timestamps, the options of sockets; and, since they only call out, the
-- wrappers of system calls, text formatting by snprintf, the other readings of /proc.
pub mod Prelude
pub mod Common
pub mod Thread
pub mod Core
pub mod Net
pub mod Process
pub mod Log
pub mod Time
pub mod File
