-- ===== src/Lib.antt =====
-- The elevator system of project/elevator: each node drives one elevator through its hardware
-- driver, tells the other nodes what its elevator does, and schedules the calls that are made on
-- its panel.
--
-- The program's parts and the files that model them, with paths from the repository's root:
--   project/elevator/driver.h, driver.cpp, channels.h, io.cpp    Driver, Driver/*
--   project/elevator/floorset.h                                  FloorSet, FloorSet/*
--   project/elevator/command.h, state.h                          Command, State
--   project/elevator/concurrentqueue.h                           ConcurrentQueue
--   project/elevator/elevator.h, elevator.cpp, restartwrapper.h  Elevator, Elevator/*
--   project/elevator/requestqueue.h, requestqueue.cpp            RequestQueue, RequestQueue/*
--   project/elevator/globalstate.h                               GlobalState, GlobalState/*
--   project/elevator/scheduler.h, scheduler.cpp                  Scheduler, Scheduler/*
--   project/elevator/heartbeat.h                                 HeartBeat, HeartBeat/*
--   project/elevator/serialization.h, internal/serialization.h   Serialization, Serialization/*
--   project/elevator/udptools.h, udptools.cpp                    UdpTools, UdpTools/*
--   project/elevator/udpqueue.h                                  UdpQueue, UdpQueue/*
--   project/elevator/sessionmanager.h, sessionmanager.cpp        SessionManager, SessionManager/*
--   project/tools/main.cpp, stop.cpp                             Main, Main/*
--   project/elevator/spinlock.h                                  SpinLock, SpinLock/*
-- Prelude has the numbers, lists and words that all of them share, Outcome the result of an
-- operation that may fail an assertion, and Tests the runs on concrete inputs. A file below a
-- component's folder either continues the model (Driver/Ops, Elevator/Motion, Lights, Inputs, Cycle
-- and Start, Serialization/Formats and Containers, UdpTools/Packets, SessionManager/Connecting and
-- Formats) or proves what its name says.
--
-- How the parts interact. The control loop (Elevator/Cycle: one call of `cycle` is one round of the
-- loop in Elevator::_loop) reads the buttons and sensors through the driver, takes commands from
-- one queue and reports state changes on another. The scheduler takes the changes of all nodes,
-- merges them into the global state, and for a call of its own panel chooses an elevator, sends it
-- a command and keeps a request in the request queue. The request is acknowledged by later state
-- changes and sent again when its deadline passes. Between the nodes a queue's sender broadcasts what
-- is put into the queue, and the receivers of the other nodes put what their predicate accepts into
-- theirs. Main connects these parts, after the session manager has found the identifier of the node
-- and, for a node that starts again, the state that another one knows of its elevator.
--
-- How state and operations correspond. Each object is a record with the fields of the source. A
-- method is a function by clauses on the record; with assertions it returns an Outcome, and in
-- Elevator and Scheduler it is an action of a small monad that keeps the changes made before a
-- failed assertion, as the exception leaves the fields changed. `Elevator.Result.hung` is a loop
-- that never ends (the wait for an obstruction). The function names are those of the source in
-- lower case (_shouldStop is should_stop, _optimalElevator is optimal_elevator).
-- `Elevator.Runs.Reach` is the step relation of the control thread: its rounds, what the
-- environment does to sensors, buttons, commands and the queue of changes between two rounds (the
-- scheduler takes changes from this queue, the receiver puts those of other nodes into it), and the
-- restart of the loop by the restart wrapper after a failed assertion. Within a round the inputs do
-- not change.
--
-- Numbers. A floor is an int (Prelude/Int), which is compared and, in the scheduler's costs, added:
-- there the sum wraps (Prelude.Int.int32), where an overflow in the source is undefined. The word
-- of a floor set is a uint64_t: operations that could leave it are cut with % 2^64, and the
-- theorems ask for at most 64 floors, since a shift by more is undefined. Milliseconds are natural
-- numbers; Prelude.Int.to_int32 is the narrowing to int. The clock of an object is a sequence of
-- readings, and each call of now() takes the next one.
--
-- Fuel. RequestQueue.reschedule and RequestQueue.clean run on fuel: the number of entries, and
-- twice the number of entries, plus one. Each step of the first gives one new deadline that was
-- pending, each pass of the second that changes something leaves less entries or less pending
-- deadlines.
--
-- Orders. The heap of the request queue is a list sorted by deadline; a hash map is an association
-- list. A wait on a condition is cut at its wake-ups, given as a list (RequestQueue.WakeUp) with
-- what other threads did meanwhile. The operations of the two threads of the scheduler are
-- interleaved by whole rounds, apart from such waits. The loop of the heartbeats' manager is a
-- function of its passes (HeartBeat.Pass): what each reads, when its checks are through, and how
-- late the thread wakes up after its sleep.
--
-- The network. A format (Serialization.Serializable) is a size and two functions to and from bytes;
-- Serialization.Laws states what it means to read what was written, and Serialization/Formats,
-- Serialization/Containers and SessionManager/Formats build those of the messages. A socket is its
-- local address and the size of its buffer. What the system calls return is an argument: for
-- recvfrom the datagram, cut to the buffer, for sendto the number of bytes. One round of a loop of
-- udpqueue.h is one step, and a failed assertion leaves its round. That packets arrive in the order in
-- which they were sent, and all of them, is a hypothesis where a theorem speaks of two nodes
-- (UdpQueue.Delivery.arrivals, carried); send-receive also lets packets arrive more than once. The
-- session manager's loops take packets as their switch reads them (SessionManager.Content, with
-- `none` for a content that cannot be read); SessionManager/Formats says which bytes these are. The
-- sender and the listener of the start run concurrently and share only the phase: a round of the
-- sender is given the phase at its two reads.
--
-- Not modelled: the branch of io.cpp for libcomedi, the system's form of an address, the options of
-- a socket and the list of the machine's addresses (calls into libraries that are not here; the
-- addresses are an argument of connect), the parser of the command line, fork and the installation of
-- signal handlers in tools/main.cpp, the start and the termination of threads, the log
-- output, the tests, the vendored library project/wibble, and the exercises ex01 to ex08.
pub mod Prelude
pub mod Outcome
pub mod Driver
pub mod FloorSet
pub mod Command
pub mod State
pub mod ConcurrentQueue
pub mod Elevator
pub mod RequestQueue
pub mod GlobalState
pub mod Scheduler
pub mod HeartBeat
pub mod UdpTools
pub mod UdpQueue
pub mod SessionManager
pub mod Serialization
pub mod Main
pub mod SpinLock
mod Tests
