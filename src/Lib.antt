-- ===== src/Lib.antt =====
-- Verification of edna, the Emulator Daemon for NFC Applications.
--
-- A daemon lets applications on the host pose as contactless cards on one reader. The emulator
-- (src/bin/edna_emu.cpp) takes C-APDUs from the reader and hands them to the communications thread
-- (src/bin/edna_comm.cpp); the thread keeps a registry from application identifiers (AIDs) to client
-- sockets, and exchanges APDUs with the client that a SELECT has chosen. An application is a client
-- that links the library src/lib/edna_lib_export.cpp: it registers an AID, and its event loop calls
-- the application back. Both ends speak length-prefixed messages (src/common/edna_proto.h) made of
-- byte strings (src/common/edna_bytestring.cpp).
--
-- The files, and the code that they model:
--   Base            shared names; tests, lists and integers on the native numbers; computations
--                   with a world that return, spin or fault
--   Bytestring      src/common/edna_bytestring.h and .cpp: one function per method
--   Proto, Codes    the constants of src/common/edna_proto.h and include/edna.h
--   Os              the system calls on sockets and mutexes: a record that every stateful
--                   definition takes, and laws of them; Os/Script and Os/Files are concrete systems
--                   for examples
--   Comm/Frame      edna_comm_thread::recv_from_client and send_to_client
--   Comm/AidMap     application_registry, its look-ups and entries, and unregister_by_socket
--   Comm            the other methods of edna_comm_thread: new_client, select_by_aid, transceive,
--                   application_selected, the two power calls, and a round of the loop in threadproc;
--                   Comm/Thread has the rest of threadproc, Comm/Life terminate and the destructor.
--                   Comm/Reach has the states that the calls of both threads reach, and Comm/Card
--                   an abstract card as the specification of the object. Comm/Descriptors sets the
--                   registry against the table of open descriptors, Comm/Keeps has what the methods
--                   leave alone, and Comm/Whole the run of the thread from its start to its end
--   Mutex           src/bin/edna_mutex.cpp; Mutex/Threads has the places where threadproc, the calls of
--                   the emulator's thread and terminate use comm_mutex and should_run, or may wait for
--                   a client, and the moves between them, in any order
--   Client          edna_lib_init, _uninit, _connect, _disconnect, _loop_and_process, _cancel, with
--                   send_to_daemon and recv_from_daemon
--   Config          src/bin/edna_config.cpp
--   Log             src/bin/edna_log.cpp: the settings, and what a call prints, as a list of outputs
--   Thread          src/bin/edna_thread.cpp; Thread/Alone has the threads behind one object
--   Emulator        edna_emulator::run, stage by stage, and transceive_control; its start with the
--                   configuration is in Emulator/Configured. Emulator/Undefined has the run up to the
--                   command that sets ATQ and SAK, Emulator/Waits, Whole and Ends the emulation from its
--                   start commands to its end, and Emulator/Polled a concrete reader for examples
--   Daemon          src/bin/edna_main.cpp: the options, the parent and the child process, the handlers
--                   of signals, and the end; it calls Config, Log, Thread, Comm and Emulator
--   Session         the daemon and one client at the two ends of a connection, with an application
--                   behind the client: the registration, an exchange, and the two power calls
--   Sample          src/samples/edna_client_sample.cpp
-- A child module is named for what it proves. The files called Runs hold examples.
--
-- A C++ object is a record, and a method is a function from it to its result, the new object and
-- the world of the system. A method whose body has several stages is one definition per stage, in
-- the order of the body: new_client is new_client, greet, register, answer; transceive is transceive,
-- select_and_exchange, exchange, rapdu, give_up.
--
-- Bounds: the lengths of messages are 16-bit, and the wrap-around of size_t is written out as
-- % 2 ^ 64. Loops that wait take fuel. recv_loop takes one unit for each read of a message; as many as
-- the message has bytes are enough, and 0xffff for any, if each read returns some byte. The event
-- loop takes one for each call of select(2); it runs until it is cancelled. The loops of the thread and
-- of the emulator have two bounds each, on their rounds and on each wait for an event; they run until
-- should_run or should_cancel changes. A countdown in the world says how often a loop still finds its
-- flag unchanged, and one round and one wait more than that are enough.
--
-- In Session the system is concrete: bytes in both directions, the client's static variables, and
-- the state of the application. A write of the daemon wakes the client, whose event loop takes one
-- command and writes its answer, before the daemon goes on; nothing else happens on that connection
-- meanwhile, for the daemon holds the mutex.
--
-- Not modelled: log messages as the other parts make them, and texts for a terminal; PC/SC, libconfig,
-- pthreads, getopt, fork, signal and files, which are parameters. In Comm the calls of the other thread
-- come between the steps of the loop, one whole call after the other, and lock and unlock are calls of
-- Os; the interleavings of the two threads at the mutex are in Mutex/Threads, without what the threads
-- do in between, except that a read or a write on the socket of a client may not return. In Emulator
-- and Daemon, what the communications thread does to the shared object is a parameter, which comes after
-- each wait for an event; the end of the daemon sees the object as the emulation left it. push_ushort
-- has no return statement in the source, so it is a fault, and a run of the emulator ends there once the
-- reader is connected: the emulation itself is followed from its start commands on, whatever ATQ and SAK
-- they hold. A time before 1900 has no timestamp. strtoul is written out for the texts of two characters
-- that the constructor hands it.
pub mod Base
pub mod Bytestring
pub mod Proto
pub mod Os
pub mod Comm
pub mod Codes
pub mod Client
pub mod Emulator
pub mod Config
pub mod Session
pub mod Log
pub mod Thread
pub mod Mutex
pub mod Daemon
pub mod Sample
