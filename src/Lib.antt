-- ===== src/Lib.antt =====
-- The native half of libdatachannel-java: the C code between Java and the rtc library (jni/src).
--
-- Java calls the exported functions with JNI; they borrow strings and buffers from the JVM, call
-- rtc, and turn error codes into exceptions. rtc calls the handlers on threads of its own; they find
-- a JNIEnv, attaching the thread if need be, and call the Java listener of the peer, whose structure
-- is the user pointer that rtc keeps for each handle.
--
-- A program `M A` is a function from the machine `Env` and the state `World` (Native.World). The
-- state holds the static variables of init.c, the running thread's attachment, the structures behind
-- pointers, and the trace of all calls to the outside. The machine answers each call of libc, JNI,
-- rtc, OpenSSL and Windows as any function of the trace, so a theorem about all machines is about
-- all behaviours of that code, failures included. Upcalls to Java do not change the state.
--
-- Prelude           shared names, Boolean tests, the integers ℤ over the native numbers
-- Jni               the integer types and constants of jni/jdk that the code uses
-- Native            events, state, machine, one program per outside call
-- Logic.Ledger      the resources that a trace holds, and which calls are allowed; Logic.Buffers has
--                   the direct buffers that a trace knows
-- Logic.Moves       what a program holds before and after; Logic.Rules has a rule per call
-- Logic.Keeps       what a program leaves alone; Logic.Stays adds the user pointers
-- Allocator         jni/src/private_malloc.c, the hooks of jni/src/private_allocator.cpp;
--                   Allocator.Redirect is jni/src/mimalloc_redirect.h, and Allocator.Diagnostics
--                   is jni/tests/allocator_diagnostics.c, with its proofs in Counts
-- Logic.Costs       how many exceptions a program throws, and how many calls it makes
-- Logic.Story       what a program reads from Java, asks of rtc and throws, in order
-- Util              jni/src/util.c and util.h: wrap_error, get_dynamic_string,
--                   throw_native_exception, getInnerAllocatorNative
-- Attachment        jni/src/thread_attachment.cpp, both branches of _WIN32; the child Fibers has what
--                   Windows does at the end of a thread
-- Init              jni/src/init.c: get_jni_env, initialize_jni, JNI_OnLoad, JNI_OnUnload;
--                   initialize_private_allocator of jni/src/private_allocator.cpp; DllMain of
--                   jni/src/windows_entry.c; the child Race has the accesses of threads to the
--                   static variables one by one
-- Callback          jni/src/callback.c, and DISPATCH_JNI of jni/src/util.h
-- Strings           the pattern by which functions borrow a Java string's characters
-- Peer.Servers      the ICE servers of rtcCreatePeerConnection in jni/src/native_peer.c
-- Peer.Create       rtcCreatePeerConnection
-- Peer.Describe     the descriptions, candidates and addresses of jni/src/native_peer.c
-- Peer.Listener     setupPeerConnectionListener, rtcClosePeerConnection, rtcDeletePeerConnection
-- Peer.Handlers     the handlers of jni/src/native_peer.c
-- Channel.Create    rtcCreateDataChannelEx of jni/src/native_channel.c
-- Channel.Transfer  rtcSendMessage, rtcReceiveMessage, rtcReceiveMessageInto; the child Machine has
--                   their tests in the arithmetic of jlong
-- Channel.Query     the functions of jni/src/native_channel.c that pass one call on
-- Channel.Handlers  the handlers of jni/src/native_channel.c
-- Track             jni/src/native_track.c
-- Api               the exported functions of native_peer.c, native_channel.c and native_track.c but
--                   setupPeerConnectionListener and rtcDeletePeerConnection, and
--                   getInnerAllocatorNative, as requests; all handlers as notifications; the child
--                   Interleaving lets them take turns
-- Examples          a concrete machine
--
-- The child modules named Ownership, Slots, Quiet, Inherit, Sessions, Bounds, Machine, Errors,
-- InnerAllocator, Fetch, Lifecycle, Dispatch, Delivery, Life, Sequences, Refinement, Progress,
-- Statics, Alone, Exceptions, Cost, Termination, Outcomes, Threads, Attach, Fibers, Search,
-- Invariant, Callbacks, Serving, Silence, Reading, Asking, Arguments and Widths hold the proofs. A
-- pointer or reference is a number and `NULL` is `none`. Sizes and codes are integers without a
-- bound: the code adds only an offset and a length, as jlong, and Channel.Transfer.Machine relates
-- that sum to the integers'. The conversion of an integer to the type of a field of
-- rtcConfiguration or rtcDataChannelInit is any function. Loops recurse on the list of slots or on
-- the number of elements left, so no fuel is needed.
--
-- Init.Race assumes that one thread at a time loads or unloads, that all threads see the accesses
-- in one order, and that rtcCleanup returns at a moment at which no thread is in get_jni_env;
-- threads may enter it before and after. What a thread does with a JNIEnv after get_jni_env is not
-- part of that model.
--
-- Not modelled: other races between threads (each request and each notification is one step in
-- Api); freeMemory and initializeNative as requests in Api; whether an exception is pending when a
-- call is made; the conversions of integers that the calls of rtc make; where a text that Java
-- sends ends; what Java does in an upcall; the method tables of jni/jdk/jni.h, jvalue, the
-- reference types and the floating-point types; the Java code, the build scripts and the other
-- tests. `global_ref` and `local_ref` are counted per trace, and the JVM's own frames are not
-- modelled.
pub mod Prelude
pub mod Native
pub mod Jni
pub mod Logic
pub mod Util
pub mod Attachment
pub mod Init
pub mod Callback
pub mod Strings
pub mod Peer
pub mod Channel
pub mod Track
pub mod Allocator
pub mod Api
pub mod Examples
