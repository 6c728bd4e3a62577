-- ===== src/Lib.antt =====
-- A verification library for koalaStreamer, a camera streamer: frames are captured, encoded by
-- worker threads, passed through bounded queues and multiplexed to an RTMP output.
--
-- Parts, from the bottom:
-- * Prelude, CString: shared names, integers, and the C library's calls on strings.
-- * Fifo models class StreamerFiFo of utils/StreamerStack.h, and Frame models utils/mediaFrame.c.
-- * Deadline and FrameQueue model make_abstime_latems and class mediaFrameQueue of
--   utils/mediaThread.cpp, and Trim the callbacks of MacRTMPStreamer.cpp that shorten its queues.
-- * Stack models class StreamerStack of utils/StreamerStack.h and the pool of frames, and Worker
--   class mediaThread of utils/mediaThread.cpp.
-- * Options models the option list of MediaMuxer/MediaMuxer.c.
-- * Muxer models KoalaPlayer/src/koala_muxer.c: its state and short operations in Muxer,
--   write_frame in Muxer/Write, mux_thread in Muxer/Thread, koala_muxer_init_open and
--   koala_muxer_close in Muxer/Open.
-- * Codec and KoalaLog model KoalaPlayer/src/koala_common.c, and Logger
--   utils/logger.c, its text in Logger/Format, Android and the dump of bytes in Logger/Platform.
-- * MediaMuxer models MediaMuxer/MediaMuxer.c over the delegate of MediaMuxer/MediaMuxer.h, an
--   interface with laws that MediaMuxer/Koala, for MediaMuxer/KoalaMuxer.c, fills.
-- * Statistics models streamStatistician.c.
-- * Streamer models MediaStreamer.c: its calls in Streamer, the two callbacks that the muxer calls in
--   Streamer/Callbacks, with the statistics that they keep in Streamer/Counting, and the prepare
--   thread beside mediaStreamer_stop, one statement of either at a time, in Streamer/Life.
-- * App models MacRTMPStreamer.cpp: the shared state and the pool in App, FFEncoderThread in
--   App/Encoder with its runs of packets in App/Encoder/Packets, ff_read_devices in App/Capture, the
--   callbacks for the streamer in App/Source, open_input in App/Input, initMediaThread in App/Start, the
--   freeing of the pool in App/Shutdown, and main's loop over characters in App/Commands.
-- * App/Main models main as a whole: its deeds from the first object that it makes to the last that it
--   frees, with destroyMediaThread and the destructors, in App/Main; what each of its threads uses in a
--   round in App/Main/Uses; the threads, one use of a shared object at a time, in App/Main/Threads.
--   App/Main/Order has a Boolean test of the order of main's deeds, App/Main/Erase leaves main's own uses
--   out of it, and App/Main/Rounds has the objects of each thread. App/Main/Guarded is about the objects
--   that are deleted after the joins, App/Main/Exposed, Race, Run and Late about those that are deleted
--   before, App/Main/Sound and Destroy about the uses of main itself and of the destructors.
-- * App/Flow puts the parts together for one stream: the two queues and the encoder's thread between
--   the capturing thread and the streamer, one critical section at a time; App/Flow/Lists has the lists
--   that describe its order. App/Written follows one packet from the encoder through write_frame to
--   the output.
-- * Tests holds the theorems at concrete inputs.
--
-- How code becomes definitions: a method returns the new state beside its result; a null pointer is
-- `none`; `int` results 0 and -1 of a queue are Boolean or named statuses. A call under a mutex is
-- one step. While a thread waits for a condition the mutex is free, so a wait takes a list of
-- calls that the other threads make meanwhile. FFmpeg's functions, the answers of data
-- callbacks and the moment at which another thread sets a flag are arguments.
-- mediaStreamer_prepare_internal and mediaStreamer_stop step from one statement to the next; other
-- operations are one step each, also where no mutex guards them: a call on the statistics is taken
-- not to be interrupted by a call of another thread. In App/Capture and App/Start the queues and the
-- pool stay; App/Main has their deletion.
-- 64-bit time stamps are integers without bound: overflow of a signed sum is undefined in C and is
-- not modelled.
--
-- Fuel: the loop of cleanIf takes one unit for each round, and a round for each stored frame and
-- one more is enough; mux_thread takes one for each round, and the answers of both sources and
-- three more are enough. releaseOpts takes one unit for each node.
-- ff_read_devices takes a fuel for its cleanings, for which 401 is enough.
-- The destructors of the queues clean with the same fuel.
-- Not modelled: how MacRTMPStreamer.cpp names and opens FFmpeg's devices and frees its contexts, what
-- is printed but for its values, and the locks that guard one flag or pointer each; memory and threads
-- are taken to be there when they are asked for. KoalaPlayer/include/koala_type.h declares a player's
-- types that no code here uses.
pub mod Prelude
pub mod CString
pub mod Fifo
pub mod Stack
pub mod Frame
pub mod Deadline
pub mod FrameQueue
pub mod Trim
pub mod Worker
pub mod Options
pub mod Codec
pub mod KoalaLog
pub mod Logger
pub mod Muxer
pub mod MediaMuxer
pub mod Statistics
pub mod Streamer
pub mod App
mod Tests
