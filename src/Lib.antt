-- ===== src/Lib.antt =====
-- MonaServer is a media server. MonaBase has its buffers, readers, writers and the system; MonaCore
-- has the protocols (RTMFP, RTMP, HTTP, WebSocket), the data formats, streams and publications;
-- MonaServer is the executable with its bindings to Lua. Paths here are from the repository's root.
--
-- The parts modelled, from below:
--   Base: numbers, lists, Boolean tests, bit operations and machine words. A UInt32 is a number
--     with its wrap-around written out (`add32`, `sub32`, `shl32` and so on).
--   Buffer: `Buffer` of MonaBase/include/Mona/Buffer.h and MonaBase/sources/Buffer.cpp. `clip`,
--     `clear` and `resize` are the functions of the same name, `at` is `operator[]`, `new` and
--     `over` are the constructors. The array is the list of its bytes in front of `_data` and the
--     list of those from there on. Buffer/Shape has the invariant, Buffer/Resize the growth.
--   Binary: `Binary` of MonaBase/include/Mona/Binary.h, on a little-endian host.
--   Binary/Reader: `BinaryReader` (MonaBase/include/Mona/BinaryReader.h and
--     MonaBase/sources/BinaryReader.cpp). `read_raw` is `readRaw`, `read7_bit_value` is
--     `read7BitValue`, and so on; each function returns what it reads and the reader after it.
--   Binary/Writer: `BinaryWriter` (MonaBase/include/Mona/BinaryWriter.h and
--     MonaBase/sources/BinaryWriter.cpp), which stands on `Buffer`, and `Util::Get7BitValueSize` of
--     MonaBase/sources/Util.cpp. A function returns the writer, or `none` if it never returns.
--   Binary/RoundTrip: the writer against the reader.
--   Trigger: `Trigger` of MonaBase/include/Mona/Trigger.h and MonaBase/sources/Trigger.cpp, with
--     the clock as an argument. Trigger/Repeats has its run from a start to the failure.
--   Quality: `QualityOfService` of MonaBase/include/Mona/QualityOfService.h and
--     MonaBase/sources/QualityOfService.cpp, with the clock read once in a call; a rate is the
--     fraction that the source divides out.
--   Rtmfp/Fragment, Rtmfp/Flow: `RTMFPPacket`, `RTMFPFragment` and `RTMFPFlow` of
--     MonaCore/sources/RTMFP/RTMFPFlow.cpp. `fragment_handler` is `fragmentHandler`,
--     `sorted_handler` is `fragmentSortedHandler`, `commit` (Rtmfp/Flow/Commit) is `commit`. What the
--     flow does to others is recorded in its state: `processed` has the calls of
--     `FlashStream::process`, `band` the messages for the `BandWriter`. Rtmfp/Flow/AnyOrder has calls
--     of the handler in any order, which Rtmfp/Flow/Reordering, Rtmfp/Flow/Collected and
--     Rtmfp/Flow/Stepped prepare, and Rtmfp/Flow/Eventual a message.
--   Rtmfp/Band: `RTMFPSession` of MonaCore/sources/RTMFP/RTMFPSession.cpp as the `BandWriter` of its
--     writers: `write_message` is `writeMessage` with the fields that its caller then writes, and a
--     packet is the list of its messages. The log of Rtmfp/Band/Log is all that was written.
--   Rtmfp/Writer: `RTMFPWriter` of MonaCore/sources/RTMFP/RTMFPWriter.cpp. `flush` and its loop
--     (`send_loop`, `send_round`) are here, `raiseMessage`, `manage`, `clear` and `fail` in
--     Rtmfp/Writer/Repeat, `acknowledgment` in Rtmfp/Writer/Acknowledge. The proofs on `flush` are in
--     Rtmfp/Writer/Pieces, Rtmfp/Writer/Marks and Rtmfp/Writer/Rounds, those on `acknowledgment` in Rtmfp/Writer/Received.
--   Rtmfp/Delivery: the writer against the flow, in Rtmfp/Delivery/Shuffled with the fragments in any
--     order.
--   Date: `Date` of MonaBase/include/Mona/Date.h and MonaBase/sources/Date.cpp. `update` is the
--     `update` from a time; the getters and setters are in Date/Fields, and what the `mutable` fields
--     cache is returned with a getter's result. `Timezone` is the record `Zone`, and the clock an
--     argument. Date/Calendar counts the days by itself, Date/Years and Date/Exact prove `update`
--     against it, Date/RoundTrip proves `time`, Date/Setters the setters.
--   Util: of `Util` (MonaBase/include/Mona/Util.h, MonaBase/sources/Util.cpp) `ToBase64`,
--     `FromBase64`, `FormatHex` and `UnformatHex`; in Util/Query `UnpackQuery` and `DecodeURI`, with
--     the calls of `setString` as their result. The options of `FormatHex` are Boolean arguments.
--   Text: of `String` (MonaBase/include/Mona/String.h, MonaBase/sources/String.cpp) `Split`, `Trim`,
--     `ToLower` and `ICompare`.
--   Pool: `PoolBuffers` of MonaBase/include/Mona/PoolBuffers.h and
--     MonaBase/sources/PoolBuffers.cpp, each call as one step. The pool of buffers is a list, so
--     that a buffer is known by its value. Pool/Lending has the invariant,
--     Pool/Lifetime the sequences of calls and of what is made of the lent buffers.
--   Sessions: `Sessions` of MonaCore/include/Mona/Sessions.h and MonaCore/sources/Sessions.cpp, with
--     `kill` and `receive` of MonaCore/sources/Session.cpp. The three tables are in Base/Table, and
--     the sessions in a store under the numbers of their allocations, so that the tables share
--     them. `find_id`, `find_peer` and `find_address` are the `find`s; the virtual `manage` and
--     `flush` of a session are the parameter `Behaviour`. Sessions/Valid has the invariant,
--     Sessions/Calls the sequences of calls.
--   Media: `MediaCodec` of MonaCore/include/Mona/MediaCodec.h. Media/Listener is `Listener` of
--     MonaCore/sources/Listener.cpp, whose calls on the virtual writers are a log and the writers'
--     answers a parameter: Media/Listener/Safe, Media/Listener/Video and Media/Listener/Sound are about
--     the key frame, Media/Listener/Times, Media/Listener/Pushes and Media/Listener/Given about the
--     times. Media/Publication is `Publication` of MonaCore/sources/Publication.cpp,
--     with its listeners, the codecs' settings as bytes, the qualities of Quality, and the calls of
--     its peers' handlers as a log.
--   Ws: `WS::WriteHeader`, `HeaderSize` and `Unmask` of MonaCore/sources/WebSocket/WS.cpp,
--     `buildPacket` of MonaCore/sources/WebSocket/WSSession.cpp and
--     MonaCore/include/Mona/WebSocket/WSUnmasking.h. Ws/Unmasking has the mask, Ws/Frames the headers,
--     Ws/Frames/Sent a frame that is written and read.
--   Rtmp: `RTMPChannel` of MonaCore/include/Mona/RTMP/RTMP.h, `write` of
--     MonaCore/sources/RTMP/RTMPWriter.cpp, `pack` of MonaCore/sources/RTMP/RTMPSender.cpp with the
--     bytes of its packet, and `buildPacket` of MonaCore/sources/RTMP/RTMPSession.cpp after the
--     handshake. Rtmp/Fields, Rtmp/Chunks and Rtmp/Messages have the reader, Rtmp/Reassembly a body
--     in chunks, Rtmp/Headers and Rtmp/Written the writer, Rtmp/Exchange a message by its header,
--     Rtmp/Exchange/Whole any message.
--
-- Fuel: `double` has 33 rounds, and after 32 the capacity has wrapped to 0. `size_loop` has 10, as
-- the limit passes every value below 2 ^ 63 within 9. `encoded_out` has 5, as a UInt32 has 5
-- groups of seven bits, `seven_out` 10, as its shift is below 70. `lost_loop` has one more than
-- there are fragments. `send_loop` has a round more than a message has bytes. `sum_received` has
-- the bytes of the packet, `read_losts` these and the stages sent, `ack_fragments` two rounds for
-- each fragment. `year_loop` goes to a later year in each round, so that it has more than the
-- years since 1970. `emit` has 3 rounds, as fewer than 14 bits wait, and `unpack_query` a round
-- for each property and one for the end. `split_loop` has a round more than the text has bytes.
-- Of these `none` is a call that never returns, but in `encoded_loop`, where it is an undefined shift.
--
-- A sum of signed integers is exact: within 2 ^ 53 milliseconds of 1970 nothing overflows, and a
-- `double` holds the time.
--
-- Not modelled: logging; the handlers that change the tables or the listeners while a loop goes
-- over them; `pushData` of a publication and the data packets of a listener, which need the data
-- formats; writers that are one object for all media; the destructors of `Sessions` and
-- `Listener`; `ToNumber` and `Format` of `String`; what `FromBase64` leaves in a buffer that it
-- refuses; the constructors, formats and parsing of `Date`; the choice of a stream in the
-- constructor of `RTMFPFlow`; the flushes at the end of `commit`, which belong to `FlashStream`
-- and `RTMFPWriter`; what a consumed fragment's reader looks like after it was copied;
-- `writeMember` and `writeMedia` of `RTMFPWriter`, its handlers and constructors; the encryption
-- of a packet and its sending by a thread; floating-point numbers, random bytes and addresses of
-- the reader and the writer; the encryption, the handshake, the choice of the writer and the
-- packets' handling of RTMP; the other protocols, the data formats, and all that is input, output
-- or threads.
pub mod Base
pub mod Buffer
pub mod Binary
pub mod Trigger
pub mod Quality
pub mod Rtmfp
pub mod Date
pub mod Util
pub mod Text
pub mod Pool
pub mod Sessions
pub mod Media
pub mod Ws
pub mod Rtmp
