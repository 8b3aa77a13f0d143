-- ===== src/Lib.antt =====
-- AirShow is a receiver for screen mirroring: senders find it over mDNS, ask for a connection that the
-- user approves, and stream by one of several protocols into a GStreamer pipeline.
--
-- The parts and their files:
-- - Dns models src/discovery/DnsMessage.cpp, the wire format that the mDNS responder reads and writes.
--   Dns/Wire has the words of bytes, Dns/Name `readName` and the comparison of names, Dns/Message the
--   structs and the builders, Dns/Reader `parse`, Dns/Writer `serialize`. A packet is a list of bytes.
--   `readName` runs on fuel: 288 rounds are enough, since a jump is one of at most 32 and every other
--   round adds to a total that stops at 255.
-- - Settings models src/settings/AppSettings.cpp: the settings store is the record of its values.
-- - Security models src/security/SecurityManager.cpp: the requests, the two maps, what is queued for the
--   Qt thread and what callers are told; threads are events in any order. Security/Network has the local
--   addresses.
-- - AirShowHandler models src/protocol/AirShowHandler.cpp: handshake and framing. `handleStreamingData` is
--   on fuel, and `none` is a loop that has not ended; one round takes at least a byte or changes nothing.
-- - MiracastHandler models src/protocol/MiracastHandler.cpp: SourceReady the parser of MS-MICE messages,
--   Rtsp the RTSP texts, the parent the state machine. The handlers call the security manager through an
--   effect whose answer is an event (`on_approval` for the callback in `parseMiceMessage`).
-- - Dnssd models src/airplay/airshow_dnssd.c: TXT records as bytes, and as lists of entries in Dnssd/Txt.
-- - CastStreamingOffer models src/cast/CastStreamingOffer.cpp: offers, the choice of streams, answers.
-- - CastSession models src/protocol/CastSession.cpp: Framing cuts the stream, Dispatch has the approval and
--   the namespaces, Handlers what each does. The reading loop is on fuel, one round more than the buffer
--   has bytes. The answer of the security manager is an event, or comes at once.
-- - CastStreamingReceiver models src/cast/CastStreamingReceiver.cpp: Rtp and Frames collect and deliver
--   frames, Rtcp writes the reports, Session has the sockets' and timers' handlers. Frame identifiers are
--   stored 256 higher. The delivery loop is on fuel, one round for each frame that waits; that over RTCP
--   packets too, one round for each byte.
-- - DlnaHandler models src/protocol/DlnaHandler.cpp: Actions has the SOAP actions, Dispatch the choice and
--   the checks of the peer, Time the time texts; the parent has the jobs queued for the Qt thread and what
--   the pipeline and the display are told. Sync says what they make of the pipeline.
-- - MediaPipeline models the URI pipeline's states of src/pipeline/MediaPipeline.cpp.
-- - MdnsResponder models src/discovery/MdnsResponder.cpp: State has the core with what it has handed to
--   the socket and to single-shot timers, Records its records, Probing, Services, Answers, Conflicts and
--   Interfaces its operations, Machine the event loop that runs them. Clock readings and random delays
--   are arguments; an operation reads the clock once.
-- - Tests holds concrete runs; Prelude the tests and list lemmas that all share.
--
-- Functions keep the names of the source in snake case. A handler is a function from state to state; what
-- it does to sockets, the pipeline and the display is a list of effects in the state, latest first. An
-- `int` that a computation may take below zero is its 32-bit pattern. Containers and strings of Qt and
-- C++ are lists with their documented behaviour; JSON, Unicode, number parsing, GStreamer and addresses
-- are parameters.
--
-- Not modelled: windows, the web page, the rest of the media pipeline, the firewall and the advertisers,
-- which call libraries only; the AirPlay handler, which consists of callbacks of UxPlay; the sender application and
-- vendored code; and, for now, the protocol manager and the server of Cast connections.
pub mod Prelude
pub mod Dns
pub mod Settings
pub mod Security
pub mod AirShowHandler
pub mod MiracastHandler
pub mod DlnaHandler
pub mod MediaPipeline
pub mod Dnssd
pub mod CastSession
pub mod CastStreamingOffer
pub mod CastStreamingReceiver
pub mod MdnsResponder
pub mod Tests
