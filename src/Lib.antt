-- ===== src/Lib.antt =====
-- The RTSP client of z3_engine, as far as it is pure computation on its own state.
--
-- The client talks RTSP over TCP and receives media by RTP and RTCP over UDP. On a connect the session
-- sends OPTIONS; to each response it answers with the next request: DESCRIBE, a SETUP for each track,
-- PLAY. The DESCRIBE response carries an SDP text, whose media lines give the tracks and whose
-- attributes give the URLs of the SETUP requests. For a track the session makes a media session, which
-- takes a pair of UDP ports from the media ports, an even one for RTP and the next for RTCP, and the
-- SETUP request names them. Requests and responses are messages whose header fields stand in a small
-- array; a parser reads them line by line with the text routines, and the tables give methods, header
-- fields and status codes their texts. Received RTP packets are put together in the frame buffer,
-- received sender reports go to the reception statistics. The engine below (completion ports, sockets,
-- timers, threads) is calls of the operating system.
--
-- Which file models which part, sources under z3_rtsp_client/ where nothing else is said:
-- - Session: z3_rtsp_session.cpp, with WriteMsg and StartRead of z3_engine/z3_connector.cpp. Session
--   has the state and SendOptions, SendDescribe, SendSetup and SendPlay; Session/Respond has OnConnect,
--   Dispatch, InvokeStateMachine and OnOptionsRespond, OnDescribeRespond and OnSetupRespond;
--   Session/Url is SetRequestUrl with SetDestination. Session/Phase has the protocol: the phases,
--   which phase follows which, what a session has sent and keeps at a phase, and the URLs that its
--   SETUP requests have to name, by track. Session/Respond/Passes has what is left of the work on
--   an answer behind the assertions. A session is at the moment between two callbacks:
--   `on_connect` and `on_message` are the whole work of one callback, from the parsed message to
--   the write and the read that it starts, and `Reach` are the sessions that come of a new one by
--   such callbacks, a message only where a read is pending.
--   Session/Read is OnEvRead of z3_engine/z3_connector.cpp, which gives the bytes of a read to the parser
--   and a complete message to Dispatch; `Runs` are the parsers and sessions that come of such reads.
-- - Media: z3_rtsp_media.cpp, MediaSession with Init and RtspMedia with CreateMediaSession.
-- - Sdp: z3_sdp.cpp. Sdp has the data of a message and its setters and getters, Sdp/Line is ParseLine,
--   Sdp/Document is ParseString. `ctx.media`, a pointer into the message, is the place of the media.
-- - Ports: z3_media_ports.cpp. Ports/Bitmap is class Bitmap, Ports/Control is PortsCtl with SetRange,
--   SetReserved, GetOne and PutOne, Ports/Pairs is GetTwo, PutTwo, the entry points that hold the
--   lock, and MediaPorts. The states keep their bits as a function from the offset in the block.
--   Ports/Control/Invariant has the well-formed states: the counters account for every set bit.
-- - Text: z3_rtsp_def.cpp. Text/Lines has TrimRightSpace, strchomp, NormalizeLine, ParseString,
--   read_string and read_string_del; Text/Tables the methods and header fields with their lookups;
--   Text/Status RTSP_STATUS_AS_TEXT and RTSP_OPTIONS_AS_TEXT; Text/Version ParseProtocolVersion,
--   also the one of z3_rtsp_proto_parser.cpp.
-- - Packets: Packets/Rtcp is z3_rtcp_msg.cpp with z3_rtcp.hpp, Packets/Rtp is z3_rtp_msg.cpp with
--   z3_rtp.hpp, Packets/Stats is z3_rtp_reception_stats.cpp, Packets/Frame is z3_h264_frame.cpp.
-- - Message: z3_rtsp_msg.cpp. Message/Headers is RtspKeyValue, RtspKeyValueArray and the loops of
--   AddHeader, GetHeader and RemoveHeader; Message/Msg is RtspMsg with its request, response and data
--   objects and InitResponse, Message/Print is ToString with AppendHeaders. `_snprintf_s` with a text
--   that does not fit stops the program, and the date that is printed is an argument.
-- - Parser: z3_rtsp_proto_parser.cpp. Parser is ParseRequestLine and ParseResponseStatus,
--   Parser/Header is ParseLine, Parser/Stream is Parse. A C pointer into a line is the bytes from there
--   on; the loop that looks for the end of a value keeps the bytes it has passed. In Parse the buffer
--   is the bytes that were received and not consumed; what it holds behind them, and the three
--   variables that are not initialised, are an argument of each call, the record Leftover.
-- - Base: Booleans and tests on numbers, lists of bytes, and Outcome, the results of code: `ok` with
--   a value, `fault` for a failed `assert` or a read through NULL or outside the packet, `hangs` for
--   a loop that its fuel does not bring to an end.
-- The modules called Tests run the theorems at concrete inputs.
--
-- How the code is read: a build with assertions and with Z3_MEM_DEBUG, in which z3_strdup is
-- `_z3_strdup` of z3_utilib/z3_alloc.c and gives NULL for an empty text, on a little-endian machine
-- with 32-bit `int`, `unsigned int` and `size_t`. Strings are lists of bytes without their NUL. Machine
-- words wrap with `% 65536` and `% 4294967296`. What the allocator, the clock, the mutex and the
-- sockets answer are arguments or part of the state: the record World has the answers to the session's
-- writes and reads, those of the UDP sockets, the date, and the bytes that the stack holds behind a
-- short text. The format of `sscanf_s`, `strtok_s` and the comparison `_stricmp` are written out as the
-- C library has them. `isspace` is that of the C locale on bytes: the source gives it signed chars,
-- for which bytes from 128 on are undefined, or stop a debug library, and the model has no whitespace
-- among them.
--
-- Fuel: the loop of GetOne has one round for each port of the range, which is enough, as the theorem
-- on GetOne shows by giving a port. The loop of GetTwo has no bound in the source and takes the
-- number of rounds as an argument, in a session the field `rounds` of World. The loop over the values
-- of a header line has one round for each byte of the line, and so have the loop of SDPMessage's
-- ParseString for its text and the loop over the formats of a media line, with one more; each is
-- enough, since every round takes a byte off. The loop of Parse has three rounds more than the buffer
-- has bytes: a round takes bytes off, goes on to a later state, or is the last. The loop
-- over the Public headers has one round more than the message has headers.
--
-- Not modelled: the UDP sessions, which are above sockets; the engine and the C utilities, which
-- call the operating system; GenerateDateString, which reads the clock; the sample code of RFC 3550.
mod Base
pub mod Ports
pub mod Text
pub mod Packets
pub mod Message
pub mod Parser
pub mod Sdp
pub mod Media
pub mod Session
