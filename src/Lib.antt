-- ===== src/Lib.antt =====
-- libcap_utils: reading, filtering and decoding captured packets of the DPMI.
--
-- The library reads a stream of packets, each behind a `struct cap_header`, from a file or from the
-- network (src/stream.c), decides for each packet whether the client's filter accepts it
-- (src/filter.c), and walks over the headers of a packet for the client (src/packet.c,
-- src/protocols/*.c). Timestamps are in picoseconds (src/picotime.c).
--
-- A packet is a function from offsets to bytes, and a pointer into it is an offset. Words are natural
-- numbers, and where the C arithmetic wraps, the wrap is written out.
--
-- - Prelude: tests, lists, words, bits and integers that all parts share.
-- - Time (src/picotime.c): timestamps. Time/Order is about `timecmp`, Time/Arithmetic about
--   `timepico_sub` and `timepico_add`, Time/Text about `timepico_from_string`.
-- - Text: the functions on text of the C library that the source uses (atoi, strtol, sscanf with %d,
--   strtok_r, strchr, strcasecmp), on lists of character codes.
-- - Packet (src/packet.c, src/filter.c): the searches for the IPv4, TCP and UDP header, and in
--   Packet/Size `payload_size` and `layer_size`. Packet/Ethertype has the table of Ethernet protocols
--   of src/utils.c.
-- - Filter (src/filter.c, caputils/filter.h): `struct filter`. Filter/Core has the tests and
--   `filter_core`, Filter/Match `filter_match` with its state, Filter/Frames the frame ranges against
--   the set of frames that they stand for, Filter/Gaps the longest time between frames, Filter/Wire `filter_pack` and `filter_unpack`,
--   Filter/Setters `filter_init` and the setters of src/createfilter.c, Filter/Address its
--   `parse_inet_addr`, Filter/Ranges `parse_frame_range`, Filter/Values the other parsers of values,
--   Filter/Arguments `split_argv`, and Filter/CommandLine `filter_from_argv`, which uses them all.
--   Filter/Texts has the setters that take a text, and `filter_close`. The libraries that they call are
--   the records `System` and `Libraries`.
-- - Protocol (src/protocols/*.c): the `next_payload` callbacks, the table of protocols in
--   Protocol/Descriptor, in Protocol/Walk `header_walk` of src/packet.c, and in
--   Protocol/TcpOptions the walk over TCP options, in Protocol/DnsName the names of DNS.
-- - Stream (src/stream.c, src/stream.h): `struct stream`. Stream/Fill has `fill_buffer`, Stream/Read
--   `stream_read`, with what it promises in Stream/Read/Spec, Stream/Peek `stream_peek`, and
--   Stream/Sequence the sequence numbers and sizes of measurement frames. A stream's callback is the
--   interface `Source`, the client's filter the interface `Matcher`.
-- - Stream/Ring (src/stream_buffer.c): the ring of measurement frames from the network. Ring/Queue has
--   the packets that it stands for, Ring/Fifo what a call of `stream_frame_buffer_read` does to them.
--   The callback that reads a frame is the interface `FrameSource`.
-- - SimpleList (src/slist.c): the list of keys that grows by doubling.
-- - Connection (src/packet/connection_id.c): `connection_id`. A pointer to a state names how often its
--   list had grown, and is good only until that grows again. Connection/Numbers has the numbers of
--   connections that the ids stand for, Connection/Runs a trace of calls, Connection/Handshake a new
--   SYN for a connection, and Connection/Stale one behind a list that has grown.
-- - Capmerge (tools/capmerge.c): the sorting of packets by their timestamps, and in Capmerge/Merge the
--   merging of capture files.
-- - Marker (src/marker.c, fallback/be64toh.c): the test for a marker of an experiment, and the byte
--   order of 64-bit words.
-- - Tests: concrete packets, filters, command lines and streams.
--
-- Loops run on fuel. `find_ipv4_header` needs a round for each VLAN tag, which the packet's bytes do
-- not bound: the search has no test of the captured length, so its fuel stays an argument. The fuel of
-- the other loops over a packet comes from its captured length, that of `timepico_add` from the
-- picoseconds, and `stream_read` and `stream_peek` take it as an argument.
--
-- The merging of capmerge takes a round for each packet and each stream, and its sorting one for each
-- packet, and one more.
--
-- Parameters, for code of other libraries: `bpf_filter` and the compiler of libpcap, `inet_ntoa`,
-- `inet_aton`, `ether_aton`, the `atoi` of a mask, `getopt_long`, the services and protocols of the
-- system, the numbers of `%hi`, `strptime` with `mktime`, and the callbacks that fill a stream or a
-- frame, with what src/stream.h and src/stream_buffer.h say of them. Not modelled: opening, writing
-- and closing of streams, the backends, the printing of packets, the MArCd client and the other
-- tools.
pub mod Prelude
pub mod Text
pub mod Time
pub mod Packet
pub mod Filter
pub mod Protocol
pub mod Stream
pub mod SimpleList
pub mod Connection
pub mod Capmerge
pub mod Marker
pub mod Tests
