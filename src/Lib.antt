-- ===== src/Lib.antt =====
-- Verification library of the RTSP streaming server.
--
-- Parts and files:
-- - Base: the names and lemmas that all parts share. Base/Test has the Boolean tests, Base/Array
--   lists with native lengths, Base/Result what a call leaves: a value, or the way it fails.
-- - BufferQueue: bufferqueue.c, the queue between the demuxer, which puts media buffers, and the
--   RTP sessions, which consume them at their own pace. `Producer` and `Consumer` are the C
--   structures; `put`, `get`, `move`, `consumer_new`, `consumer_free`, `reset_queue` and `unseen`
--   are the functions `bq_producer_*` and `bq_consumer_*`. List nodes have addresses, so that a
--   read through a pointer to a freed node is a failure of the model. World has the invariant and
--   the abstract view of a consumer, Refine, Feed and Free that each operation implements its
--   abstract counterpart, Reach that any history of calls keeps the invariant, Filling a queue that is
--   only fed.
-- - Protocol: rfc822proto.h, rfc822proto-constants.h and rfc822_response.c: requests, responses
--   and their header tables. Sent has rfc822proto.c and the text that rfc822_response_send makes,
--   Framed, Names and Split how a receiver splits it. Client: the client and session objects of
--   rtsp.h.
-- - Interleaved: rtsp_interleaved.c, packets framed inside the RTSP connection. Frames has the
--   round trip, Channels the allocation of channels.
-- - Machine: rtsp_state_machine.c. `handler` is RTSP_handler, `handle_new`, `handle_headers`,
--   `handle_content` and `handle_request` the functions of those names, `process_complete` is
--   rtsp_process_complete. The parsers that are generated, the methods and the HTTP states are
--   parameters, and `Fair` is what the lemmas rely on. Turns and Loop have the end of the loop, Ends
--   the same with the methods of the program, up to an HTTP state, and a parser whose request lines
--   end within the input. Packets has what the loop makes of interleaved packets, Requests of
--   repeated and complete requests, and Aborts two kinds of request that end the server.
-- - Methods: the checks of rtsp_utils.c, rtsp_method_options.c, rtsp_method_teardown.c,
--   rtsp_method_pause.c, rtsp_method_play.c, and what these change of the sessions of rtp.c.
--   `do_play` is RTSP_play, and so for the others; `method_table` is the table that Machine calls,
--   over DESCRIBE and SETUP. Setup is rtsp_method_setup.c with the start of an RTP session in rtp.c,
--   Describe rtsp_method_describe.c. Kept, Played and Ready have what each method keeps, Table the
--   same of PLAY, Served of all of them together; Keeps and KeepsTable what they keep whatever fails.
--   r_open is that of Resource/Opening on a table of live resources, `attempt` has the addresses of
--   rtp_udp_transport, which frees them and tries again, and `pause_all` the calls of r_pause, which
--   fail by `deadlock` if they hang as Resource/Pausing shows. The time, the table and what the
--   system answers may be others at each request.
-- - Text: utilities.c, and the searches in texts that SETUP uses. Unreserved has the rule of RFC 3986.
-- - Resource: resource.c. Shelf is the table of live resources (r_open_hashed, r_close); Opening is
--   r_open with the memory of the path (r_open_direct, r_free), Ledger its calls one after the other;
--   Threads has the thread of the fill pool (r_read_cb) and the event loop (r_pause, r_stop_fill) as
--   steps on what they share, Pausing and Stopping what becomes of the two calls.
-- - Rtcp: rtcp.c. `pkt_sr_sdes` and `pkt_sr_bye` are rtcp_pkt_sr_sdes and rtcp_pkt_sr_bye, `handle`
--   is rtcp_handle. Received has the loop over packets, Compound and Sizes the reports.
-- - Rtp: rtp.c. `packet_send` is rtp_packet_send, and `write_cb` is rtp_write_cb on the queue of
--   BufferQueue and the reports of Rtcp. Packet has the bytes of a packet, Writer a call that has a
--   buffer to send, Finishing one that has none.
-- - Tunnel: http_tunnelling.c, the pairs of HTTP connections, with the end of a client in
--   rtsp_client.c. Handled has the HTTP states (HTTP_handle_headers, HTTP_handle_content,
--   HTTP_handle_idle), the loop of RTSP_handler over the clients of a pair, `world_handler`, and
--   rtsp_tcp_read_cb of rtsp_lowlevel.c. http_tunnel_initialise has no caller: Sealed and Reached have
--   what becomes of the connections while the table of pairs is NULL.
-- - Connection: the other sockets of rtsp_lowlevel.c and the timer of rtsp_client.c.
--   `write_data_queue`, `tcp_write_cb` and `client_ev_timeout` are the functions of those names, Order
--   has the order of what is sent. Udp is rtp_udp_transport, Ports what becomes of its descriptors,
--   Sessions what becomes of those of all RTP sessions of a client.
--
-- Across the parts: Methods/Answers, Methods/Selecting, Methods/Responses and Machine/Responses follow
-- the responses from the checks of a method up to the handling of a sequence of requests, and
-- Protocol/Echo the CSeq header in them. Methods/Timer, Methods/Timed and Methods/Stranded follow the
-- timer through the methods to client_ev_timeout. Machine/Shorter and Machine/Reading follow the input of a client from
-- the socket through the loop of RTSP_handler.
--
-- A call that fails, `fail` of an `Outcome`, is a server that stops: at a failed assertion, at a
-- null pointer, at a pointer to freed memory, at a read past the end of the bytes received, or in a
-- deadlock.
--
-- Bounds and fuel: the serials of buffers wrap at 2 ^ 16 and the counters at 2 ^ 64, as in the
-- code. The only loop of the queue, in `consumer_free`, runs on fuel, two more than the length of
-- the queue; that this is enough is part of the theorem on `consumer_free`. The loop of
-- rtcp_handle runs on fuel; more turns than bytes are enough. The loop of
-- RTSP_handler runs on fuel too; three turns for a byte of input, and at most three more, are enough;
-- with the 5000 bytes that rtsp_tcp_read_cb lets in, that is 15003. The loop over the clients of a
-- tunnel, `world_handler`, has fuel of which nothing is said but that each step uses one.
--
-- Not modelled: the locks of the queue (each operation holds the producer's lock throughout, so it is
-- one step), logging, the event loop, the acceptance of
-- connections, the sending of packets on UDP sockets, the event loop that HTTP_handle_idle runs, the demuxer back ends, the media threads that PLAY
-- and PAUSE wake, the parsers that are generated from a grammar outside the repository, and the
-- configuration library, a copy of another project's.
pub mod Base
pub mod BufferQueue
pub mod Client
pub mod Connection
pub mod Interleaved
pub mod Machine
pub mod Methods
pub mod Protocol
pub mod Resource
pub mod Rtcp
pub mod Rtp
pub mod Text
pub mod Tunnel
