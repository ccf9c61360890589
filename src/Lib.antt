-- ===== src/Lib.antt =====
-- PTBridge: pluggable transports that carry TCP streams past a censor. This library models the parts
-- of the program that build and read bytes and that keep state.
--
-- Base: lists over the native numbers, Go's pair of a value and an error as one result, maps, slices
--   that panic out of range, big-endian words, and readers and writers: a reader is the bytes that it
--   still delivers and the error after them, a writer the bytes that it took and the number it still takes.
-- Encapsulation: snowflake/common/encapsulation/encapsulation.go. ReadData is read_data, WriteData
--   write_data, WritePadding write_padding, dataPrefixForLength data_prefix_for_length, MaxDataForSize
--   max_data_for_size. Format is the wire format of the package comment, written independently. The
--   fuel of read_data_loop is one more than the bytes of the input, as each round that goes on reads
--   one; that of write_padding_loop is the number of bytes left to write, as each round writes one.
-- Socks5: snowflake/common/socks5/socks5.go. HandshakeServer is handshake_server, in the parts
--   negotiate, read_request, read_host and read_port. Socks5/Wire is the client's side of RFC 1928.
-- Stream: snowflake/common/standalone/stream.go. WriteTarget is write_target and ReadTarget read_target;
--   both directions of a connection are a Conn of Socks5. Package net's ParseIP and String are the
--   parameter Net, with what is documented of them in the record IsNet.
-- Socks4: proxy/socks4a/socks4.go. Dial is dial, over the connection that the dialer in front gives; the
--   functions that take an address apart are the parameter Names.
-- Dpi: the HTTP transport of dpi/. Header, Request and Crypto are dpi/common; AES-GCM is the parameter
--   Aead, with its laws in IsAead, and the random source is a list of bytes that may run out.
--   Server is the upload handler and the client table of dpi/server/handler.go and server.go: a handler
--   runs as one step, what Dial gives is a parameter, and a connection is an entry of a list, so that two
--   clients can share it. Transport is dpi/client/transport.go: Connect, SendData and CloseConn over the
--   answers of http.Client.Do, given as a list. Download is the loop of handleDownload together with
--   streamReader.Read; the loop of Read has one more round than the body has bytes, as each round that
--   goes on reads four. Tunnel is tunnelConn of dpi/client/proxy.go, with pumpWrite as a function of
--   what its select takes, and pumpRead, Read and Close as steps (Tunnel/ReadPump); the flush
--   timer has three states, as a timer that fired is still held by the variable. Dns is the cache of
--   dpi/client/dns_resolver.go and its frames of DNS over TCP; a name is the cache's key, and what the
--   exchange gives is a parameter.
--
-- Turbotunnel: snowflake/common/turbotunnel. ClientMap is clientmap.go: SendQueue is send_queue and
--   removeExpired remove_expired, over container/heap's Push, Pop and Fix, which are written out; View
--   is the map from addresses to records that they stand for. The loops of heap.up, heap.down and
--   removeExpired have one round more than the index, which is halved, than the records, as an index
--   is doubled, and than the records, as a round takes one. PacketConn is queuepacketconn.go, with each
--   channel's packets under the channel's number. Redial is redialpacketconn.go: dialLoop and the two
--   goroutines of exchange are a step relation.
-- Session: snowflake/common/standalone: the dial of WrapWebSocketDial, encap.go, and serveHTTP of
--   handler.go, which joins Encapsulation and Turbotunnel. Its loop has one more round than there are bytes.
--   Sessions is the table of sessions of acceptSmux.
-- Startup: main/ptbridge.go and main/dpi.go: the loop over the server entries, ensureServerCerts with the
--   certificates of obfs/server/server.go, launchDpiServer, launchDpiClient and resolveServerIP.
-- Handlers: the goroutines of one connection in obfs, main/snowflake.go and standalone, as what they do in
--   order, given what the calls that they make return. A copy loop is the ends of its two goroutines and what
--   they close.
--
-- The parts meet in the messages: Dpi.Transport builds and encrypts what Dpi.Server decrypts and
-- handles, and Dpi.Download joins the server's writer of frames with the client's reader.
--
-- Not modelled: goroutines that run at once within a handler, except those of RedialPacketConn, of pumpRead
-- and of the copy loops; time, which is an argument; logging, sockets, TLS, and the glue to other libraries
-- (obfs4's transports, the KCP and smux sessions, websockets, JSON and flags); packing of DNS messages and
-- the timeouts of an exchange. After an error of ReadData or streamReader.Read the state of the reader is
-- not kept. A length that does not fit Go's int is not represented.
pub mod Base
pub mod Encapsulation
pub mod Socks5
pub mod Stream
pub mod Socks4
pub mod Dpi
pub mod Turbotunnel
pub mod Session
pub mod Startup
pub mod Handlers
