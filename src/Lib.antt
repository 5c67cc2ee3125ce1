-- ===== src/Lib.antt =====
-- The verification library of wawo, a C++ network library. It models the program's own reliable
-- transport, WCP, which runs on UDP datagrams, from the byte codec up to the life of a connection; the
-- packets that users send and their framing on streams; the streams that share one socket; and the
-- cipher XXTEA and the key exchange.
--
-- The parts and how they interact:
--
--  * Bytes models include/wawo/bytes_helper.hpp: integers as big-endian bytes. Every header field and
--    every number in a SACK pack goes through it.
--  * RingBuffer models include/wawo/bytes_ringbuffer.hpp: the class `bytes_ringbuffer` is the record
--    `BytesRingbuffer`, and `read`, `peek`, `try_read`, `skip` and `write` are functions of those names.
--    A connection has three: `rb` for its reader, `rb_standby` that packs are delivered to, and `sb`
--    with what the user wrote.
--  * Packet models include/wawo/packet.hpp: the class `packet` is the record `Packet`. The bytes of a
--    message stand between its two indices, and both ends grow (`extend_left_while`,
--    `extend_right_while`).
--  * Tlp.HlenPacket models include/wawo/net/tlp/hlen_packet.hpp, which cuts packets out of the ring of
--    a stream: `turn` is one round of the loop of `decode_packets`, with its two parse states, and
--    `encode` puts the length before a packet. It runs on the ring and makes packets.
--  * Tlp.SymmetricEncrypt models include/wawo/net/tlp/symmetric_encrypt.hpp, the framing with a cipher
--    around every packet, and Tlp.Stream include/wawo/net/tlp/stream.hpp, which cuts a stream in pieces.
--  * Tlp.DhSymmetricEncrypt models include/wawo/net/tlp/dh_symmetric_encrypt.hpp, the handshake before
--    an encrypted stream: one function for each packet that arrives, on packets as lists of bytes.
--    Transfer has its `encode` and `decode_packets`, which run on the framing and, once the handshake
--    is done, on the encrypted framing. Obfuscate models include/wawo/security/obfuscate.hpp,
--    which hides the types of its frames.
--  * Dh models include/wawo/math/formula.hpp and include/wawo/security/dh.hpp: the product and the
--    power modulo a number on u64_t, and the exchange of keys made with them.
--  * Xxtea models include/wawo/security/xxtea.hpp, the cipher that streams can be encrypted with: the
--    array of u32_t is a list, and a round goes over it as the loops over `p` do. Xxtea.Cipher has the
--    class `xxtea`, which works on packets.
--  * Wcp.Flag, Wcp.Pack and Wcp.Types model the flags, packs, constants and `struct WCB` of
--    include/wawo/net/wcp.hpp, and the two codec macros at the top of src/net/wcp.cpp. `Wcp.Queue` has
--    the packs that a block makes (SYN to update_rwnd), `Wcp.Rtt` has `_check_cwnd` and
--    `_handle_pack_acked`.
--  * Wcp.Net models `inject_to_address`, `reply_rst_to_address` and `WCB::send_pack` of src/net/wcp.cpp.
--  * Wcp.Pump models `WCB::pump_packs` and `WCB::recv_pack`, which make packs of the datagrams that
--    `recvfrom` answers, a parameter.
--  * Wcp.Recv models `WCB::check_recv`: `recv_all` takes the packs that arrived, `insert` (Recv.Insert)
--    sorts one into `rcv_received`, `ack_all` takes the acknowledgements, `deliver` (Recv.Deliver)
--    hands on what is in sequence, and `swap_rb` gives the filled ring to the reader.
--  * Wcp.Flights models `WCB::check_flights`, Wcp.Send models `WCB::check_send`.
--  * Wcp.State models `init`, `update`, `connect`, `shutdown`, `close`, `listen` and the buffer sizes;
--    `update` calls the three checks in the order of the code.
--  * Mux models include/wawo/net/peer/message/mux_cargo.hpp and src/net/peer/message/mux_cargo.cpp, many
--    streams over one socket: the class `stream` is the record `MuxStream`, with its operations in
--    Mux.Stream (`open` is `open_stream`) and `_flush` and `update` in Mux.Flush. Mux.Cargo models the
--    class `mux_cargo` of include/wawo/net/peer/mux_cargo.hpp, which owns the streams: Mux.Cargo.Arrive
--    has the packets that arrive, Mux.Cargo.Tick the ticks, `close` and `on_event`. A stream's bytes wait
--    in a ring of RingBuffer. Mux.Flow puts the two ends of a stream together with the messages between.
--  * Socket models how src/net/socket.cpp and src/net/socket_base.cpp send: `send`, `_flush` (here
--    `flush`), `handle_async_write` and `send_packet`, on the record `DataSocket`. `wire` has the bytes
--    that the kernel took.
--
-- How state and code correspond. A function that changes a block takes the block and returns the new
-- one. WAWO_ASSERT and WAWO_CONDITION_CHECK throw in every build, so a failed one is the result `none`.
-- The bits of `wcb_flag`, `r_flag` and `s_flag` are Booleans in a record. u32_t arithmetic is written
-- out with its wrap-around (`add32`, `sub32`), `sub64` for the clock. A list that stands for a queue
-- has its front first. `snd_flights` and `snd_sending` hold copies where the code holds the same
-- shared pack, and what a send writes to a pack is written to the copy in each of them. The two
-- entries that SACK pushes for one pack are copies too: the bit WCP_FLAG_WND that `check_send` sets on
-- the front entry is not seen in the second, which the code's shared pack would show. `rcv_received`
-- during `deliver` is the argument of the loop. In WCP and in the handshake a
-- packet is the list of its bytes, and so in the multiplexer; elsewhere it is the record with its
-- indices. The map of streams is a list in the order of the ids, and the events that the multiplexer
-- triggers or schedules are logged in one list.
--
-- What is outside: the socket is a parameter. `net n` is what `sendto` answers to the n-th message,
-- and `outp` logs what was handed to it; in the multiplexer `net n` is what the n-th `send_packet`
-- answers, and `sent` has the packets that were taken; `connectrt` is what the socket's `connect` answers. For sockets
-- `sys n len` is what the n-th call of `::send` answers for `len` bytes. One
-- reading of the clock, `now`, serves a whole `update`. Locks, condition variables and traces are left
-- out: each function is one step. `random_u64` and
-- `random_u32` are parameters, and memory is never short. Buffers that `malloc` returns are filled with
-- the letter i, those of packets with w, as in the debug build.
--
-- Bounds and fuel. `check_send` starts over at `_begin_send` as long as packs are left: `send_rounds`
-- counts these rounds down, and says `out_of_fuel` apart from every other result. `cut_packs` runs at
-- most once for every byte that `sb` holds, since each round reads one or more, and `sack_packs` at
-- most once for every byte to send. The loop of `decode_packets` takes at least one byte out of the ring
-- in every round but the last, so it has one round more than the ring has bytes. Q_mulmod and Q_powmod
-- shift one of 64 bits out in every round. A packet is extended as often as its maximum allows.
-- The loop of `_flush` makes one round at most that sends, and one that stops. The loops of the
-- multiplexer that wait for its streams to end take the number of rounds as an argument, and say whether
-- they ended. Sending on a socket calls `::send` at most once for every byte, which is enough if no
-- signal interrupts a call, and `_flush` makes at most one round for every byte that waits, and two. All
-- other loops run over lists.
--
-- Not modelled: the branch of LISTEN in `update` with `listen_handle_syn`, which opens
-- sockets; the wait of a blocking `connect`; the calls by descriptor and the
-- polling of src/net/wcp.cpp; the prefix symbol of the framing, which is off by default; and the other
-- parts of the library (other peers, opening sockets and receiving on them, observers, threads), `do_send_message` of the
-- multiplexer, which only asserts, and calls of a stream by a user who holds it after it was erased. Of the handshake,
-- `handshake_assign_cookie` is left out, which writes over memory that it did not allocate.
pub mod Prelude
pub mod Bytes
pub mod RingBuffer
pub mod Xxtea
pub mod Packet
pub mod Tlp
pub mod Obfuscate
pub mod Dh
pub mod Mux
pub mod Socket
pub mod Wcp
