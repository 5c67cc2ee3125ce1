-- ===== src/Wcp/Pump.antt =====
-- `WCB::pump_packs` and `WCB::recv_pack` of src/net/wcp.cpp: datagrams of the socket become packs.
-- What `recvfrom` answers is a parameter.
pub mod Packs
use wawo.Prelude.{
  Bool, true, false, Option, some, none, List, [], ◌∷◌, ◌++◌, leb, length, if◌then◌else◌, assert,
  ◌>>=◌, ◌>>◌, ℕ,
}
use wawo.Wcp.Pack.{Address, WcbReceivedPack, pack_from_udpmessage, wcp_header_len}
use wawo.Wcp.Types.{Wcb, Errno, ok, e_socket_recv_block, ReadFlag}

-- A datagram with its sender, or the code of a failure.
pub data Received : Type 0 where
  datagram : List ℕ → Address → Received
  failed : Errno → Received

abbrev pub is_recv_block : Errno → Bool
is_recv_block e_socket_recv_block = true
is_recv_block _ = false

-- The pack of a datagram.
unfoldable pub inpack : List ℕ → Address → Option WcbReceivedPack
inpack buffer from = assert (leb wcp_header_len (length buffer)) >> pack_from_udpmessage buffer from

-- The loop, over the datagrams that `recvfrom` answers, and the code of its first failure.
unfoldable pub pump_packs : List (List ℕ × Address) → Errno → Wcb → Option Wcb
pump_packs [] ec w = some (
    if is_recv_block ec
    then w
    else record w { wcb_errno = ec; r_flag = record (w.r_flag) { recv_error = true } })
pump_packs ((buffer, from) ∷ more) ec w = inpack buffer from >>= λ p.
    pump_packs more ec (record w { received_vec_standby = w.received_vec_standby ++ (p ∷ []) })

-- The code, and the pack.
unfoldable pub recv_pack : Received → Option (Errno × Option WcbReceivedPack)
recv_pack (failed ec) = some (ec, none)
recv_pack (datagram buffer from) = inpack buffer from >>= λ p. some (ok, some p)
