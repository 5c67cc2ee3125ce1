-- ===== src/Wcp/Pack.antt =====
-- WCP packs and their form on the wire: the macros at the top of src/net/wcp.cpp.
pub mod Codec
use wawo.Prelude.{
  ℕ, ◌+◌, ◌-◌, ◌*◌, ◌/◌, ◌%◌, ◌^◌, Bool, Option, some, List, [], ◌++◌, leb, ◌==◌, if◌then◌else◌,
  ◌>>=◌, ◌>>◌, assert, length, take, drop,
}
use wawo.Bytes.{read_u16, read_u32, write_u16, write_u32}

abbrev pub wcp_mtu : ℕ
wcp_mtu = 1400

abbrev pub wcp_header_len : ℕ
wcp_header_len = 16

abbrev pub wcp_mdu : ℕ
wcp_mdu = wcp_mtu - wcp_header_len

pub record WcpHeader : Type 0 where
  pub seq : ℕ
  pub ack : ℕ
  pub wnd : ℕ
  pub flag : ℕ
  pub dlen : ℕ

-- An address of a peer.
pub record Address : Type 0 where
  pub ip : ℕ
  pub port : ℕ

-- `data` holds the bytes of the packet; a null pointer holds none.
pub record WcbPack : Type 0 where
  pub header : WcpHeader
  pub data_bytes : List ℕ
  pub sent_ts : ℕ
  pub sent_times : ℕ

pub record WcbReceivedPack : Type 0 where
  pub header : WcpHeader
  pub data_bytes : List ℕ
  pub from : Address

-- WCPPACK_TO_UDPMESSAGE.
unfoldable pub pack_to_udpmessage : WcbPack → Option (List ℕ)
pack_to_udpmessage pack =
    let h = pack.header in
    let len = length pack.data_bytes in
    let tail = if len == 0 then write_u16 0 else write_u16 (len % 2 ^ 16) ++ pack.data_bytes in
    assert (leb len wcp_mdu)
    >> some
        (write_u32 h.seq ++ (write_u32 h.ack ++ (write_u32 h.wnd ++ (write_u16 h.flag ++ tail))))

-- The header's fields, at their offsets.
unfoldable pub read_header : List ℕ → WcpHeader
read_header mbuffer = record {
  seq = read_u32 mbuffer;
  ack = read_u32 (drop 4 mbuffer);
  wnd = read_u32 (drop 8 mbuffer);
  flag = read_u16 (drop 12 mbuffer);
  dlen = read_u16 (drop 14 mbuffer);
}

-- WCP_RECEIVED_PACK_FROM_UDPMESSAGE, with the sender's address.
unfoldable pub pack_from_udpmessage : List ℕ → Address → Option WcbReceivedPack
pack_from_udpmessage mbuffer from =
    let h = read_header mbuffer in
    let with_data =
      assert (leb h.dlen wcp_mdu)
      >> (assert (h.dlen == length mbuffer - wcp_header_len)
          >> some (record {
            header = h;
            data_bytes = take h.dlen (drop wcp_header_len mbuffer);
            from = from;
          })) in
    assert (leb wcp_header_len (length mbuffer))
    >> (if h.dlen == 0
        then some (record { header = h; data_bytes = []; from = from })
        else with_data)
