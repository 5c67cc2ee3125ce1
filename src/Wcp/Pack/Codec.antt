-- ===== src/Wcp/Pack/Codec.antt =====
-- The codec of src/net/wcp.cpp, forth and back.
use wawo.Prelude.{
  ℕ, ◌+◌, ◌≤◌, ◌<◌, ◌^◌, ◌≡◌, refl, some, List, ◌++◌, arith, length, drop, take_all, append-nil,
  eq_nil,
}
use wawo.Bytes.{read_u16, read_u32, write_u16, write_u32, write_impl}
use wawo.Bytes.Laws.{read-write_impl}
use wawo.Wcp.Pack.{
  WcpHeader, WcbPack, Address, wcp_mdu, pack_to_udpmessage, pack_from_udpmessage, read_header,
}

-- What fits the fields of the header, and a `dlen` that is the number of the data's bytes.
pub record IsSendable (p : WcbPack) : Type 0 where
  pub seq_fits : p.header.seq < 2 ^ 32
  pub ack_fits : p.header.ack < 2 ^ 32
  pub wnd_fits : p.header.wnd < 2 ^ 32
  pub flag_fits : p.header.flag < 2 ^ 16
  pub dlen_exact : p.header.dlen ≡ length p.data_bytes
  pub dlen_fits : p.header.dlen ≤ wcp_mdu

read_u32-write : (n : ℕ) (rest : List ℕ) → n < 2 ^ 32 → read_u32 (write_u32 n ++ rest) ≡ n
unfolding read_u32 write_u32
read_u32-write n rest h = read-write_impl 4 n rest h

read_u16-write : (n : ℕ) (rest : List ℕ) → n < 2 ^ 16 → read_u16 (write_u16 n ++ rest) ≡ n
unfolding read_u16 write_u16
read_u16-write n rest h = read-write_impl 2 n rest h

-- The message of a header and data.
abbrev pub message : WcpHeader → List ℕ → List ℕ
message h bytes =
    write_u32 h.seq
    ++ (write_u32 h.ack ++ (write_u32 h.wnd ++ (write_u16 h.flag ++ (write_u16 h.dlen ++ bytes))))

pub length-message : (h : WcpHeader) (bytes : List ℕ) → length (message h bytes) ≡ 16 + length bytes
unfolding write_u32 write_u16 write_impl
length-message h bytes = omega arith

drop-message : (h : WcpHeader) (bytes : List ℕ) → drop 16 (message h bytes) ≡ bytes
unfolding write_u32 write_u16 write_impl
drop-message h bytes = refl

-- The message from the offset of each field on.
message_tails :
    (h : WcpHeader) (bytes : List ℕ)
    → let dlen_on = write_u16 h.dlen ++ bytes in
      let flag_on = write_u16 h.flag ++ dlen_on in
      let wnd_on = write_u32 h.wnd ++ flag_on in
      (drop 4 (message h bytes) ≡ write_u32 h.ack ++ wnd_on)
      × (drop 8 (message h bytes) ≡ wnd_on)
      × (drop 12 (message h bytes) ≡ flag_on)
      × (drop 14 (message h bytes) ≡ dlen_on)
unfolding write_u32 write_u16 write_impl
message_tails h bytes = (refl, refl, refl, refl)

module _ (p : WcbPack) (v : IsSendable p) where
  abbrev h : WcpHeader
  h = p.header

  read_header-message : (bytes : List ℕ) → read_header (message h bytes) ≡ h
  unfolding read_header
  read_header-message bytes = ground (
    arith,
    read_u32-write h.seq (drop 4 (message h bytes)) v.seq_fits,
    read_u32-write h.ack (drop 8 (message h bytes)) v.ack_fits,
    read_u32-write h.wnd (drop 12 (message h bytes)) v.wnd_fits,
    read_u16-write h.flag (drop 14 (message h bytes)) v.flag_fits,
    read_u16-write h.dlen bytes (omega arith),
    message_tails h bytes,
  )

  -- What is sent is the message of the header and the data.
  pack_to_udpmessage-eq : pack_to_udpmessage p ≡ some (message h p.data_bytes)
  unfolding pack_to_udpmessage
  pack_to_udpmessage-eq = ground (arith, append-nil (write_u16 0), eq_nil p.data_bytes)

-- A pack that fits the header's fields, with `dlen` the length of its data, is sent and received
-- with the same header and data.
pub from-to_udpmessage :
    (p : WcbPack) (from : Address)
    → IsSendable p
    → (pack_to_udpmessage p ≡ some (message p.header p.data_bytes))
      × (pack_from_udpmessage (message p.header p.data_bytes) from
          ≡ some (record { header = p.header; data_bytes = p.data_bytes; from = from }))
unfolding pack_from_udpmessage
from-to_udpmessage p from v = (
  pack_to_udpmessage-eq p v,
  ground (
    arith,
    read_header-message p v p.data_bytes,
    length-message p.header p.data_bytes,
    drop-message p.header p.data_bytes,
    take_all p.header.dlen p.data_bytes,
    eq_nil p.data_bytes,
  ),
)
