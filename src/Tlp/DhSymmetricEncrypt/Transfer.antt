-- ===== src/Tlp/DhSymmetricEncrypt/Transfer.antt =====
-- `encode` and `decode_packets` of include/wawo/net/tlp/dh_symmetric_encrypt.hpp, which choose by the
-- state between the handshake and the encrypted framing.
use wawo.Prelude.{ℕ, Option, none, some, List, [], ◌∷◌, ltb, if◌then◌else◌, ◌>>=◌, ◌>>◌, assert}
use wawo.RingBuffer.{BytesRingbuffer}
use wawo.Packet.{Packet, begin_len}
use wawo.Tlp.HlenPacket.{HlenPacket, ErrorCode, Outcome, raises, out_of_fuel, returns}
use wawo.Tlp.HlenPacket
use wawo.Tlp.SymmetricEncrypt
use wawo.Tlp.DhSymmetricEncrypt.{
  DhSymmetricEncrypt, HandshakeCode, DhState, dh_idle, dh_handshake, dh_data_transfer,
  dh_change_key, dh_error, is_data_transfer, handshake_packet_arrive,
}

-- The object with the framing that it inherits from.
pub record DhStream : Type 0 where
  pub handshake : DhSymmetricEncrypt
  pub hlen : HlenPacket

-- What `encode` answers.
pub data Encoded : Type 0 where
  e_tlp_invalid_state : Encoded
  encoded : ErrorCode → Option Packet → Encoded

unfoldable pub encode : DhStream → Packet → Option Encoded
encode d p =
    let sealed =
      SymmetricEncrypt.encode (record { hlen = d.hlen; m_cipher = d.handshake.m_cipher }) p
      >>= λ (ec, q). some (encoded ec q) in
    if is_data_transfer d.handshake.m_dhstate then sealed else some e_tlp_invalid_state

-- The code that `decode_packets` sets: none in the states that are not implemented.
pub data DecodedCode : Type 0 where
  unset : DecodedCode
  framing : ErrorCode → DecodedCode
  shaking : HandshakeCode → DecodedCode

-- The code, the packets that the returned count covers (the handshake's own packet stays in the
-- caller's array, behind a count of 0), the packet to send back, and the state.
pub record Decoded : Type 0 where
  pub code : DecodedCode
  pub arrives : List Packet
  pub out : List ℕ
  pub stream : DhStream
  pub buffer : BytesRingbuffer

-- A packet of the handshake, if one is there.
unfoldable pub shake :
    List ℕ
    → List ℕ
    → List ℕ
    → DhStream
    → ErrorCode
    → HlenPacket.Session
    → List Packet
    → Option Decoded
shake randoms r1 r2 d ec s [] = some (record {
  code = framing ec;
  arrives = [];
  out = [];
  stream = record d { hlen = s.hlen };
  buffer = s.buffer;
})
shake randoms r1 r2 d ec s (p ∷ more) = begin_len p >>= λ bytes.
    handshake_packet_arrive randoms r1 r2 bytes d.handshake >>= λ (code, out, e). some (record {
      code = shaking code;
      arrives = [];
      out = out;
      stream = record { handshake = e; hlen = s.hlen };
      buffer = s.buffer;
    })

unfoldable pub shaken : List ℕ → List ℕ → List ℕ → DhStream → Outcome → Option Decoded
shaken randoms r1 r2 d raises = none
shaken randoms r1 r2 d out_of_fuel = none
shaken randoms r1 r2 d (returns ec s) = shake randoms r1 r2 d ec s s.arrives

unfoldable pub transferred : DhStream → Outcome → Option Decoded
transferred d raises = none
transferred d out_of_fuel = none
transferred d (returns ec s) = some (record {
  code = framing ec;
  arrives = s.arrives;
  out = [];
  stream = record d { hlen = s.hlen };
  buffer = s.buffer;
})

-- The `switch` on the state.
unfoldable pub by_state :
    DhState → Option Decoded → Option Decoded → Option Decoded → Option Decoded
by_state dh_idle shaking_out transfer idle = shaking_out
by_state dh_handshake shaking_out transfer idle = shaking_out
by_state dh_data_transfer shaking_out transfer idle = transfer
by_state dh_change_key shaking_out transfer idle = idle
by_state dh_error shaking_out transfer idle = idle

-- `decode_packets`. A framing without fuel is `none`; the fuel that it is given is enough.
unfoldable pub decode_packets :
    List ℕ → List ℕ → List ℕ → DhStream → BytesRingbuffer → ℕ → Option Decoded
decode_packets randoms r1 r2 d r size =
    by_state d.handshake.m_dhstate (shaken randoms r1 r2 d (HlenPacket.decode_packets d.hlen r 1))
      (assert (ltb 0 size)
        >> transferred d (
            SymmetricEncrypt.decode_packets
              (record { hlen = d.hlen; m_cipher = d.handshake.m_cipher }) r size))
      (some (record { code = unset; arrives = []; out = []; stream = d; buffer = r }))
