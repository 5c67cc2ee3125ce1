-- ===== src/Tlp/DhSymmetricEncrypt/Tests.antt =====
-- The handshake of include/wawo/net/tlp/dh_symmetric_encrypt.hpp on concrete values.
use wawo.Prelude.{
  ℕ, List, [], ◌∷◌, ◌++◌, ◌≡◌, Option, none, some, refl, arith, inl, inr, replicate, ◌>>=◌, length,
  ◌-◌,
}
use wawo.RingBuffer.{BytesRingbuffer}
use wawo.Bytes.{write_impl}
use wawo.Packet.{Packet}
use wawo.Tlp.HlenPacket.{hlen_packet, ErrorCode, e_socket_empty_packet}
use wawo.Xxtea.Cipher.{Xxtea, set_key}
use wawo.Tlp.DhSymmetricEncrypt.{
  dh_symmetric_encrypt, DhState, dh_handshake, dh_data_transfer, e_tlp_handshaking,
  e_tlp_handshake_done, ok_packet, frame_type, framed, HandshakeCode, f_handshake_hello,
  handshake_packet_arrive, DhSymmetricEncrypt,
}
use wawo.Tlp.DhSymmetricEncrypt.Gate.{heard, Runs, opens_with, receives, Proven, data_needs_proof}
use wawo.Tlp.DhSymmetricEncrypt.Transfer.{
  DhStream, Decoded, decode_packets, Encoded, encode, encoded, shaking,
}
use wawo.Tlp.DhSymmetricEncrypt.Exchange.{Completes, handshake-Completes}

abbrev random : List ℕ
random = 17 ∷ 200 ∷ 3 ∷ 91 ∷ []

handshake-Completes_example : (c : List ℕ) × Completes 6 15 random random random random c
handshake-Completes_example =
    handshake-Completes 6 15 random random random random (omega arith) (omega arith) (omega arith)
      (omega arith) refl refl refl refl

-- A stream that hears a whole handshake.
abbrev opened : DhStream
opened = record { handshake = dh_symmetric_encrypt; hlen = hlen_packet 0 }

-- The other side's hello packet, with the public key 1.
abbrev hello_ring : BytesRingbuffer
hello_ring = record {
  m_capacity = 24;
  m_begin = 0;
  m_end = 20;
  m_buffer =
      0 ∷ 0 ∷ 0 ∷ 16 ∷ 64 ∷ 0 ∷ 32 ∷ 1 ∷ 0 ∷ 0 ∷ 0 ∷ 0 ∷ 0 ∷ 0 ∷ 0 ∷ 1 ∷ 1 ∷ 2 ∷ 1 ∷ 1 ∷ 9 ∷ 9 ∷ 9
      ∷ 9 ∷ [];
}

-- And the packet of the type F_HANDSHAKE_OK.
abbrev ok_ring : BytesRingbuffer
ok_ring = record {
  m_capacity = 24;
  m_begin = 0;
  m_end = 20;
  m_buffer =
      0 ∷ 0 ∷ 0 ∷ 16 ∷ 64 ∷ 0 ∷ 32 ∷ 3 ∷ 205 ∷ 23 ∷ 46 ∷ 54 ∷ 185 ∷ 71 ∷ 70 ∷ 194 ∷ 31 ∷ 170 ∷ 160
      ∷ 239 ∷ 9 ∷ 9 ∷ 9 ∷ 9 ∷ [];
}

-- The stream behind one and behind both, with the key that follows from 1.
abbrev shaken_stream : DhState → ℕ → DhStream
shaken_stream state garbage = record {
  handshake = record {
    m_dhstate = state;
    m_context = record {
      dhfactor = record { priv_key = 1; pub_key = 5 };
      ciphers = [];
      compress = [];
    };
    m_cipher = some (record {
      m_key = 0 ∷ 0 ∷ 0 ∷ 0 ∷ 0 ∷ 0 ∷ 0 ∷ 1 ∷ 122 ∷ 122 ∷ 122 ∷ 122 ∷ 122 ∷ 122 ∷ 122 ∷ 122 ∷ [];
    });
    m_cookie = none;
  };
  hlen = hlen_packet garbage;
}

abbrev after_hello : Decoded
after_hello = record {
  code = shaking e_tlp_handshaking;
  arrives = [];
  out =
      0 ∷ 0 ∷ 0 ∷ 14 ∷ 64 ∷ 0 ∷ 32 ∷ 2 ∷ 0 ∷ 0 ∷ 0 ∷ 0 ∷ 0 ∷ 0 ∷ 0 ∷ 5 ∷ 2 ∷ 1 ∷ 0 ∷ 0 ∷ 0 ∷ 16 ∷ 64
      ∷ 0 ∷ 32 ∷ 3 ∷ 205 ∷ 23 ∷ 46 ∷ 54 ∷ 185 ∷ 71 ∷ 70 ∷ 194 ∷ 31 ∷ 170 ∷ 160 ∷ 239 ∷ [];
  stream = shaken_stream dh_handshake 16;
  buffer = record hello_ring { m_begin = 0; m_end = 0 };
}

abbrev after_ok : Decoded
after_ok = record {
  code = shaking e_tlp_handshake_done;
  arrives = [];
  out = [];
  stream = shaken_stream dh_data_transfer 16;
  buffer = record ok_ring { m_begin = 0; m_end = 0 };
}

hears_both :
    (decode_packets (1 ∷ []) random random opened hello_ring 1 ≡ some after_hello)
    × (decode_packets [] random random (shaken_stream dh_handshake 16) ok_ring 1 ≡ some after_ok)
unfolding wawo.Tlp.DhSymmetricEncrypt.Transfer.decode_packets
    wawo.Tlp.DhSymmetricEncrypt.Transfer.by_state wawo.Tlp.DhSymmetricEncrypt.Transfer.shaken
    wawo.Tlp.DhSymmetricEncrypt.Transfer.shake wawo.Tlp.HlenPacket.decode_packets
    wawo.Tlp.HlenPacket.decode_loop wawo.Tlp.HlenPacket.turn wawo.Tlp.HlenPacket.read_len
    wawo.Tlp.HlenPacket.take_len wawo.Tlp.HlenPacket.read_content wawo.Tlp.HlenPacket.arrive
    wawo.Tlp.HlenPacket.read_packet wawo.Packet.fresh_cells wawo.Packet.capacity wawo.Packet.len
    wawo.Packet.left_left_capacity wawo.Packet.left_right_capacity wawo.Packet.init
    wawo.Packet.extend_leftbuffer_capacity wawo.Packet.extend_rightbuffer_capacity
    wawo.Packet.extend_left_while wawo.Packet.extend_right_while wawo.Packet.write_left
    wawo.Packet.write wawo.Packet.forward_write_index wawo.Packet.contents wawo.RingBuffer.reset
    wawo.RingBuffer.is_empty wawo.RingBuffer.is_full wawo.RingBuffer.capacity wawo.RingBuffer.count
    wawo.RingBuffer.left_capacity wawo.RingBuffer.skip wawo.RingBuffer.copied wawo.RingBuffer.read
    wawo.RingBuffer.peek wawo.RingBuffer.try_read_u32_t wawo.RingBuffer.read_u32_t
    wawo.Bytes.write_impl wawo.Bytes.read_loop wawo.Bytes.read_impl wawo.Bytes.read_u32
    wawo.Bytes.write_u32 wawo.Obfuscate.obfuscated_bit wawo.Obfuscate.obfuscated_byte
    wawo.Obfuscate.obfuscate_from wawo.Obfuscate.deobfuscate_from wawo.Xxtea.mx wawo.Xxtea.last
    wawo.Xxtea.encrypt_from wawo.Xxtea.encrypt_round wawo.Xxtea.encrypt_rounds
    wawo.Xxtea.wikipedia_btea_encrypt wawo.Xxtea.decrypt_from wawo.Xxtea.decrypt_round
    wawo.Xxtea.decrypt_rounds wawo.Xxtea.wikipedia_btea_decrypt wawo.Xxtea.xxtea_to_uint32_array
    wawo.Xxtea.xxtea_to_bytes_array wawo.Xxtea.xxtea_encrypt wawo.Xxtea.xxtea_decrypt
    wawo.Xxtea.Cipher.set_key wawo.Dh.add_mod wawo.Dh.mulmod_loop wawo.Dh.q_mulmod
    wawo.Dh.powmod_loop wawo.Dh.q_powmod wawo.Dh.dh_generate_factor wawo.Dh.dh_generate_key
    wawo.Tlp.DhSymmetricEncrypt.choose_factor wawo.Tlp.DhSymmetricEncrypt.make_cipher
    wawo.Tlp.DhSymmetricEncrypt.ok_packet wawo.Tlp.DhSymmetricEncrypt.answer_hello
    wawo.Tlp.DhSymmetricEncrypt.hello_arrive wawo.Tlp.DhSymmetricEncrypt.resp_arrive
    wawo.Tlp.DhSymmetricEncrypt.ok_arrive wawo.Tlp.DhSymmetricEncrypt.handshake_packet_arrive
    wawo.Prelude.Memory.blit
hears_both = (refl, refl)

-- Two bytes to send.
abbrev two_bytes : Packet
two_bytes = record {
  m_buffer = 0 ∷ 0 ∷ 7 ∷ 8 ∷ [];
  m_left_capacity = 2;
  m_read_idx = 2;
  m_right_capacity = 2;
  m_write_idx = 4;
}

sealed : Option Encoded → ErrorCode × Option Packet
sealed (some (encoded ec q)) = (ec, q)
sealed _ = (e_socket_empty_packet, none)

sends_two :
    encode (shaken_stream dh_data_transfer 16) two_bytes
    ≡ some (
        encoded
          (sealed (encode (shaken_stream dh_data_transfer 16) two_bytes)).0
          (sealed (encode (shaken_stream dh_data_transfer 16) two_bytes)).1)
unfolding sealed wawo.Tlp.DhSymmetricEncrypt.Transfer.encode wawo.Tlp.SymmetricEncrypt.encode
    wawo.Tlp.HlenPacket.encode wawo.Xxtea.Cipher.encrypt
    wawo.Tlp.DhSymmetricEncrypt.Transfer.decode_packets
    wawo.Tlp.DhSymmetricEncrypt.Transfer.by_state wawo.Tlp.DhSymmetricEncrypt.Transfer.shaken
    wawo.Tlp.DhSymmetricEncrypt.Transfer.shake wawo.Tlp.HlenPacket.decode_packets
    wawo.Tlp.HlenPacket.decode_loop wawo.Tlp.HlenPacket.turn wawo.Tlp.HlenPacket.read_len
    wawo.Tlp.HlenPacket.take_len wawo.Tlp.HlenPacket.read_content wawo.Tlp.HlenPacket.arrive
    wawo.Tlp.HlenPacket.read_packet wawo.Packet.fresh_cells wawo.Packet.capacity wawo.Packet.len
    wawo.Packet.left_left_capacity wawo.Packet.left_right_capacity wawo.Packet.init
    wawo.Packet.extend_leftbuffer_capacity wawo.Packet.extend_rightbuffer_capacity
    wawo.Packet.extend_left_while wawo.Packet.extend_right_while wawo.Packet.write_left
    wawo.Packet.write wawo.Packet.forward_write_index wawo.Packet.contents wawo.RingBuffer.reset
    wawo.RingBuffer.is_empty wawo.RingBuffer.is_full wawo.RingBuffer.capacity wawo.RingBuffer.count
    wawo.RingBuffer.left_capacity wawo.RingBuffer.skip wawo.RingBuffer.copied wawo.RingBuffer.read
    wawo.RingBuffer.peek wawo.RingBuffer.try_read_u32_t wawo.RingBuffer.read_u32_t
    wawo.Bytes.write_impl wawo.Bytes.read_loop wawo.Bytes.read_impl wawo.Bytes.read_u32
    wawo.Bytes.write_u32 wawo.Obfuscate.obfuscated_bit wawo.Obfuscate.obfuscated_byte
    wawo.Obfuscate.obfuscate_from wawo.Obfuscate.deobfuscate_from wawo.Xxtea.mx wawo.Xxtea.last
    wawo.Xxtea.encrypt_from wawo.Xxtea.encrypt_round wawo.Xxtea.encrypt_rounds
    wawo.Xxtea.wikipedia_btea_encrypt wawo.Xxtea.decrypt_from wawo.Xxtea.decrypt_round
    wawo.Xxtea.decrypt_rounds wawo.Xxtea.wikipedia_btea_decrypt wawo.Xxtea.xxtea_to_uint32_array
    wawo.Xxtea.xxtea_to_bytes_array wawo.Xxtea.xxtea_encrypt wawo.Xxtea.xxtea_decrypt
    wawo.Xxtea.Cipher.set_key wawo.Dh.add_mod wawo.Dh.mulmod_loop wawo.Dh.q_mulmod
    wawo.Dh.powmod_loop wawo.Dh.q_powmod wawo.Dh.dh_generate_factor wawo.Dh.dh_generate_key
    wawo.Tlp.DhSymmetricEncrypt.choose_factor wawo.Tlp.DhSymmetricEncrypt.make_cipher
    wawo.Tlp.DhSymmetricEncrypt.ok_packet wawo.Tlp.DhSymmetricEncrypt.answer_hello
    wawo.Tlp.DhSymmetricEncrypt.hello_arrive wawo.Tlp.DhSymmetricEncrypt.resp_arrive
    wawo.Tlp.DhSymmetricEncrypt.ok_arrive wawo.Tlp.DhSymmetricEncrypt.handshake_packet_arrive
    wawo.Prelude.Memory.blit
sends_two = refl

all_heard : List (List ℕ)
all_heard = heard (shaken_stream dh_handshake 16) ok_ring ++ (heard opened hello_ring ++ [])

all_heard-Runs : Runs all_heard (shaken_stream dh_data_transfer 16)
unfolding all_heard
all_heard-Runs =
    receives [] random random ok_ring 1 after_ok
      (receives (1 ∷ []) random random hello_ring 1 after_hello (opens_with (hlen_packet 0))
        hears_both.0)
      hears_both.1

data_needs_proof_example : Proven all_heard (shaken_stream dh_data_transfer 16)
data_needs_proof_example =
    data_needs_proof all_heard (shaken_stream dh_data_transfer 16) all_heard-Runs (
      inr (
        two_bytes,
        (sealed (encode (shaken_stream dh_data_transfer 16) two_bytes)).0,
        (sealed (encode (shaken_stream dh_data_transfer 16) two_bytes)).1,
        sends_two,
      ))
