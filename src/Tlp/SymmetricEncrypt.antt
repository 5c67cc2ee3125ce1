-- ===== src/Tlp/SymmetricEncrypt.antt =====
-- include/wawo/net/tlp/symmetric_encrypt.hpp: the framing, with every packet encrypted. The cipher is
-- the class `xxtea`, the only one there is.
pub mod Stream
mod Tests
use wawo.Prelude.{ℕ, Option, none, some, List, [], ◌∷◌, ◌>>=◌}
use wawo.Packet.{Packet}
use wawo.RingBuffer.{BytesRingbuffer}
use wawo.Xxtea.Cipher.{Xxtea, encrypt, decrypt}
use wawo.Tlp.HlenPacket.{HlenPacket, Session, ErrorCode, Outcome, raises, out_of_fuel, returns}
use wawo.Tlp.HlenPacket

pub record SymmetricEncrypt : Type 0 where
  pub hlen : HlenPacket
  pub m_cipher : Option Xxtea

-- `encode`.
unfoldable pub encode : SymmetricEncrypt → Packet → Option (ErrorCode × Option Packet)
encode e p = e.m_cipher >>= λ cipher. (encrypt cipher p >>= HlenPacket.encode)

-- The loop over the packets that arrived. `decrypt` answers OK or raises, so no code breaks it.
pub decrypt_all : Xxtea → List Packet → Option (List Packet)
decrypt_all cipher [] = some []
decrypt_all cipher (p ∷ ps) =
    decrypt cipher p >>= λ q. (decrypt_all cipher ps >>= λ qs. some (q ∷ qs))

unfoldable pub decrypted : Xxtea → Outcome → Outcome
decrypted cipher raises = raises
decrypted cipher out_of_fuel = out_of_fuel
decrypted cipher (returns ec s) = elim (decrypt_all cipher s.arrives) [
  | none ↦ raises
  | some ps ↦ returns ec (record s { arrives = ps })
]

-- `decode_packets`.
pub decode_packets : SymmetricEncrypt → BytesRingbuffer → ℕ → Outcome
decode_packets e r size = elim e.m_cipher [
  | none ↦ raises
  | some cipher ↦ decrypted cipher (HlenPacket.decode_packets e.hlen r size)
]
