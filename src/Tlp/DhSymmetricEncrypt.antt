-- ===== src/Tlp/DhSymmetricEncrypt.antt =====
-- include/wawo/net/tlp/dh_symmetric_encrypt.hpp: the handshake that exchanges the key of an encrypted
-- stream, as compiled with obfuscation. A packet is the list of its bytes. `none` is an assertion
-- that fails, memory used out of its bounds or before it is written, or no random number left.
pub mod Handshake
pub mod Complete
pub mod Exchange
pub mod Transfer
pub mod Gate
mod Tests
use wawo.Prelude.{
  ℕ, zero, suc, ◌+◌, Bool, true, false, Option, none, some, List, [], ◌∷◌, ◌++◌, length, take, drop,
  ltb, leb, ◌==◌, not, ◌&&◌, ◌||◌, if◌then◌else◌, ◌>>=◌, ◌>>◌, assert,
}
use wawo.Bytes.{write_impl, read_impl, write_u32}
use wawo.Dh.{DhFactor, dh_generate_factor, dh_generate_key}
use wawo.Obfuscate.{u8_obfuscate, u8_deobfuscate}
use wawo.Xxtea.{xxtea_encrypt, xxtea_decrypt}
use wawo.Xxtea.Cipher.{Xxtea, set_key}

abbrev pub f_handshake_hello : ℕ
f_handshake_hello = 1

abbrev pub f_handshake_hello_resp : ℕ
f_handshake_hello_resp = 2

abbrev pub f_handshake_ok : ℕ
f_handshake_ok = 3

abbrev pub cs_none : ℕ
cs_none = 1

abbrev pub cs_xxtea : ℕ
cs_xxtea = 2

abbrev pub cs_max : ℕ
cs_max = 3

abbrev pub c_none : ℕ
c_none = 1

abbrev pub c_max : ℕ
c_max = 4

-- HOK_MESSAGE.
abbrev pub hok_message : List ℕ
hok_message = b'M' ∷ b'E' ∷ b'S' ∷ b'S' ∷ b'A' ∷ b'G' ∷ b'E' ∷ []

-- The results of include/wawo/constants.h that the handshake returns.
pub data HandshakeCode : Type 0 where
  e_tlp_handshaking e_tlp_handshake_done e_tlp_invalid_packet e_tlp_unknown_cipher : HandshakeCode
  e_tlp_handshake_message_check_failed : HandshakeCode

pub data DhState : Type 0 where
  dh_idle dh_handshake dh_data_transfer dh_change_key dh_error : DhState

-- The counts of the two arrays are the lengths of the lists.
pub record DhContext : Type 0 where
  pub dhfactor : DhFactor
  pub ciphers : List ℕ
  pub compress : List ℕ

pub record DhSymmetricEncrypt : Type 0 where
  pub m_dhstate : DhState
  pub m_context : DhContext
  pub m_cipher : Option Xxtea
  pub m_cookie : Option DhContext

-- The constructor.
abbrev pub dh_symmetric_encrypt : DhSymmetricEncrypt
dh_symmetric_encrypt = record {
  m_dhstate = dh_idle;
  m_context = record {
    dhfactor = record { priv_key = 0; pub_key = 0 };
    ciphers = [];
    compress = [];
  };
  m_cipher = none;
  m_cookie = none;
}

-- The loop that makes factors until no key of one is 0. The list is what `random_u64` answers.
unfoldable pub choose_factor : List ℕ → DhFactor → Option DhFactor
choose_factor [] f = if f.pub_key == 0 || f.priv_key == 0 then none else some f
choose_factor (random ∷ more) f =
    let next = dh_generate_factor random >>= choose_factor more in
    if f.pub_key == 0 || f.priv_key == 0 then next else some f

-- A type of a frame as it is written: a u32_t, the highest byte first.
abbrev pub swap_bytes : List ℕ → List ℕ
swap_bytes (a ∷ b ∷ c ∷ d ∷ []) = d ∷ c ∷ b ∷ a ∷ []
swap_bytes bytes = bytes

abbrev pub frame_type : ℕ → List ℕ → List ℕ
frame_type f random = swap_bytes (u8_obfuscate f random)

-- `hlen_packet::encode` of bytes.
abbrev pub framed : List ℕ → List ℕ
framed bytes = write_u32 (length bytes) ++ bytes

-- `handshake_make_hello_packet`: the packet, and the state after it. `r` is the random number of the
-- frame's type, as its four bytes.
unfoldable pub handshake_make_hello_packet :
    List ℕ → List ℕ → DhSymmetricEncrypt → Option (HandshakeCode × List ℕ × DhSymmetricEncrypt)
handshake_make_hello_packet randoms r e =
    let context : DhContext = elim e.m_cookie [
      | some cookie ↦ cookie
      | none ↦ record (e.m_context) { ciphers = cs_xxtea ∷ cs_none ∷ []; compress = c_none ∷ [] }
    ] in
    choose_factor randoms context.dhfactor >>= λ factor.
    let hello =
      frame_type f_handshake_hello r
      ++ (write_impl 8 factor.pub_key
          ++ (length context.ciphers
              ∷ (context.ciphers ++ (length context.compress ∷ context.compress)))) in
    some (
      e_tlp_handshaking,
      framed hello,
      record e { m_dhstate = dh_handshake; m_context = record context { dhfactor = factor } },
    )

-- `make_cipher_suite`.
abbrev pub is_known_cipher : ℕ → Bool
is_known_cipher id = id == cs_xxtea

-- The cipher with the key that both sides compute.
unfoldable pub make_cipher : ℕ → DhFactor → Option Xxtea
make_cipher their_pub factor =
    dh_generate_key their_pub factor.priv_key >>= λ key. set_key (write_impl 8 key)

-- The packet that tells the other side that the key is there.
unfoldable pub ok_packet : Xxtea → List ℕ → Option (List ℕ)
ok_packet cipher r = xxtea_encrypt hok_message cipher.m_key >>= λ message.
    some (frame_type f_handshake_ok r ++ message)

abbrev pub Reply : Type 0
Reply = HandshakeCode × List ℕ × DhSymmetricEncrypt

-- Both fields of a hello message, `n` bytes each, and what is behind them.
unfoldable pub answer_hello :
    List ℕ → List ℕ → List ℕ → ℕ → List ℕ → List ℕ → DhSymmetricEncrypt → Option Reply
answer_hello randoms r1 r2 their_pub [] compress e = none
answer_hello randoms r1 r2 their_pub (id ∷ ciphers) [] e = none
answer_hello randoms r1 r2 their_pub (id ∷ ciphers) (c ∷ compress) e =
    choose_factor randoms e.m_context.dhfactor >>= λ factor.
    let e1 = record e { m_context = record (e.m_context) { dhfactor = factor } } in
    let resp =
      frame_type f_handshake_hello_resp r1 ++ (write_impl 8 factor.pub_key ++ (id ∷ c ∷ [])) in
    let answer = make_cipher their_pub factor >>= λ cipher. ok_packet cipher r2 >>= λ done.
    some (e_tlp_handshaking, framed resp ++ framed done, record e1 { m_cipher = some cipher }) in
    if is_known_cipher id then answer else some (e_tlp_unknown_cipher, [], e1)

-- The case F_HANDSHAKE_HELLO, of the bytes behind the type.
unfoldable pub hello_arrive : List ℕ → List ℕ → List ℕ → List ℕ → DhSymmetricEncrypt → Option Reply
hello_arrive randoms r1 r2 bytes e =
    let e1 = record e { m_dhstate = dh_handshake } in
    let counted = drop 8 bytes in
    let cipher_count = read_impl 1 (take 1 counted) in
    let behind = drop 1 counted in
    let ciphers = take cipher_count behind in
    let rest = drop cipher_count behind in
    let compress_count = read_impl 1 (take 1 rest) in
    let last = drop 1 rest in
    let answer =
      assert (leb cipher_count cs_max && leb 1 (length rest))
      >> (if leb compress_count (length last)
          then (assert (leb compress_count c_max && (length last == compress_count))
              >> answer_hello randoms r1 r2 (read_impl 8 (take 8 bytes)) ciphers last e1)
          else some (e_tlp_invalid_packet, [], e1)) in
    assert (leb 9 (length bytes))
    >> (if ltb cipher_count (length behind) then answer else some (e_tlp_invalid_packet, [], e1))

-- The case F_HANDSHAKE_HELLO_RESP.
unfoldable pub resp_arrive : List ℕ → List ℕ → DhSymmetricEncrypt → Option Reply
resp_arrive r bytes e =
    let id = read_impl 1 (take 1 (drop 8 bytes)) in
    let answer = make_cipher (read_impl 8 (take 8 bytes)) e.m_context.dhfactor >>= λ cipher.
    ok_packet cipher r >>= λ done.
    some (e_tlp_handshaking, framed done, record e { m_cipher = some cipher }) in
    if leb 10 (length bytes)
    then (assert (length bytes == 10)
        >> (if is_known_cipher id
            then (assert (not (e.m_context.dhfactor.priv_key == 0)) >> answer)
            else some (e_tlp_unknown_cipher, [], e)))
    else some (e_tlp_invalid_packet, [], e)

-- `strncmp` of HOK_MESSAGE, which stops at the first byte that differs, and behind a message that is
-- shorter reads memory that is not written.
abbrev pub is_prefix : List ℕ → List ℕ → Option Bool
is_prefix [] bytes = some true
is_prefix (x ∷ xs) [] = none
is_prefix (x ∷ xs) (b ∷ bytes) =
    let more = is_prefix xs bytes in if x == b then more else some false

-- The case F_HANDSHAKE_OK. Data that is not valid fails the assertion of `xxtea::decrypt`.
unfoldable pub ok_arrive : List ℕ → DhSymmetricEncrypt → Option Reply
ok_arrive bytes e = e.m_cipher >>= λ cipher. xxtea_decrypt bytes cipher.m_key >>= λ plain.
    plain >>= λ message. is_prefix hok_message message >>= λ matches. some (
      if matches
      then (e_tlp_handshake_done, [], record e { m_dhstate = dh_data_transfer })
      else (e_tlp_handshake_message_check_failed, [], e))

abbrev pub is_idle : DhState → Bool
is_idle dh_idle = true
is_idle _ = false

abbrev pub is_handshake : DhState → Bool
is_handshake dh_handshake = true
is_handshake _ = false

abbrev pub is_data_transfer : DhState → Bool
is_data_transfer dh_data_transfer = true
is_data_transfer _ = false

-- `handshake_packet_arrive`. `r1` and `r2` are the random numbers of the types of frames.
unfoldable pub handshake_packet_arrive :
    List ℕ → List ℕ → List ℕ → List ℕ → DhSymmetricEncrypt → Option Reply
handshake_packet_arrive randoms r1 r2 input e =
    let dh_frame = u8_deobfuscate (swap_bytes (take 4 input)) in
    let bytes = drop 4 input in
    let hello = hello_arrive randoms r1 r2 bytes e in
    let resp = resp_arrive r1 bytes e in
    let done = ok_arrive bytes e in
    assert (not (is_data_transfer e.m_dhstate))
    >> (if ltb 4 (length input)
        then (if dh_frame == f_handshake_hello
            then (assert (is_idle e.m_dhstate) >> hello)
            else (if dh_frame == f_handshake_hello_resp
                then (assert (is_handshake e.m_dhstate) >> resp)
                else (if dh_frame == f_handshake_ok
                    then (assert (is_handshake e.m_dhstate) >> done)
                    else some (e_tlp_invalid_packet, [], e))))
        else some (e_tlp_invalid_packet, [], e))
