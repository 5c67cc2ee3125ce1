-- ===== src/Tlp/DhSymmetricEncrypt/Exchange.antt =====
-- Both sides of the handshake of include/wawo/net/tlp/dh_symmetric_encrypt.hpp, packet by packet.
use wawo.Prelude.{
  ℕ, ◌+◌, ◌<◌, ◌≡◌, refl, ◌∙◌, true, some, List, [], ◌∷◌, ◌++◌, arith, length, length-append, ltb,
  lt→ltb,
}
use wawo.Prelude.Words.{u64_mod}
use wawo.Bytes.{write_impl}
use wawo.Bytes.Laws.{length-write_impl}
use wawo.Dh.Agree.{public_of, public-lt, public-pos}
use wawo.Xxtea.Cipher.{Xxtea}
use wawo.Tlp.DhSymmetricEncrypt.{
  DhSymmetricEncrypt, dh_symmetric_encrypt, dh_data_transfer, framed, frame_type, e_tlp_handshaking,
  e_tlp_handshake_done, hello_arrive, resp_arrive, ok_arrive, handshake_packet_arrive,
  handshake_make_hello_packet,
}
use wawo.Tlp.DhSymmetricEncrypt.Handshake.{
  Typed, frame_type-Typed, drop-write_u64, read-write_u64, choose_factor_lem, shared_cipher,
  hok_message-Sealed,
}
use wawo.Tlp.DhSymmetricEncrypt.Complete.{
  hello, resp, done, client, server, keyed, hello_step, resp_step, ok_step,
}

module _ (rest : List ℕ) (pos : 0 < length rest) where
  long : ltb 4 (4 + length rest) ≡ true
  long = lt→ltb _ _ (omega arith)

  arrive_hello :
      (randoms r1 r2 r : List ℕ)
      → Typed 1 r rest
      → handshake_packet_arrive randoms r1 r2 (frame_type 1 r ++ rest) dh_symmetric_encrypt
        ≡ hello_arrive randoms r1 r2 rest dh_symmetric_encrypt
  unfolding handshake_packet_arrive
  arrive_hello randoms r1 r2 r t = rw (t.size, t.type_read, t.behind, long) refl

  arrive_resp :
      (x : ℕ) (r1 r2 r : List ℕ)
      → Typed 2 r rest
      → handshake_packet_arrive [] r1 r2 (frame_type 2 r ++ rest) (client x)
        ≡ resp_arrive r1 rest (client x)
  unfolding handshake_packet_arrive
  arrive_resp x r1 r2 r t = rw (t.size, t.type_read, t.behind, long) refl

  arrive_ok_client :
      (x : ℕ) (cipher : Xxtea) (r : List ℕ)
      → Typed 3 r rest
      → handshake_packet_arrive [] [] [] (frame_type 3 r ++ rest) (keyed cipher (client x))
        ≡ ok_arrive rest (keyed cipher (client x))
  unfolding handshake_packet_arrive
  arrive_ok_client x cipher r t = rw (t.size, t.type_read, t.behind, long) refl

  arrive_ok_server :
      (y : ℕ) (cipher : Xxtea) (r : List ℕ)
      → Typed 3 r rest
      → handshake_packet_arrive [] [] [] (frame_type 3 r ++ rest) (keyed cipher (server y))
        ≡ ok_arrive rest (keyed cipher (server y))
  unfolding handshake_packet_arrive
  arrive_ok_server y cipher r t = rw (t.size, t.type_read, t.behind, long) refl

-- A side with the cipher that may send data.
abbrev pub ready : Xxtea → DhSymmetricEncrypt → DhSymmetricEncrypt
ready cipher e = record (keyed cipher e) { m_dhstate = dh_data_transfer }

-- The handshake of a client with the private key `x` and a server with `y`; `c` is the encrypted
-- message.
pub record Completes (x y : ℕ) (r1 r2 r3 r4 c : List ℕ) : Type 0 where
  pub starts :
      handshake_make_hello_packet (x ∷ []) r1 dh_symmetric_encrypt
      ≡ some (e_tlp_handshaking, framed (hello x r1), client x)
  pub answers :
      handshake_packet_arrive (y ∷ []) r2 r3 (hello x r1) dh_symmetric_encrypt
      ≡ some (
        e_tlp_handshaking,
        framed (resp y r2) ++ framed (done c r3),
        keyed (shared_cipher x y) (server y),
      )
  pub agrees :
      handshake_packet_arrive [] r4 [] (resp y r2) (client x)
      ≡ some (e_tlp_handshaking, framed (done c r4), keyed (shared_cipher x y) (client x))
  pub client_done :
      handshake_packet_arrive [] [] [] (done c r3) (keyed (shared_cipher x y) (client x))
      ≡ some (e_tlp_handshake_done, [], ready (shared_cipher x y) (client x))
  pub server_done :
      handshake_packet_arrive [] [] [] (done c r4) (keyed (shared_cipher x y) (server y))
      ≡ some (e_tlp_handshake_done, [], ready (shared_cipher x y) (server y))

make_hello_lem :
    (x : ℕ) (r1 : List ℕ)
    → 0 < x
    → x < u64_mod
    → handshake_make_hello_packet (x ∷ []) r1 dh_symmetric_encrypt
      ≡ some (e_tlp_handshaking, framed (hello x r1), client x)
unfolding handshake_make_hello_packet
make_hello_lem x r1 pos h = rw (choose_factor_lem x pos h (public-pos x)) refl

-- Two sides that start afresh complete the handshake, with private keys of 64 bits that are not 0,
-- and any random numbers, of four bytes, for the types of the frames: no packet is
-- refused and no assertion fails. In the end each side is told that it is done, may send data, and
-- has the cipher of the same key, the power of the generator to the product of the private keys.
pub handshake-Completes :
    (x y : ℕ) (r1 r2 r3 r4 : List ℕ)
    → 0 < x
    → x < u64_mod
    → 0 < y
    → y < u64_mod
    → length r1 ≡ 4
    → length r2 ≡ 4
    → length r3 ≡ 4
    → length r4 ≡ 4
    → (c : List ℕ) × Completes x y r1 r2 r3 r4 c
handshake-Completes x y r1 r2 r3 r4 px hx py hy l1 l2 l3 l4 =
    let (c, s) = hok_message-Sealed x y in
    let from_x = write_impl 8 (public_of x) ++ (2 ∷ 2 ∷ 1 ∷ 1 ∷ 1 ∷ []) in
    let from_y = write_impl 8 (public_of y) ++ (2 ∷ 1 ∷ []) in
    let n : length from_x ≡ 13 = omega (
      arith,
      length-append (write_impl 8 (public_of x)) (2 ∷ 2 ∷ 1 ∷ 1 ∷ 1 ∷ []),
      length-write_impl 8 (public_of x),
    ) in
    let m : length from_y ≡ 10 = omega (
      arith,
      length-append (write_impl 8 (public_of y)) (2 ∷ 1 ∷ []),
      length-write_impl 8 (public_of y),
    ) in
    (
      c,
      record {
        starts = make_hello_lem x r1 px hx;
        answers =
            arrive_hello from_x (omega (arith, n)) (y ∷ []) r2 r3 r1
              (frame_type-Typed 1 r1 from_x (omega arith) l1)
            ∙ hello_step x y c r2 r3 from_x py hy (public-pos y) s (drop-write_u64 (public_of x) _)
                (read-write_u64 (public_of x) _ (public-lt x)) n;
        agrees =
            arrive_resp from_y (omega (arith, m)) x r4 [] r2
              (frame_type-Typed 2 r2 from_y (omega arith) l2)
            ∙ resp_step x y c r4 from_y px hx s (drop-write_u64 (public_of y) _)
                (read-write_u64 (public_of y) _ (public-lt y)) m;
        client_done =
            arrive_ok_client c s.some_words x (shared_cipher x y) r3
              (frame_type-Typed 3 r3 c (omega arith) l3)
            ∙ ok_step (shared_cipher x y) c (client x) s;
        server_done =
            arrive_ok_server c s.some_words y (shared_cipher x y) r4
              (frame_type-Typed 3 r4 c (omega arith) l4)
            ∙ ok_step (shared_cipher x y) c (server y) s;
      },
    )
