-- ===== src/Tlp/SymmetricEncrypt/Stream.antt =====
-- What include/wawo/net/tlp/symmetric_encrypt.hpp hands on of an encrypted stream.
use wawo.Prelude.{
  ℕ, zero, suc, ◌+◌, ◌<◌, ◌≡◌, refl, some, List, [], ◌∷◌, ◌++◌, arith, length, take, drop, subst,
}
use wawo.Packet.{Packet}
use wawo.RingBuffer.{BytesRingbuffer}
use wawo.Xxtea.Cipher.{Xxtea, Fit, decrypt-Holds}
use wawo.Xxtea.{xxtea_encrypt}
use wawo.Xxtea.Round.{Sealed, encrypt-Sealed}
use wawo.Tlp.HlenPacket.{HlenPacket}
use wawo.Tlp.HlenPacket.Frames.{frames, Fits, Short, Carries, Decoding, Returns, code_for}
use wawo.Tlp.HlenPacket.Decode.{decode_packets_lem}
use wawo.Tlp.SymmetricEncrypt.{decrypt_all, decrypted, decode_packets}

-- `cs` is what `xxtea_encrypt` makes of the data `ms`, one each and in order, and a ring has room for
-- it.
abbrev pub AllSealed : List ℕ → ℕ → List (List ℕ) → List (List ℕ) → Type 0
AllSealed key cells [] [] = Unit {0}
AllSealed key cells [] (c ∷ cs) = ⊥
AllSealed key cells (m ∷ ms) [] = ⊥
AllSealed key cells (m ∷ ms) (c ∷ cs) =
    (Fit m × (length m + 8 < cells) × (xxtea_encrypt m key ≡ some c)) × AllSealed key cells ms cs

module _ (key : List ℕ) (cells : ℕ) (k : 0 < length key) where
  -- What is encrypted can be decrypted.
  encrypted-Sealed : (m c : List ℕ) → Fit m → xxtea_encrypt m key ≡ some c → Sealed key m c
  encrypted-Sealed m c f e =
      let (c', w) = encrypt-Sealed m key k f.some_bytes (ground (arith, f.small)) f.all_bytes in
      let made = w.encrypted in let same : c' ≡ c = cc in subst (Sealed key m) same w

  take-AllSealed :
      (n : ℕ) (ms cs : List (List ℕ))
      → AllSealed key cells ms cs
      → AllSealed key cells (take n ms) (take n cs)
  take-AllSealed zero ms cs s = tt
  take-AllSealed (suc n) [] [] s = tt
  take-AllSealed (suc n) [] (c ∷ cs) s = absurd s
  take-AllSealed (suc n) (m ∷ ms) [] s = absurd s
  take-AllSealed (suc n) (m ∷ ms) (c ∷ cs) s = (s.0, take-AllSealed n ms cs s.1)

  AllSealed-Fits : (ms cs : List (List ℕ)) → AllSealed key cells ms cs → Fits cells cs
  AllSealed-Fits [] [] s = tt
  AllSealed-Fits [] (c ∷ cs) s = absurd s
  AllSealed-Fits (m ∷ ms) [] s = absurd s
  AllSealed-Fits (m ∷ ms) (c ∷ cs) s =
      let ((f, room, e), rest) = s in
      let w = encrypted-Sealed m c f e in
      (
        (w.some_words, omega (arith, w.size, room), omega (arith, w.size, f.small)),
        AllSealed-Fits ms cs rest,
      )

module _ (x : Xxtea) (cells : ℕ) (k : 0 < length x.m_key) where
  decrypt_all-Carries :
      (ps : List Packet) (ms cs : List (List ℕ))
      → AllSealed x.m_key cells ms cs
      → Carries ps cs
      → (qs : List Packet) × (decrypt_all x ps ≡ some qs) × Carries qs ms
  unfolding decrypt_all
  decrypt_all-Carries [] [] [] s c = ([], refl, tt)
  decrypt_all-Carries [] ms (d ∷ cs) s c = absurd c
  decrypt_all-Carries [] (m ∷ ms) [] s c = absurd s
  decrypt_all-Carries (p ∷ ps) ms [] s c = absurd c
  decrypt_all-Carries (p ∷ ps) [] (d ∷ cs) s c = absurd s
  decrypt_all-Carries (p ∷ ps) (m ∷ ms) (d ∷ cs) s c =
      let ((f, room, sealed), rest) = s in
      let w = encrypted-Sealed x.m_key cells k m d f sealed in
      let (q, e, g) = decrypt-Holds x m f d w p c.0 in
      let (qs, es, gs) = decrypt_all-Carries ps ms cs rest c.1 in (q ∷ qs, rw (e, es) refl, (g, gs))

  -- On a stream of packets, each behind its length, that are what `xxtea_encrypt` makes of some data
  -- under the key of the cipher, which is not empty, and of one more packet's front part,
  -- `decode_packets` returns, and what it hands on is the data itself: of the first packets, as many
  -- as there is room for, in order. What is behind them waits for the next call, as in the framing
  -- without a cipher.
  pub sealed_stream_lem :
      (size : ℕ) (ms cs : List (List ℕ)) (tail : List ℕ) (h : HlenPacket) (r : BytesRingbuffer)
      → Decoding cells (frames cs ++ tail) h r
      → Short cells tail
      → AllSealed x.m_key cells ms cs
      → Returns cells
          (code_for (drop size cs))
          (take size ms)
          (frames (drop size cs) ++ tail)
          (decode_packets (record { hlen = h; m_cipher = some x }) r size)
  unfolding decode_packets decrypted Returns
  sealed_stream_lem size ms cs tail h r d short s =
      let (s', run, st, carried) =
        decode_packets_lem cells size tail short cs h r d
          (AllSealed-Fits x.m_key cells k ms cs s) in
      let (qs, e, held) =
        decrypt_all-Carries s'.arrives (take size ms) (take size cs)
          (take-AllSealed x.m_key cells k size ms cs s) carried in
      (record s' { arrives = qs }, rw (run, decrypted, e) refl, st, held)
