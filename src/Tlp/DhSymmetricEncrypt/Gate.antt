-- ===== src/Tlp/DhSymmetricEncrypt/Gate.antt =====
-- Data passes only behind the other side's proof of the key: the handshake of
-- include/wawo/net/tlp/dh_symmetric_encrypt.hpp over the runs of a stream.
mod Step
use wawo.Prelude.{
  ℕ, true, false, Bool, Bool-cases, Option, Option-cases, inl, inr, none, some, List, [], ◌∷◌, ◌≡◌,
  refl, not, sym, arith, ltb, length, ◌==◌, ==_iff, ◌++◌, if◌then◌else◌, ◌⊎◌, take, drop, ◌>>=◌,
  ◌>>◌, assert, subst, ◌≢◌,
}
use wawo.RingBuffer.{BytesRingbuffer}
use wawo.Packet.{Packet, begin_len}
use wawo.Bytes.{read_impl}
use wawo.Obfuscate.{u8_deobfuscate}
use wawo.Xxtea.{xxtea_decrypt}
use wawo.Xxtea.Cipher.{Xxtea}
use wawo.Tlp.HlenPacket.{HlenPacket, Outcome, raises, out_of_fuel, returns, ErrorCode, Session}
use wawo.Tlp.HlenPacket
use wawo.Tlp.SymmetricEncrypt
use wawo.Tlp.DhSymmetricEncrypt.{
  DhSymmetricEncrypt, DhState, dh_idle, dh_handshake, dh_data_transfer, dh_change_key, dh_error,
  HandshakeCode, Reply, is_data_transfer, is_handshake, is_idle, is_prefix, e_tlp_invalid_packet,
  hok_message, f_handshake_ok, swap_bytes, dh_symmetric_encrypt, answer_hello, hello_arrive,
  resp_arrive, ok_arrive, handshake_packet_arrive, handshake_make_hello_packet, f_handshake_hello,
  f_handshake_hello_resp,
}
use wawo.Tlp.DhSymmetricEncrypt.Transfer.{
  DhStream, Decoded, unset, shaking, encode, encoded, decode_packets, shake, shaken, transferred,
  by_state,
}
use wawo.Tlp.DhSymmetricEncrypt.Gate.Step.{Proves, Shut, Gated, handshake_packet_arrive-Gated}

abbrev pub input_of : Option (List ℕ) → List (List ℕ)
input_of none = []
input_of (some bytes) = bytes ∷ []

-- The packet of the handshake that the framing hands over.
abbrev pub first_input : List Packet → List (List ℕ)
first_input [] = []
first_input (p ∷ more) = input_of (begin_len p)

abbrev pub heard_of : Outcome → List (List ℕ)
heard_of raises = []
heard_of out_of_fuel = []
heard_of (returns ec s) = first_input s.arrives

-- The packets that a call of `decode_packets` takes for the handshake.
abbrev pub heard : DhStream → BytesRingbuffer → List (List ℕ)
heard d r =
    if is_data_transfer d.handshake.m_dhstate
    then []
    else heard_of (HlenPacket.decode_packets d.hlen r 1)

-- One of the packets proves the key.
abbrev pub SomeProves : List ℕ → List (List ℕ) → Type 0
SomeProves key [] = ⊥
SomeProves key (input ∷ inputs) = Proves key input ⊎ SomeProves key inputs

-- The stream has a cipher, and one of the packets proves its key.
abbrev pub Proven : List (List ℕ) → DhStream → Type 0
Proven inputs d =
    (cipher : Xxtea) × (d.handshake.m_cipher ≡ some cipher) × SomeProves cipher.m_key inputs

-- The runs of a stream, from its constructor, with the packets that the handshake heard.
pub data Runs : List (List ℕ) → DhStream → Type 0 where
  opens_with :
      (hlen : HlenPacket) → Runs [] (record { handshake = dh_symmetric_encrypt; hlen = hlen })
  greets :
      {inputs : List (List ℕ)} {d : DhStream} (randoms r : List ℕ) (code : HandshakeCode)
      (out : List ℕ) (e : DhSymmetricEncrypt)
      → Runs inputs d
      → handshake_make_hello_packet randoms r d.handshake ≡ some (code, out, e)
      → Runs inputs (record d { handshake = e })
  receives :
      {inputs : List (List ℕ)} {d : DhStream} (randoms r1 r2 : List ℕ) (buffer : BytesRingbuffer)
      (size : ℕ) (o : Decoded)
      → Runs inputs d
      → decode_packets randoms r1 r2 d buffer size ≡ some o
      → Runs (heard d buffer ++ inputs) o.stream

-- In DH_DATA_TRANSFER the key is proven.
abbrev Guarded : List (List ℕ) → DhStream → Type 0
Guarded inputs d = is_data_transfer d.handshake.m_dhstate ≡ true → Proven inputs d

abbrev GuardedAfter : List (List ℕ) → Option Decoded → Type 0
GuardedAfter inputs none = Unit {0}
GuardedAfter inputs (some o) = Guarded inputs o.stream

module _ (randoms r1 r2 : List ℕ) (d : DhStream) (inputs : List (List ℕ)) where
  shake-Guarded :
      (ec : ErrorCode) (s : Session) (ps : List Packet)
      → is_data_transfer d.handshake.m_dhstate ≡ false
      → GuardedAfter (first_input ps ++ inputs) (shake randoms r1 r2 d ec s ps)
  unfolding shake
  shake-Guarded ec s [] h = λ k. absurd (grind (arith, h, k))
  shake-Guarded ec s (p ∷ more) h = heard_bytes (begin_len p)
    where
      replied :
          (bytes : List ℕ) (m : Option Reply)
          → Gated bytes m
          → GuardedAfter (bytes ∷ inputs) (
              m >>= λ (code, out, e). some (record {
                code = shaking code;
                arrives = [];
                out = out;
                stream = record { handshake = e; hlen = s.hlen };
                buffer = s.buffer;
              }))
      replied bytes none g = tt
      replied bytes (some (code, out, e)) g =
          λ k. let (cipher, c, proof) = g k in (cipher, c, inl proof)

      heard_bytes :
          (m : Option (List ℕ))
          → GuardedAfter (input_of m ++ inputs) (
              m >>= λ bytes.
              handshake_packet_arrive randoms r1 r2 bytes d.handshake >>= λ (code, out, e).
              some (record {
                code = shaking code;
                arrives = [];
                out = out;
                stream = record { handshake = e; hlen = s.hlen };
                buffer = s.buffer;
              }))
      heard_bytes none = tt
      heard_bytes (some bytes) =
          replied bytes (handshake_packet_arrive randoms r1 r2 bytes d.handshake)
            (handshake_packet_arrive-Gated randoms r1 r2 bytes d.handshake h)

  shaken-Guarded :
      (o : Outcome)
      → is_data_transfer d.handshake.m_dhstate ≡ false
      → GuardedAfter (heard_of o ++ inputs) (shaken randoms r1 r2 d o)
  unfolding shaken
  shaken-Guarded raises h = tt
  shaken-Guarded out_of_fuel h = tt
  shaken-Guarded (returns ec s) h = shake-Guarded ec s s.arrives h

  transferred-Guarded : (o : Outcome) → Guarded inputs d → GuardedAfter inputs (transferred d o)
  unfolding transferred
  transferred-Guarded raises g = tt
  transferred-Guarded out_of_fuel g = tt
  transferred-Guarded (returns ec s) g = g

by_state_cases :
    (P : Option Decoded → Type 0) (st : DhState) (shaking_out transfer idle : Option Decoded)
    → (is_data_transfer st ≡ false → P shaking_out)
    → (is_data_transfer st ≡ true → P transfer)
    → (is_data_transfer st ≡ false → P idle)
    → P (by_state st shaking_out transfer idle)
unfolding by_state
by_state_cases P dh_idle shaking_out transfer idle s t i = s refl
by_state_cases P dh_handshake shaking_out transfer idle s t i = s refl
by_state_cases P dh_data_transfer shaking_out transfer idle s t i = t refl
by_state_cases P dh_change_key shaking_out transfer idle s t i = i refl
by_state_cases P dh_error shaking_out transfer idle s t i = i refl

GuardedAfter-assert :
    (inputs : List (List ℕ)) (b : Bool) (m : Option Decoded)
    → GuardedAfter inputs m
    → GuardedAfter inputs (assert b >> m)
GuardedAfter-assert inputs true m g = g
GuardedAfter-assert inputs false m g = tt

decode_packets-Guarded :
    (randoms r1 r2 : List ℕ) (d : DhStream) (inputs : List (List ℕ)) (r : BytesRingbuffer)
    (size : ℕ)
    → Guarded inputs d
    → GuardedAfter (heard d r ++ inputs) (decode_packets randoms r1 r2 d r size)
unfolding decode_packets
decode_packets-Guarded randoms r1 r2 d inputs r size g =
    let framed = HlenPacket.decode_packets d.hlen r 1 in
    let opened =
      SymmetricEncrypt.decode_packets (record { hlen = d.hlen; m_cipher = d.handshake.m_cipher }) r
        size in
    by_state_cases (GuardedAfter (heard d r ++ inputs)) d.handshake.m_dhstate
      (shaken randoms r1 r2 d framed) (assert (ltb 0 size) >> transferred d opened)
      (some (record { code = unset; arrives = []; out = []; stream = d; buffer = r }))
      (λ h.
        subst
          (λ b.
            GuardedAfter ((if b then [] else heard_of framed) ++ inputs)
              (shaken randoms r1 r2 d framed))
          (sym h) (shaken-Guarded randoms r1 r2 d inputs framed h))
      (λ h.
        subst
          (λ b.
            GuardedAfter ((if b then [] else heard_of framed) ++ inputs)
              (assert (ltb 0 size) >> transferred d opened))
          (sym h)
          (GuardedAfter-assert inputs (ltb 0 size) (transferred d opened)
            (transferred-Guarded randoms r1 r2 d inputs opened g)))
      (λ h k. absurd (grind (arith, h, k)))

-- `handshake_make_hello_packet` leaves the stream shut.
hello_packet-Shut :
    (randoms r : List ℕ) (e : DhSymmetricEncrypt) → Shut (handshake_make_hello_packet randoms r e)
unfolding handshake_make_hello_packet
hello_packet-Shut randoms r e = ground arith

Runs-Guarded : {inputs : List (List ℕ)} {d : DhStream} → Runs inputs d → Guarded inputs d
Runs-Guarded (opens_with hlen) = λ k. absurd (grind (arith, k))
Runs-Guarded (greets {d = d} randoms r code out e run made) = λ k.
    let shut : is_data_transfer e.m_dhstate ≡ false =
      subst Shut made (hello_packet-Shut randoms r d.handshake) in
    absurd (grind (arith, shut, k))
Runs-Guarded (receives {inputs = inputs} {d = d} randoms r1 r2 buffer size o run answered) =
    subst (GuardedAfter (heard d buffer ++ inputs)) answered
      (decode_packets-Guarded randoms r1 r2 d inputs buffer size (Runs-Guarded run))

-- A call that hands on a packet is one in DH_DATA_TRANSFER.
abbrev Silent : Option Decoded → Type 0
Silent none = Unit {0}
Silent (some o) = o.arrives ≡ []

shake-Silent :
    (randoms r1 r2 : List ℕ) (d : DhStream) (ec : ErrorCode) (s : Session) (ps : List Packet)
    → Silent (shake randoms r1 r2 d ec s ps)
unfolding shake
shake-Silent randoms r1 r2 d ec s [] = refl
shake-Silent randoms r1 r2 d ec s (p ∷ ps) = elim (Option-cases (begin_len p)) [
  | inl e ↦ rw e tt
  | inr (bytes, e) ↦
      rw e (elim (Option-cases (handshake_packet_arrive randoms r1 r2 bytes d.handshake)) [
        | inl f ↦ rw f tt
        | inr (reply, f) ↦ rw f refl
      ])
]

shaken-Silent :
    (randoms r1 r2 : List ℕ) (d : DhStream) (o : Outcome) → Silent (shaken randoms r1 r2 d o)
unfolding shaken
shaken-Silent randoms r1 r2 d raises = tt
shaken-Silent randoms r1 r2 d out_of_fuel = tt
shaken-Silent randoms r1 r2 d (returns ec s) = shake-Silent randoms r1 r2 d ec s s.arrives

hands_on_open :
    (randoms r1 r2 : List ℕ) (d : DhStream) (r : BytesRingbuffer) (size : ℕ)
    → is_data_transfer d.handshake.m_dhstate ≡ false
    → Silent (decode_packets randoms r1 r2 d r size)
unfolding decode_packets
hands_on_open randoms r1 r2 d r size shut =
    by_state_cases Silent d.handshake.m_dhstate
      (shaken randoms r1 r2 d (HlenPacket.decode_packets d.hlen r 1)) _ _
      (λ h. shaken-Silent randoms r1 r2 d (HlenPacket.decode_packets d.hlen r 1))
      (λ h. absurd (grind (arith, shut, h))) (λ h. refl)

-- Data passes: a call of `decode_packets` hands on a packet, or one of `encode` gets as far as the
-- framing.
abbrev pub PassesData : DhStream → Type 0
PassesData d =
    ((randoms : List ℕ) × (r1 : List ℕ) × (r2 : List ℕ) × (r : BytesRingbuffer) × (size : ℕ)
      × (o : Decoded) × (decode_packets randoms r1 r2 d r size ≡ some o)
      × (o.arrives ≢ []))
    ⊎ ((p : Packet) × (ec : ErrorCode) × (q : Option Packet) × (encode d p ≡ some (encoded ec q)))

-- In every run of a stream from its constructor, through hello packets that it makes and calls of
-- `decode_packets` on any bytes, data passes, in either direction, only after a packet of the type
-- F_HANDSHAKE_OK arrived for the handshake whose data the cipher that the stream has now decrypts to
-- a message that begins with MESSAGE.
pub data_needs_proof :
    (inputs : List (List ℕ)) (d : DhStream) → Runs inputs d → PassesData d → Proven inputs d
unfolding encode
data_needs_proof inputs d run passes = elim (Bool-cases (is_data_transfer d.handshake.m_dhstate)) [
  | inl passing ↦ Runs-Guarded run passing
  | inr shut ↦ refused shut passes
]
  where
    refused : is_data_transfer d.handshake.m_dhstate ≡ false → PassesData d → Proven inputs d
    refused shut (inl (randoms, r1, r2, r, size, o, e, some_packet)) =
        absurd (some_packet (subst Silent e (hands_on_open randoms r1 r2 d r size shut)))
    refused shut (inr (p, ec, q, e)) = absurd (grind (arith, e, shut))
