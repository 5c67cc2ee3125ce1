-- ===== src/Tlp/DhSymmetricEncrypt/Handshake.antt =====
-- The steps of the handshake of include/wawo/net/tlp/dh_symmetric_encrypt.hpp, on both sides.
use native.Mathlib.Nat.{mul_comm}
use wawo.Prelude.{
  ℕ, ◌+◌, ◌*◌, ◌%◌, ◌^◌, ◌<◌, ◌≡◌, refl, sym, ap, ◌∙◌, false, some, List, [], ◌∷◌, ◌++◌, arith,
  length, length-append, replicate, take, drop, take_cong, drop_cong, take-append_self,
  drop-append_self, append-nil, ◌==◌,
}
use wawo.Prelude.Words.{u64_mod}
use wawo.Bytes.{write_impl, read_impl}
use wawo.Bytes.Laws.{length-write_impl, read-write_impl}
use wawo.Dh.{DhFactor, dh_q, dh_g, dh_generate_key}
use wawo.Dh.Powmod.{less_once}
use wawo.Dh.Agree.{public_of, factor_lem, key_lem}
use wawo.Obfuscate.{u8_deobfuscate, obfuscate_from}
use wawo.Obfuscate.Round.{u8_deobfuscate-u8_obfuscate}
use wawo.Xxtea.Cipher.{Xxtea, set_key}
use wawo.Xxtea.Round.{Sealed, encrypt-Sealed}
use wawo.Tlp.DhSymmetricEncrypt.{choose_factor, swap_bytes, frame_type, make_cipher, hok_message}

-- The type of a frame is read back, and what is behind it.
pub record Typed (f : ℕ) (r rest : List ℕ) : Type 0 where
  pub type_read : u8_deobfuscate (swap_bytes (take 4 (frame_type f r ++ rest))) ≡ f
  pub behind : drop 4 (frame_type f r ++ rest) ≡ rest
  pub size : length (frame_type f r ++ rest) ≡ 4 + length rest

pub frame_type-Typed : (f : ℕ) (r rest : List ℕ) → f < 256 → length r ≡ 4 → Typed f r rest
unfolding obfuscate_from
frame_type-Typed f [] rest h e = absurd (omega arith)
frame_type-Typed f (a ∷ []) rest h e = absurd (omega arith)
frame_type-Typed f (a ∷ b ∷ []) rest h e = absurd (omega arith)
frame_type-Typed f (a ∷ b ∷ c ∷ []) rest h e = absurd (omega arith)
frame_type-Typed f (a ∷ b ∷ c ∷ d ∷ []) rest h e = record {
  type_read = u8_deobfuscate-u8_obfuscate f a b c d h;
  behind = refl;
  size = omega arith;
}
frame_type-Typed f (a ∷ b ∷ c ∷ d ∷ x ∷ r) rest h e = absurd (omega arith)

-- A u64_t in front of other bytes.
module _ (k : ℕ) (rest : List ℕ) where
  pub take-write_u64 : take 8 (write_impl 8 k ++ rest) ≡ write_impl 8 k
  take-write_u64 =
      take_cong (write_impl 8 k ++ rest) (sym (length-write_impl 8 k))
      ∙ take-append_self (write_impl 8 k) rest

  pub drop-write_u64 : drop 8 (write_impl 8 k ++ rest) ≡ rest
  drop-write_u64 =
      drop_cong (write_impl 8 k ++ rest) (sym (length-write_impl 8 k))
      ∙ drop-append_self (write_impl 8 k) rest

  pub read-write_u64 : k < u64_mod → read_impl 8 (take 8 (write_impl 8 k ++ rest)) ≡ k
  read-write_u64 h =
      ap (read_impl 8) (take-write_u64 ∙ sym (append-nil (write_impl 8 k)))
      ∙ read-write_impl 8 k [] h

abbrev pub factor_of : ℕ → DhFactor
factor_of x = record { priv_key = x; pub_key = public_of x }

-- The first random number makes the factor.
pub choose_factor_lem :
    (x : ℕ)
    → 0 < x
    → x < u64_mod
    → 0 < public_of x
    → choose_factor (x ∷ []) (record { priv_key = 0; pub_key = 0 }) ≡ some (factor_of x)
unfolding choose_factor
choose_factor_lem x pos h some_key =
    let p : (public_of x == 0) ≡ false = grind (arith, some_key) in
    let q : (x == 0) ≡ false = grind (arith, pos) in rw (factor_lem x h, p, q) refl

-- The key that both sides share, and its cipher.
abbrev pub shared_key : ℕ → ℕ → ℕ
shared_key x y = dh_g ^ (less_once x dh_q * less_once y dh_q) % dh_q

abbrev pub shared_cipher : ℕ → ℕ → Xxtea
shared_cipher x y = record { m_key = write_impl 8 (shared_key x y) ++ replicate 8 b'z' }

cipher_made :
    (k : ℕ)
    → set_key (write_impl 8 k) ≡ some (record { m_key = write_impl 8 k ++ replicate 8 b'z' })
unfolding set_key
cipher_made k = rw (length-write_impl 8 k) refl

pub client_cipher :
    (x y : ℕ) → x < u64_mod → make_cipher (public_of y) (factor_of x) ≡ some (shared_cipher x y)
unfolding make_cipher
client_cipher x y h =
    let e : dh_generate_key (public_of y) x ≡ some (shared_key x y) =
      key_lem x y h
      ∙ ap (λ (t : ℕ). some (dh_g ^ t % dh_q)) (mul_comm (less_once y dh_q) (less_once x dh_q)) in
    rw e (cipher_made (shared_key x y))

pub server_cipher :
    (x y : ℕ) → y < u64_mod → make_cipher (public_of x) (factor_of y) ≡ some (shared_cipher x y)
unfolding make_cipher
server_cipher x y h = rw (key_lem y x h) (cipher_made (shared_key x y))

-- The message of the last packet, encrypted, under any key of the exchange.
pub hok_message-Sealed : (x y : ℕ) → (c : List ℕ) × Sealed (shared_cipher x y).m_key hok_message c
hok_message-Sealed x y =
    encrypt-Sealed hok_message (shared_cipher x y).m_key
      (omega (
        arith,
        length-append (write_impl 8 (shared_key x y)) (replicate {A = ℕ} 8 b'z'),
        length-write_impl 8 (shared_key x y),
      ))
      (omega arith) (omega arith)
      (
        omega arith,
        (
          omega arith,
          (omega arith, (omega arith, (omega arith, (omega arith, (omega arith, tt))))),
        ),
      )
