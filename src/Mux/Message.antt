-- ===== src/Mux/Message.antt =====
-- The messages of include/wawo/net/peer/message/mux_cargo.hpp, as they are written and read.
use wawo.Prelude.{
  ℕ, ◌+◌, ◌<◌, ◌^◌, ◌≡◌, refl, sym, ap, ◌∙◌, Option, none, some, List, [], ◌∷◌, ◌++◌, arith, length,
  take, drop, le→leb, ◌==◌, if◌then◌else◌, length-append, take-append_self, drop-append_self,
  append-nil, append_assoc,
}
use wawo.Prelude.Words.{u32_mod}
use wawo.Bytes.{read_u16, read_u32, write_u16, write_u32}
use wawo.Bytes.Laws.{
  length-write_impl, length-write_u32, read-write_impl, read-write_u32, drop-write_u32,
}
use wawo.Mux.{encode, read_fields, t_data, t_uwnd}

length-write_u16 : (n : ℕ) → length (write_u16 n) ≡ 2
unfolding write_u16
length-write_u16 n = length-write_impl 2 n

module _ (n : ℕ) (rest : List ℕ) where
  drop-write_u16 : drop 2 (write_u16 n ++ rest) ≡ rest
  drop-write_u16 =
      ap (λ k. drop k (write_u16 n ++ rest)) (sym (length-write_u16 n))
      ∙ drop-append_self (write_u16 n) rest

  read-write_u16 : n < 2 ^ 16 → read_u16 (take 2 (write_u16 n ++ rest)) ≡ n
  unfolding read_u16 write_u16
  read-write_u16 h =
      ap read_u16 (
        ap (λ k. take k (write_u16 n ++ rest)) (sym (length-write_u16 n))
        ∙ take-append_self (write_u16 n) rest
        ∙ sym (append-nil (write_u16 n)))
      ∙ read-write_impl 2 n [] h

-- A packet of one u32_t.
pub read_one-write_u32 : (n : ℕ) → n < u32_mod → read_u32 (write_u32 n) ≡ n
unfolding read_u32 write_u32
read_one-write_u32 n h = ap read_u32 (sym (append-nil (write_u32 n))) ∙ read-write_impl 4 n [] h

-- A message is read as it was written, by the fields of `on_event`: its stream's id, if that is a
-- u32_t, its type, if that is a u16_t, and its data.
pub read_fields-encode :
    (id type : ℕ) (bytes : List ℕ)
    → id < u32_mod
    → type < 2 ^ 16
    → read_fields (encode id type bytes) ≡ some (id, type, bytes)
unfolding read_fields encode
read_fields-encode id type bytes h k =
    let tail : List ℕ = write_u16 type ++ bytes in
    rw (
      le→leb 6 (length (write_u32 id ++ tail)) (
          omega (
            arith,
            length-append (write_u32 id) tail,
            length-append (write_u16 type) bytes,
            length-write_u32 id,
            length-write_u16 type,
          )),
      read-write_u32 id tail h,
      drop-write_u32 id tail,
      read-write_u16 type bytes k,
      drop-write_u16 type bytes,
    )

-- The data of a message, and the bytes by which it widens a window.
unfoldable pub data_of : Option (ℕ × ℕ × List ℕ) → List ℕ
data_of none = []
data_of (some (id, t, bytes)) = if t == t_data then bytes else []

unfoldable pub credit_of : Option (ℕ × ℕ × List ℕ) → ℕ
credit_of none = 0
credit_of (some (id, t, bytes)) = if t == t_uwnd then read_u32 bytes else 0

-- The data of a sequence of messages, in order, and the bytes by which all of it widens a window.
unfoldable pub payloads : List (List ℕ) → List ℕ
unfolding data_of
payloads [] = []
payloads (m ∷ ms) = data_of (read_fields m) ++ payloads ms

unfoldable pub credits : List (List ℕ) → ℕ
unfolding credit_of
credits [] = 0
credits (m ∷ ms) = credit_of (read_fields m) + credits ms

pub payloads-append : (ms ns : List (List ℕ)) → payloads (ms ++ ns) ≡ payloads ms ++ payloads ns
unfolding payloads
payloads-append [] ns = refl
payloads-append (m ∷ ms) ns =
    ap (◌++◌ (data_of (read_fields m))) (payloads-append ms ns)
    ∙ sym (append_assoc (data_of (read_fields m)) (payloads ms) (payloads ns))

pub credits-append : (ms ns : List (List ℕ)) → credits (ms ++ ns) ≡ credits ms + credits ns
unfolding credits
credits-append [] ns = omega arith
credits-append (m ∷ ms) ns = omega (arith, credits-append ms ns)

-- One message of a stream.
module _ (id : ℕ) (h : id < u32_mod) where
  pub payloads-message :
      (type : ℕ) (bytes : List ℕ)
      → type < 2 ^ 16
      → payloads (encode id type bytes ∷ []) ≡ (if type == t_data then bytes else [])
  unfolding payloads
  payloads-message type bytes k = rw (read_fields-encode id type bytes h k) (append-nil _)

  pub credits-message :
      (type : ℕ) (bytes : List ℕ)
      → type < 2 ^ 16
      → credits (encode id type bytes ∷ []) ≡ (if type == t_uwnd then read_u32 bytes else 0)
  unfolding credits
  credits-message type bytes k = rw (read_fields-encode id type bytes h k) (omega arith)
