-- ===== src/Mux/Flow/Actions.antt =====
-- What the operations of a stream, include/wawo/net/peer/message/mux_cargo.hpp, leave of the windows.
use wawo.Prelude.{
  ℕ, ◌+◌, ◌-◌, ◌≤◌, ◌≡◌, refl, ap, ◌∙◌, true, false, Bool, Option, none, some, List, ◌++◌, arith,
  length, min, subst, ltb, leb, le→leb, ◌==◌, ==_iff, not, ◌||◌, if◌then◌else◌, Bool-cases, inl,
  inr, ◌>>=◌, assert, length-drop, take_all,
}
use wawo.Prelude.Words.{add32}
use wawo.Bytes.{read_u32}
use wawo.RingBuffer
use wawo.RingBuffer.{IsValid, BytesRingbuffer, contents, count, left_capacity}
use wawo.RingBuffer.Contents.{count-eq-length, count-add-left}
use wawo.RingBuffer.Read.{read_lem}
use wawo.RingBuffer.Write.{write_lem, write_nothing}
use wawo.Mux.{MuxCode, ok, is_established, MuxStream, mux_stream_wnd_size}
use wawo.Mux.Stream
use wawo.Mux.Stream.{write, read, close_write}
use wawo.Mux.Cargo.Arrive.{data_arrive, uwnd_arrive}
use wawo.Mux.Flow.{IsEnd}

-- A predicate of the result, if there is one.
abbrev pub OnSome {ℓ} : {A : Type ℓ} → (A → Type 0) → Option A → Type 0
OnSome P none = Unit {0}
OnSome P (some a) = P a

pub OnSome-bind {ℓ κ} :
    {A : Type ℓ} {B : Type κ} (P : B → Type 0) (o : Option A) (f : A → Option B)
    → OnSome (λ a. OnSome P (f a)) o
    → OnSome P (o >>= f)
OnSome-bind P none f h = tt
OnSome-bind P (some a) f h = h

pub OnSome-map {ℓ} :
    {A : Type ℓ} (P Q : A → Type 0) (o : Option A) → ((a : A) → P a → Q a) → OnSome P o → OnSome Q o
OnSome-map P Q none f h = tt
OnSome-map P Q (some a) f h = f a h

pub OnSome-and {ℓ} :
    {A : Type ℓ} (P Q : A → Type 0) (o : Option A)
    → OnSome P o
    → OnSome Q o
    → OnSome (λ a. P a × Q a) o
OnSome-and P Q none h k = tt
OnSome-and P Q (some a) h k = (h, k)

pub OnSome-if {ℓ} :
    {A : Type ℓ} (P : A → Type 0) (b : Bool) (x y : Option A)
    → OnSome P x
    → OnSome P y
    → OnSome P (if b then x else y)
OnSome-if P true x y h k = h
OnSome-if P false x y h k = k

-- Behind four assertions.
pub OnSome-asserts {ℓ} :
    {A B : Type ℓ} (P : B → Type 0) (a b c d : Bool) (x : A) (f : A → Option A) (g : A → Option B)
    → OnSome P (f x >>= g)
    → OnSome P (
        ((assert a >>= λ _. assert b >>= λ _. assert c >>= λ _. assert d >>= λ _. some x) >>= f)
        >>= g)
OnSome-asserts P false b c d x f g h = tt
OnSome-asserts P true false c d x f g h = tt
OnSome-asserts P true true false d x f g h = tt
OnSome-asserts P true true true false x f g h = tt
OnSome-asserts P true true true true x f g h = h

-- A result that is there has the predicate.
pub OnSome-some {ℓ} :
    {A : Type ℓ} (P : A → Type 0) {o : Option A} {a : A} → OnSome P o → o ≡ some a → P a
OnSome-some P h e = subst (OnSome P) e h

-- The bytes that an end holds and those that it has read.
abbrev pub received : MuxStream → ℕ
received s = length (contents s.rb) + s.rb_incre

-- A change of one end that leaves the windows as they are.
pub record Keeps (s s' : MuxStream) : Type 0 where
  pub end_kept : IsEnd s'
  pub wnd_kept : s'.wb_wnd ≡ s.wb_wnd
  pub received_kept : received s' ≡ received s

module _ (s : MuxStream) (i : IsEnd s) where
  -- A change of flags and of the ring of the bytes that wait.
  same_windows :
      (s' : MuxStream)
      → IsValid s'.wb
      → s'.id ≡ s.id
      → s'.wb_wnd ≡ s.wb_wnd
      → s'.rb ≡ s.rb
      → s'.rb_incre ≡ s.rb_incre
      → Keeps s s'
  same_windows s' v e f g h = record {
    end_kept = record {
      ready = record {
        valid = v;
        id_in = omega (arith, e, i.ready.id_in);
        wnd_in = omega (arith, f, i.ready.wnd_in);
        incre_in = omega (arith, h, i.ready.incre_in);
      };
      rb_valid = rw g (i.rb_valid);
      rb_size = ap (λ (r : BytesRingbuffer). r.m_capacity) g ∙ i.rb_size;
    };
    wnd_kept = f;
    received_kept = omega (arith, h, ap (λ r. length (contents r)) g);
  }

  pub write-Keeps : (bytes : List ℕ) → OnSome (λ r. Keeps s r.1) (Stream.write bytes s)
  unfolding write
  write-Keeps bytes = elim (Bool-cases (s.flag.write_shutdown_called || s.flag.write_shutdown)) [
    | inl e ↦ rw e (same_windows s i.ready.valid refl refl refl refl)
    | inr e ↦ elim (Bool-cases (ltb (left_capacity s.wb) (length bytes))) [
      | inl f ↦ rw (e, f) (same_windows _ i.ready.valid refl refl refl refl)
      | inr f ↦ elim (Bool-cases (length bytes == 0)) [
        | inl z ↦ rw (e, f, write_nothing s.wb bytes ((==_iff _ _).0 z)) tt
        | inr z ↦
            let (wb', (stored, v, held, cap)) = write_lem s.wb bytes i.ready.valid (ground arith) in
            let whole : (min (length bytes) (left_capacity s.wb) == length bytes) ≡ true =
              ground arith in
            rw (e, f, stored, whole) (same_windows _ v refl refl refl refl)
      ]
    ]
  ]

  pub close_write-Keeps : OnSome (λ r. Keeps s r.1) (Stream.close_write s)
  unfolding close_write
  close_write-Keeps =
      OnSome-if kept s.flag.write_shutdown_called _ _
        (same_windows s i.ready.valid refl refl refl refl)
        (OnSome-asserts kept (is_established s.state) (not (s.id == 0))
          (not s.flag.write_shutdown_called) (not s.flag.plan_fin)
          (record s { flag = record (s.flag) { plan_fin = true } })
          (λ s'. some (record s' { flag = record (s'.flag) { write_shutdown_called = true } }))
          (λ s'. some (ok, s')) (same_windows _ i.ready.valid refl refl refl refl))
    where
      kept : MuxCode × MuxStream → Type 0
      kept r = Keeps s r.1

  pub read-Keeps :
      (n : ℕ)
      → received s ≤ mux_stream_wnd_size
      → OnSome (λ (r : ℕ × List ℕ × MuxStream). Keeps s r.2) (Stream.read n s)
  unfolding read
  read-Keeps n bound =
      OnSome-if (λ (r : ℕ × List ℕ × MuxStream). Keeps s r.2) (count s.rb == 0) _ _
        (same_windows s i.ready.valid refl refl refl refl) (taken _)
    where
      taken :
          (m : ℕ)
          → OnSome
              (λ (r : ℕ × List ℕ × MuxStream). Keeps s r.2)
              (RingBuffer.read m true s.rb >>= λ (rcount, pack, rb').
                some (rcount, pack, record s { rb = rb'; rb_incre = add32 s.rb_incre rcount }))
      taken m =
          let (rb', (got, v, rest, cap)) = read_lem s.rb m true i.rb_valid in
          let left : length (contents rb') ≡ length (contents s.rb) - m =
            omega (arith, ap (length {A = ℕ}) rest, length-drop m (contents s.rb)) in
          rw got (record {
            end_kept = record {
              ready = record {
                valid = i.ready.valid;
                id_in = i.ready.id_in;
                wnd_in = i.ready.wnd_in;
                incre_in = omega arith;
              };
              rb_valid = v;
              rb_size = cap ∙ i.rb_size;
            };
            wnd_kept = refl;
            received_kept = omega (arith, left, count-eq-length s.rb i.rb_valid);
          })

  -- Data that the window allows is stored, all of it.
  pub data_arrive_lem :
      (bytes : List ℕ)
      → length (contents s.rb) + length bytes ≤ mux_stream_wnd_size
      → (length bytes ≤ left_capacity s.rb)
        × OnSome
            (λ s'.
              IsEnd s'
              × (s'.wb_wnd ≡ s.wb_wnd)
              × (contents s'.rb ≡ contents s.rb ++ bytes)
              × (s'.rb_incre ≡ s.rb_incre)
              × (s'.wb ≡ s.wb))
            (data_arrive bytes s)
  unfolding data_arrive
  data_arrive_lem bytes fits = (
    room,
    elim (Bool-cases (length bytes == 0)) [
      | inl z ↦ rw (enough, write_nothing s.rb bytes ((==_iff _ _).0 z)) tt
      | inr z ↦
          let (rb', (stored, v, held, cap)) = write_lem s.rb bytes i.rb_valid (ground arith) in
          rw (enough, stored)
            (
              record {
                ready = record {
                  valid = i.ready.valid;
                  id_in = i.ready.id_in;
                  wnd_in = i.ready.wnd_in;
                  incre_in = i.ready.incre_in;
                };
                rb_valid = v;
                rb_size = cap ∙ i.rb_size;
              },
              refl,
              held ∙ ap (◌++◌ (contents s.rb)) (take_all (left_capacity s.rb) bytes room),
              refl,
              refl,
            )
    ],
  )
    where
      room : length bytes ≤ left_capacity s.rb
      room =
          omega (arith, count-add-left s.rb i.rb_valid, count-eq-length s.rb i.rb_valid, i.rb_size)

      enough : leb (length bytes) (left_capacity s.rb) ≡ true
      enough = le→leb _ _ room

  -- The window is widened by as much as was sent, if there is room in it.
  pub uwnd_arrive_lem :
      (bytes : List ℕ)
      → s.wb_wnd + read_u32 bytes ≤ mux_stream_wnd_size
      → OnSome
          (λ s'.
            IsEnd s'
            × (s'.wb_wnd ≡ s.wb_wnd + read_u32 bytes)
            × (s'.rb ≡ s.rb)
            × (s'.rb_incre ≡ s.rb_incre)
            × (s'.wb ≡ s.wb))
          (uwnd_arrive bytes s)
  unfolding uwnd_arrive
  uwnd_arrive_lem bytes fits = elim (Bool-cases (length bytes == 4)) [
    | inr e ↦ rw e tt
    | inl e ↦ rw e (
      record {
        ready = record {
          valid = i.ready.valid;
          id_in = i.ready.id_in;
          wnd_in = omega arith;
          incre_in = i.ready.incre_in;
        };
        rb_valid = i.rb_valid;
        rb_size = i.rb_size;
      },
      omega arith,
      refl,
      refl,
      refl,
    )
  ]
