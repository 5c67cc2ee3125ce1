-- ===== src/Mux/Flow.antt =====
-- The two ends of one stream of include/wawo/net/peer/mux_cargo.hpp and the messages between them,
-- which arrive in the order in which the sockets took them.
pub mod Actions
pub mod Bytes
pub mod History
pub mod InOrder
pub mod Receive
pub mod Window
mod Tests
use wawo.Prelude.{
  ℕ, ◌+◌, ◌≤◌, ◌<◌, ◌≡◌, Bool, Option, none, some, List, [], ◌∷◌, ◌==◌, if◌then◌else◌, ◌>>=◌,
  length,
}
use wawo.Prelude.Words.{u32_mod}
use wawo.RingBuffer.{IsValid, contents}
use wawo.RingBuffer.Contents.{fresh}
use wawo.Mux.{MuxCode, MuxStream, Socket, mux_stream_wnd_size, read_fields, t_data, t_uwnd, t_rst}
use wawo.Mux.Stream
use wawo.Mux.Message.{payloads, credits}
use wawo.Mux.Flush.{flush}
use wawo.Mux.Flush.Whole.{Ready}
use wawo.Mux.Cargo.Arrive.{data_arrive, uwnd_arrive}

-- Both ends, with what each socket took that the other end has not got yet.
pub record System : Type 0 where
  pub a : MuxStream
  pub to_b : Socket
  pub b : MuxStream
  pub to_a : Socket

-- The other end first.
unfoldable pub turned : System → System
turned x = record { a = x.b; to_b = x.to_a; b = x.a; to_a = x.to_b }

-- What one end does, and the change of ends. `net` is what the socket answers to this flush.
pub data Act : Type 0 where
  writes : List ℕ → Act
  reads : ℕ → Act
  shuts_write : Act
  flushes : (ℕ → MuxCode) → Act
  receives : Act
  turns : Act

-- What `stream_arrive` does to a stream that reads; a reset ends the run.
unfoldable pub receive : ℕ → List ℕ → MuxStream → Option MuxStream
receive t bytes s =
    let arrived = data_arrive bytes s in
    let widened = uwnd_arrive bytes s in
    if t == t_data
    then (if s.flag.read_shutdown then none else arrived)
    else (if t == t_uwnd then widened else (if t == t_rst then none else some s))

unfoldable pub receive_front : List (List ℕ) → System → Option System
unfolding receive
receive_front [] x = some x
receive_front (m ∷ ms) x = read_fields m >>= λ (id, t, bytes).
    receive t bytes x.a >>= λ s. some (record x { a = s; to_a = record (x.to_a) { sent = ms } })

unfoldable pub act : ℕ → Act → System → Option System
unfolding receive_front turned
act snd_size (writes bytes) x = Stream.write bytes x.a >>= λ (ec, s). some (record x { a = s })
act snd_size (reads n) x = Stream.read n x.a >>= λ (count, bytes, s). some (record x { a = s })
act snd_size shuts_write x = Stream.close_write x.a >>= λ (ec, s). some (record x { a = s })
act snd_size (flushes net) x =
    flush net snd_size x.a x.to_b >>= λ (wflag, (ec_o, s, so)). some (record x { a = s; to_b = so })
act snd_size receives x = receive_front x.to_a.sent x
act snd_size turns x = some (turned x)

-- An end as `init` leaves it.
pub record Fresh (s : MuxStream) : Type 0 where
  pub id_in : s.id < u32_mod
  pub rb_fresh : s.rb ≡ fresh mux_stream_wnd_size
  pub wb_fresh : s.wb ≡ fresh mux_stream_wnd_size
  pub incre_none : s.rb_incre ≡ 0
  pub wnd_whole : s.wb_wnd ≡ mux_stream_wnd_size

-- The systems that a run from two fresh ends comes to.
pub data Reachable (snd_size : ℕ) : System → Type 0 where
  start :
      (x : System)
      → Fresh x.a
      → Fresh x.b
      → x.to_b.sent ≡ []
      → x.to_a.sent ≡ []
      → Reachable snd_size x
  acts :
      (c : Act) (x y : System)
      → Reachable snd_size x
      → act snd_size c x ≡ some y
      → Reachable snd_size y

-- The sizes of one end.
pub record IsEnd (s : MuxStream) : Type 0 where
  pub ready : Ready s
  pub rb_valid : IsValid s.rb
  pub rb_size : s.rb.m_capacity ≡ mux_stream_wnd_size + 1

-- The window of one end, the data on the way, the bytes that the other end holds, those that it has
-- read, and the window on the way back make up MUX_STREAM_WND_SIZE.
unfoldable pub window : MuxStream → List (List ℕ) → MuxStream → List (List ℕ) → ℕ
window s out t back =
    s.wb_wnd + (length (payloads out) + (length (contents t.rb) + (t.rb_incre + credits back)))

-- Both ends are sound, and so are both directions.
pub record Balanced (x : System) : Type 0 where
  pub end_a : IsEnd x.a
  pub end_b : IsEnd x.b
  pub forth : window x.a x.to_b.sent x.b x.to_a.sent ≡ mux_stream_wnd_size
  pub back : window x.b x.to_a.sent x.a x.to_b.sent ≡ mux_stream_wnd_size
