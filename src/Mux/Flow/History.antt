-- ===== src/Mux/Flow/History.antt =====
-- Both ends of a stream of include/wawo/net/peer/mux_cargo.hpp with what was written and read there.
use wawo.Prelude.{ℕ, ◌≡◌, Option, some, List, [], ◌++◌, if◌then◌else◌, ◌>>=◌}
use wawo.RingBuffer.{contents}
use wawo.Mux.{is_ok, MuxStream}
use wawo.Mux.Stream
use wawo.Mux.Message.{payloads}
use wawo.Mux.Flush.Whole.{Fits}
use wawo.Mux.Flow.{
  System, turned, Act, writes, reads, shuts_write, flushes, receives, turns, act, Fresh, Balanced,
}

-- The bytes that `write` took at each end, and those that `read` gave out there, in order.
pub record History : Type 0 where
  pub sys : System
  pub wrote_a : List ℕ
  pub got_a : List ℕ
  pub wrote_b : List ℕ
  pub got_b : List ℕ

-- An action, with what it adds.
unfoldable pub record_act : ℕ → Act → History → Option History
unfolding turned
record_act snd_size (writes bytes) h = Stream.write bytes h.sys.a >>= λ (ec, s). some (record h {
  sys = record (h.sys) { a = s };
  wrote_a = h.wrote_a ++ (if is_ok ec then bytes else []);
})
record_act snd_size (reads n) h = Stream.read n h.sys.a >>= λ (count, pack, s).
    some (record h { sys = record (h.sys) { a = s }; got_a = h.got_a ++ pack })
record_act snd_size shuts_write h =
    act snd_size shuts_write h.sys >>= λ x. some (record h { sys = x })
record_act snd_size (flushes net) h =
    act snd_size (flushes net) h.sys >>= λ x. some (record h { sys = x })
record_act snd_size receives h = act snd_size receives h.sys >>= λ x. some (record h { sys = x })
record_act snd_size turns h = some (record {
  sys = turned h.sys;
  wrote_a = h.wrote_b;
  got_a = h.got_b;
  wrote_b = h.wrote_a;
  got_b = h.got_a;
})

-- All bytes that were written at one end are, in order: those that were read at the other end, those
-- that it holds, those on the way, and those that wait.
unfoldable pub InOrder : List ℕ → MuxStream → List (List ℕ) → MuxStream → List ℕ → Type 0
InOrder wrote s out t got = wrote ≡ got ++ (contents t.rb ++ (payloads out ++ contents s.wb))

pub record Conserved (h : History) : Type 0 where
  pub balanced : Balanced h.sys
  pub forth : InOrder h.wrote_a h.sys.a h.sys.to_b.sent h.sys.b h.got_b
  pub back : InOrder h.wrote_b h.sys.b h.sys.to_a.sent h.sys.a h.got_a

-- When a stream is flushed for the first time, the bytes that wait fit into the buffer.
unfoldable pub Fitting : ℕ → Act → History → Type 0
Fitting snd_size (flushes net) h = Fits snd_size h.sys.a
Fitting snd_size c h = Unit {0}

-- The histories of runs from two fresh ends.
pub data Recorded (snd_size : ℕ) : History → Type 0 where
  start :
      (h : History)
      → Fresh h.sys.a
      → Fresh h.sys.b
      → h.sys.to_b.sent ≡ []
      → h.sys.to_a.sent ≡ []
      → h.wrote_a ≡ []
      → h.got_a ≡ []
      → h.wrote_b ≡ []
      → h.got_b ≡ []
      → Recorded snd_size h
  acts :
      (c : Act) (h h' : History)
      → Recorded snd_size h
      → Fitting snd_size c h
      → record_act snd_size c h ≡ some h'
      → Recorded snd_size h'
