-- ===== src/Wcp/Tests.antt =====
-- The theorems on the reliable transport at concrete values, with the blocks and packs they share.
mod Receive
mod Transmit
mod Life
use wawo.Prelude.{
  ℕ, ◌+◌, ◌≡◌, refl, true, false, Bool, Option, none, some, List, [], ◌∷◌, arith, replicate,
}
use wawo.RingBuffer.{BytesRingbuffer, IsValid}
use wawo.Wcp.Flag
use wawo.Wcp.Pack.{WcpHeader, Address, WcbPack, WcbReceivedPack}
use wawo.Wcp.Types.{Wcb, Errno, ok, WcbState, established, WcbSndInfo, WcbRcvInfo}
use wawo.Wcp.State.{initial}

-- A ring of eight bytes, with nothing in it.
abbrev pub small_ring : BytesRingbuffer
small_ring = record { m_capacity = 9; m_begin = 0; m_end = 0; m_buffer = replicate 9 0 }

pub small_ring-IsValid : IsValid small_ring
small_ring-IsValid = record {
  storage = refl;
  room = omega arith;
  small = omega arith;
  begin_in = omega arith;
  end_in = omega arith;
}

abbrev pub peer : Address
peer = record { ip = 0x0a000001; port = 12120 }

-- A socket that takes every message.
abbrev pub quiet : ℕ → Errno
quiet n = ok

-- An established connection at the numbers 7 and 11.
abbrev pub block : Wcb
block =
    let b = initial small_ring 0 in
    record b {
      state = established;
      remote_addr = some peer;
      rcv_info = record (b.rcv_info) { next = 7 };
      snd_info = record (b.snd_info) { next = 11; una = 11; dsn = 12 };
    }

abbrev pub header : ℕ → ℕ → ℕ → WcpHeader
header seq flag dlen = record { seq = seq; ack = 0; wnd = 100; flag = flag; dlen = dlen }

abbrev pub received : ℕ → List ℕ → ℕ → WcbReceivedPack
received seq bytes n = record {
  header = header seq (Flag.dat + Flag.ack) n;
  data_bytes = bytes;
  from = peer;
}

abbrev pub outgoing : ℕ → List ℕ → ℕ → WcbPack
outgoing seq bytes n = record {
  header = header seq (Flag.dat + Flag.ack) n;
  data_bytes = bytes;
  sent_ts = 0;
  sent_times = 0;
}
