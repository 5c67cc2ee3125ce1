-- ===== src/Wcp/Queue.antt =====
-- The packs that a control block makes: SYN to update_rwnd of include/wawo/net/wcp.hpp.
use wawo.Prelude.{
  ℕ, zero, suc, ◌+◌, ◌*◌, ◌/◌, ◌%◌, ◌^◌, Option, none, some, List, [], ◌∷◌, ◌++◌, leb,
  if◌then◌else◌, ◌==◌, length, take, drop,
}
use wawo.Prelude.Words.{add32}
use wawo.Wcp.Pack.{WcbPack, WcbReceivedPack, wcp_mdu}
use wawo.Wcp.Flag
use wawo.Wcp.Types.{Wcb, closed, syn_received}

-- A pack with no data, not sent yet.
abbrev pub control : ℕ → ℕ → WcbPack
control seq flag = record {
  header = record { seq = seq; ack = 0; wnd = 0; flag = flag; dlen = 0 };
  data_bytes = [];
  sent_ts = 0;
  sent_times = 0;
}

-- The pack takes the next sequence number, and waits behind the others.
unfoldable pub enqueue : ℕ → Wcb → Wcb
enqueue flag w = record w {
  snd_info = record (w.snd_info) { dsn = add32 w.snd_info.dsn 1 };
  s_sending_standby = w.s_sending_standby ++ control w.snd_info.dsn flag ∷ [];
}

unfoldable pub syn : Wcb → Wcb
syn w = enqueue Flag.syn w

unfoldable pub synack : Wcb → Wcb
synack w = enqueue Flag.ack w

unfoldable pub synsynack : Wcb → Wcb
synsynack w = enqueue (Flag.syn + Flag.ack) w

unfoldable pub fin : Wcb → Wcb
fin w = enqueue Flag.fin w

unfoldable pub finack : Wcb → Wcb
finack w = enqueue Flag.ack w

-- The packs outside the sequence.
unfoldable pub enqueue_ignore_seq : WcbPack → Wcb → Wcb
enqueue_ignore_seq p w = record w {
  s_sending_ignore_seq_space = w.s_sending_ignore_seq_space ++ p ∷ [];
}

unfoldable pub keepalive : Wcb → Wcb
keepalive w = enqueue_ignore_seq (control w.snd_info.dsn Flag.keep_alive) w

unfoldable pub keepalive_reply : Wcb → Wcb
keepalive_reply w = enqueue_ignore_seq (control w.snd_info.dsn Flag.keep_alive_reply) w

unfoldable pub update_rwnd : Wcb → Wcb
update_rwnd w = enqueue_ignore_seq (control w.snd_info.dsn Flag.wnd) w

-- The most bytes of acknowledgements that one pack carries.
abbrev pub pack_acked_max_bytes : ℕ
pack_acked_max_bytes = wcp_mdu / 4 * 4

-- The packs that SACK makes of the bytes, each pushed twice (WCP_SND_SACK_DUP_COUNT is 1). The first
-- argument bounds the rounds; every round takes a byte at least, so their number is enough.
unfoldable pub sack_packs : ℕ → ℕ → List ℕ → List WcbPack
sack_packs zero dsn bytes = []
sack_packs (suc fuel) dsn bytes =
    let wlen =
      if leb pack_acked_max_bytes (length bytes) then pack_acked_max_bytes else length bytes in
    let opack = record (control dsn Flag.sack) {
      header = record { seq = dsn; ack = 0; wnd = 0; flag = Flag.sack; dlen = wlen % 2 ^ 16 };
      data_bytes = take wlen bytes;
    } in
    let rest = opack ∷ opack ∷ sack_packs fuel dsn (drop wlen bytes) in
    if length bytes == 0 then [] else rest

unfoldable pub sack : List ℕ → Wcb → Wcb
sack bytes w = record w {
  s_sending_ignore_seq_space =
      w.s_sending_ignore_seq_space ++ sack_packs (length bytes) w.snd_info.dsn bytes;
}

-- SYN_RCVD, of a block in state CLOSED.
unfoldable pub syn_rcvd : WcbReceivedPack → Wcb → Option Wcb
syn_rcvd synpack w = elim w.state [
  | closed ↦ some (record w {
    received_vec_standby = w.received_vec_standby ++ synpack ∷ [];
    state = syn_received;
  })
  | _ ↦ none
]
