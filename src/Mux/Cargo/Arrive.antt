-- ===== src/Mux/Cargo/Arrive.antt =====
-- The case E_PACKET_ARRIVE of `mux_cargo::on_event`, include/wawo/net/peer/mux_cargo.hpp.
use wawo.Prelude.{
  ℕ, Bool, false, true, Option, none, some, List, [], ◌∷◌, ◌++◌, leb, ◌==◌, not, min, length,
  if◌then◌else◌, ◌>>=◌, ◌>>◌, assert,
}
use wawo.Prelude.Words.{add32}
use wawo.Bytes.{read_u32}
use wawo.RingBuffer
use wawo.RingBuffer.{left_capacity}
use wawo.Mux.{
  MuxCode, MuxStream, ss_established, mux_stream_wnd_size, read_fields, t_syn, t_data, t_uwnd,
  t_rst, t_fin, t_accepted, t_mux_stream_message_type_max,
}
use wawo.Mux.Stream
use wawo.Mux.Stream.{stream, force_close}
use wawo.Mux.Cargo.{
  MuxCargo, PeerEvent, e_message, is_attached, find, insert, store, stream_snd_rst,
}

-- A stream of the map has changed, and an event is triggered.
abbrev with_stream : ℕ → MuxStream → List PeerEvent → MuxCargo → MuxCargo
with_stream id s evts c = record c {
  m_stream_map = store id s c.m_stream_map;
  events = c.events ++ evts;
}

-- The data of a T_DATA, for a stream that reads.
unfoldable pub data_arrive : List ℕ → MuxStream → Option MuxStream
data_arrive inpack s =
    assert (leb (length inpack) (left_capacity s.rb))
    >> (RingBuffer.write inpack s.rb >>= λ (n, rb'). some (record s { rb = rb' }))

-- The bytes by which a T_UWND widens the window.
unfoldable pub uwnd_arrive : List ℕ → MuxStream → Option MuxStream
uwnd_arrive inpack s =
    assert (length inpack == 4)
    >> some (record s { wb_wnd = min mux_stream_wnd_size (add32 s.wb_wnd (read_u32 inpack)) })

abbrev is_null : Option ℕ → Bool
is_null none = true
is_null (some ctx) = false

module _ (net : ℕ → MuxCode) where
  unfoldable pub syn_arrive : ℕ → List ℕ → MuxCargo → Option MuxCargo
  syn_arrive stream_id inpack c =
      assert (length inpack == 0) >> elim (find stream_id c.m_stream_map) [
        | some s ↦ stream_snd_rst net stream_id c
        | none ↦ Stream.init (record stream { state = ss_established; id = stream_id }) >>= λ s.
            some (record c {
              m_stream_map = insert stream_id s c.m_stream_map;
              events = c.events ++ e_message t_accepted stream_id none ∷ [];
            })
      ]

  -- A packet of type `t` for the stream `s`.
  unfoldable pub stream_arrive : ℕ → ℕ → List ℕ → MuxStream → MuxCargo → Option MuxCargo
  stream_arrive t stream_id inpack s c =
      let written = data_arrive inpack s >>= λ s'.
      some (with_stream stream_id s' (e_message t_data stream_id s.ctx ∷ []) c) in
      let widened = uwnd_arrive inpack s >>= λ s'. some (with_stream stream_id s' [] c) in
      if t == t_data
      then (if s.flag.read_shutdown then stream_snd_rst net stream_id c else written)
      else (if t == t_fin
          then (assert (not (is_null s.ctx))
              >> some (with_stream stream_id s (e_message t_fin stream_id s.ctx ∷ []) c))
          else (if t == t_rst
              then some (with_stream stream_id (force_close s) [] c)
              else (if t == t_uwnd then widened else some c)))

  unfoldable pub packet_arrive : List ℕ → MuxCargo → Option MuxCargo
  packet_arrive packet c =
      let arrived = read_fields packet >>= λ (stream_id, t, inpack).
      assert (not (stream_id == 0))
      >> (if leb t_mux_stream_message_type_max t
          then some c
          else (if t == t_syn
              then syn_arrive stream_id inpack c
              else elim (find stream_id c.m_stream_map) [
                | none ↦ if t == t_rst then some c else stream_snd_rst net stream_id c
                | some s ↦ stream_arrive t stream_id inpack s c
              ])) in
      if is_attached c.m_mux_state then arrived else some c
