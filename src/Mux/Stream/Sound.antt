-- ===== src/Mux/Stream/Sound.antt =====
-- The flags of a stream, include/wawo/net/peer/message/mux_cargo.hpp, and the assertions of its
-- operations.
use wawo.Prelude.{
  ◌≡◌, refl, true, false, Bool, some, arith, ◌==◌, not, ◌&&◌, ◌||◌, if◌then◌else◌, Bool-cases, inl,
  inr,
}
use wawo.Mux.{ok, e_mux_stream_cargo_stream_closed_already, StreamFlag, MuxStream, is_established}
use wawo.Mux.Stream.{shut_read, shut_write, close, force_close, is_read_write_closed}

-- What the flags may be, `up` telling whether the state is SS_ESTABLISHED: a direction that is shut
-- was asked to be, a writing side that was asked to be shut has a FIN to send or is shut, and a stream
-- that is not established is shut both ways.
abbrev pub flags_sound : Bool → StreamFlag → Bool
flags_sound up f =
    (if f.read_shutdown_called then f.read_shutdown else not f.read_shutdown)
    && ((if f.write_shutdown_called
          then f.plan_fin || f.write_shutdown
          else not (f.plan_fin || f.write_shutdown))
        && (up || (f.read_shutdown && f.write_shutdown)))

-- An opened stream in order.
pub record IsSound (s : MuxStream) : Type 0 where
  pub id_given : (s.id == 0) ≡ false
  pub flags : flags_sound (is_established s.state) s.flag ≡ true

pub force_close-IsSound : (s : MuxStream) → IsSound s → IsSound (force_close s)
unfolding force_close
force_close-IsSound s i = record { id_given = i.id_given; flags = ground arith }

pub shut_read-IsSound : (s : MuxStream) → IsSound s → IsSound (shut_read s)
unfolding shut_read
shut_read-IsSound s i = record { id_given = i.id_given; flags = ground (arith, i.flags) }

-- What `close` promises of its result.
pub record Closes (s s' : MuxStream) : Type 0 where
  pub returns :
      close s
      ≡ some (
        (if s.flag.read_shutdown_called && s.flag.write_shutdown_called
            then e_mux_stream_cargo_stream_closed_already
            else ok),
        s',
      )
  pub sound : IsSound s'
  pub shut : is_read_write_closed s' ≡ true
  pub asked : (s'.flag.read_shutdown_called && s'.flag.write_shutdown_called) ≡ true
  pub bytes_kept : s'.wb ≡ s.wb
  pub id_kept : s'.id ≡ s.id
  pub ctx_kept : s'.ctx ≡ s.ctx

-- The stream that has a FIN to send.
abbrev with_fin : MuxStream → MuxStream
with_fin s = record s { flag = record (s.flag) { plan_fin = true; write_shutdown_called = true } }

shut_write_lem :
    (s : MuxStream)
    → IsSound s
    → s.flag.write_shutdown_called ≡ false
    → (shut_write s ≡ some (with_fin s)) × IsSound (with_fin s)
unfolding shut_write
shut_write_lem s i e = (
  ground (arith, i.flags, i.id_given, e),
  record { id_given = i.id_given; flags = ground (arith, i.flags, e) },
)

module _ (s : MuxStream) (i : IsSound s) where
  closed_both :
      s.flag.read_shutdown_called ≡ true → s.flag.write_shutdown_called ≡ true → Closes s s
  closed_both e f = record {
    returns = unfold close in ground (arith, e, f);
    sound = i;
    shut = unfold is_read_write_closed in ground (arith, i.flags, e, f);
    asked = ground (arith, e, f);
    bytes_kept = refl;
    id_kept = refl;
    ctx_kept = refl;
  }

  closed_reads :
      s.flag.read_shutdown_called ≡ false
      → s.flag.write_shutdown_called ≡ true
      → Closes s (shut_read s)
  closed_reads e f = record {
    returns = unfold close in ground (arith, e, f);
    sound = shut_read-IsSound s i;
    shut = unfold is_read_write_closed shut_read in ground (arith, i.flags, f);
    asked = unfold shut_read in ground (arith, f);
    bytes_kept = unfold shut_read in refl;
    id_kept = unfold shut_read in refl;
    ctx_kept = unfold shut_read in refl;
  }

  closed_writes :
      s.flag.read_shutdown_called ≡ true
      → s.flag.write_shutdown_called ≡ false
      → Closes s (with_fin s)
  closed_writes e f =
      let (done, sound) = shut_write_lem s i f in
      record {
        returns = unfold close in ground (arith, e, f, done);
        sound = sound;
        shut = unfold is_read_write_closed in ground (arith, i.flags, e);
        asked = ground (arith, e);
        bytes_kept = refl;
        id_kept = refl;
        ctx_kept = refl;
      }

  closed_all :
      s.flag.read_shutdown_called ≡ false
      → s.flag.write_shutdown_called ≡ false
      → Closes s (with_fin (shut_read s))
  closed_all e f =
      let f' : (shut_read s).flag.write_shutdown_called ≡ false = unfold shut_read in f in
      let (done, sound) = shut_write_lem (shut_read s) (shut_read-IsSound s i) f' in
      record {
        returns = unfold close in ground (arith, e, f, done, f');
        sound = sound;
        shut = unfold is_read_write_closed shut_read in refl;
        asked = unfold shut_read in refl;
        bytes_kept = unfold shut_read in refl;
        id_kept = unfold shut_read in refl;
        ctx_kept = unfold shut_read in refl;
      }

-- `close` of an opened stream whose flags are in order fails no assertion. It answers
-- E_MUX_STREAM_CARGO_STREAM_CLOSED_ALREADY if both sides had been asked to be shut, else OK; behind it
-- both have been asked, `is_read_write_closed` holds, the flags are in order, and the bytes that wait
-- stay.
pub close_lem : (s : MuxStream) → IsSound s → (s' : MuxStream) × Closes s s'
close_lem s i = elim (Bool-cases s.flag.read_shutdown_called) [
  | inl e ↦ elim (Bool-cases s.flag.write_shutdown_called) [
    | inl f ↦ (s, closed_both s i e f)
    | inr f ↦ (with_fin s, closed_writes s i e f)
  ]
  | inr e ↦ elim (Bool-cases s.flag.write_shutdown_called) [
    | inl f ↦ (shut_read s, closed_reads s i e f)
    | inr f ↦ (with_fin (shut_read s), closed_all s i e f)
  ]
]
