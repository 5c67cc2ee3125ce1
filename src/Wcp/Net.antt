-- ===== src/Wcp/Net.antt =====
-- Sending packs: `inject_to_address`, `reply_rst_to_address` and `WCB::send_pack` of src/net/wcp.cpp.
-- The socket is outside the model: `net n` is what `sendto` answers to the n-th message.
use wawo.Prelude.{ℕ, Option, none, some, ◌∷◌, ◌>>=◌, length, Bool, false, ◌==◌, ◌&&◌}
use wawo.Wcp.Flag
use wawo.Wcp.Pack.{Address, WcbPack, pack_to_udpmessage}
use wawo.Wcp.Types.{Wcb, Errno}
use wawo.Wcp.Queue.{control}

abbrev pub address_eq : Address → Address → Bool
address_eq a b = a.ip == b.ip && a.port == b.port

-- Against an address that may be null.
abbrev pub is_address : Option Address → Address → Bool
is_address none b = false
is_address (some a) b = address_eq a b

module _ (net : ℕ → Errno) where
  unfoldable pub inject_to_address : WcbPack → Address → Wcb → Option (Errno × Wcb)
  inject_to_address opack to w = pack_to_udpmessage opack >>= λ message.
      some (net (length w.outp), record w { outp = (message, to) ∷ w.outp })

  unfoldable pub reply_rst_to_address : ℕ → Address → Wcb → Option Wcb
  reply_rst_to_address seq to w =
      inject_to_address (control seq Flag.rst) to w >>= λ (ec, w'). some w'

  -- The pack as it goes out, with the acknowledgement and the window of now.
  unfoldable pub stamped : WcbPack → Wcb → WcbPack
  stamped pack w = record pack {
    header = record (pack.header) { ack = w.rcv_info.next; wnd = w.rcv_info.wnd };
  }

  unfoldable pub send_pack : WcbPack → Wcb → Option (Errno × Wcb)
  send_pack pack w = elim w.remote_addr [
    | none ↦ none
    | some to ↦ inject_to_address (stamped pack w) to w
  ]
