-- ===== src/Wcp/Recv/Insert.antt =====
-- The place of a received pack: the walk over `rcv_received` in `WCB::check_recv` of src/net/wcp.cpp.
pub mod Sorted
use mathlib.Core.List.{reverse}
use wawo.Prelude.{ℕ, List, [], ◌∷◌, ltb, ◌==◌, if◌then◌else◌}
use wawo.Wcp.Pack.{WcbReceivedPack}

-- The list from its end: packs with greater numbers are passed, an equal one makes the new pack a
-- duplicate.
unfoldable pub insert_from_back : WcbReceivedPack → List WcbReceivedPack → List WcbReceivedPack
insert_from_back pack [] = pack ∷ []
insert_from_back pack (q ∷ qs) =
    if q.header.seq == pack.header.seq
    then q ∷ qs
    else (if ltb pack.header.seq q.header.seq then q ∷ insert_from_back pack qs else pack ∷ q ∷ qs)

unfoldable pub insert : WcbReceivedPack → List WcbReceivedPack → List WcbReceivedPack
insert pack l = reverse (insert_from_back pack (reverse l))
