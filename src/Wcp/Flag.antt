-- ===== src/Wcp/Flag.antt =====
-- `WCP_Flag` of include/wawo/net/wcp.hpp: each is one bit of the 16-bit field `flag`.
use wawo.Prelude.{ℕ, ◌/◌, ◌%◌, Bool, ◌==◌}

abbrev pub syn : ℕ
syn = 1

abbrev pub ack : ℕ
ack = 2

abbrev pub sack : ℕ
sack = 4

abbrev pub fin : ℕ
fin = 8

abbrev pub rst : ℕ
rst = 16

abbrev pub wnd : ℕ
wnd = 32

abbrev pub dat : ℕ
dat = 64

abbrev pub keep_alive : ℕ
keep_alive = 128

abbrev pub keep_alive_reply : ℕ
keep_alive_reply = 256

-- `flag & bit`, for one bit.
unfoldable pub test_flag : ℕ → ℕ → Bool
test_flag flag bit = (flag / bit) % 2 == 1
