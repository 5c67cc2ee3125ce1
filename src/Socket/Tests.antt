-- ===== src/Socket/Tests.antt =====
-- A socket of src/net/socket.cpp on concrete values.
use wawo.Prelude.{ℕ, ◌≡◌, refl, true, false, some, [], ◌∷◌, ap, arith, length-replicate}
use wawo.RingBuffer.{IsValid, malloc, count, capacity}
use wawo.Socket.{SocketCode, ok, is_ok, SysSent, took, DataSocket, send, flush}
use wawo.Socket.Kernel.{IsKernel}
use wawo.Socket.Send.{Passes, send-Passes}
use wawo.Socket.Flush.{Flushes, flush-Flushes}

-- A kernel that takes a byte at a time.
abbrev slow_kernel : ℕ → ℕ → SysSent
slow_kernel i len = took 1

counted : SysSent → ℕ
counted (took n) = n
counted _ = 0

slow_kernel-IsKernel : IsKernel slow_kernel
unfolding counted
slow_kernel-IsKernel = record {
  takes = λ i len n pos e. (omega (arith, ap counted e), omega (arith, ap counted e));
  quiet = λ i len e. absurd (cc);
}

-- A nonblocking socket whose buffer holds 5 bytes.
abbrev waiting_socket : DataSocket
waiting_socket = record {
  m_sb = record { m_capacity = 4097; m_begin = 0; m_end = 5; m_buffer = malloc 4097 };
  snd_size = 4096;
  write_shutdown = false;
  nonblocking = true;
  watch_write = true;
  watch_infinite = false;
  m_async_wt = 1000;
  m_delay_wp = 30000;
  wire = 1 ∷ 2 ∷ [];
  calls = 2;
  events = [];
}

waiting_socket-IsValid : IsValid waiting_socket.m_sb
waiting_socket-IsValid = record {
  storage = length-replicate {A = ℕ} 4097 b'i';
  room = omega arith;
  small = omega arith;
  begin_in = omega arith;
  end_in = omega arith;
}

send-Passes_example :
    (n : ℕ) × (ec : SocketCode) × (s' : DataSocket) × (send slow_kernel
        (7 ∷ 8 ∷ 9 ∷ [])
        true
        ok
        2000
        waiting_socket
      ≡ some (n, ec, s'))
    × Passes (7 ∷ 8 ∷ 9 ∷ []) n waiting_socket s'
unfolding capacity
send-Passes_example =
    send-Passes slow_kernel slow_kernel-IsKernel (7 ∷ 8 ∷ 9 ∷ []) true ok 2000 waiting_socket
      waiting_socket-IsValid refl (omega arith) (omega arith)

flush-Flushes_example :
    (n : ℕ) × (ec : SocketCode) × (s' : DataSocket) × (flush slow_kernel waiting_socket
      ≡ some (n, ec, s'))
    × Flushes slow_kernel slow_kernel-IsKernel waiting_socket s'
    × (is_ok ec ≡ true → count s'.m_sb ≡ 0)
flush-Flushes_example =
    flush-Flushes slow_kernel slow_kernel-IsKernel waiting_socket waiting_socket-IsValid
      (omega arith) refl
