-- ===== src/Sockets/Datagrams.antt =====
-- What udo_…_send_data and udo_…_recv_data of src/sock-udp.c, usock-udp.c and vsock-udp.c answer, and
-- the calls that they make.
use libcando.Base.{ℕ, ◌≤◌, true, false, some, List, ◌∷◌, ◌≡◌, arith, ◌==◌, if◌then◌else◌}
use libcando.Sockets.System.{
  Call, recvfrom, sendto, sender, Addr, Answer, done, failed, Os, Reply, minus_one, minus_errno,
  count, is_again,
}
use libcando.Sockets.Steps.{receive_acked, send_acked, verifier}
use libcando.Sockets.Udp
use libcando.Sockets.UnixUdp
use libcando.Sockets.VmUdp

-- What a failed call means
abbrev pub failure : ℕ → Reply
failure e = if is_again e then minus_errno e else minus_one

-- A receiver's answer, from those of recvfrom(2) and sendto(2): the bytes count only if the word was
-- sent back.
abbrev pub received_as : Answer → Answer → Reply
received_as (failed e) b = failure e
received_as (done n) (failed e) = failure e
received_as (done n) (done k) = count n

-- A sender's answer, from those of sendto(2) and recvfrom(2) and the word read: the bytes count only
-- if the word is VERIFIER.
abbrev pub sent_as : Answer → Answer → (word : ℕ) → Reply
sent_as (failed e) b word = failure e
sent_as (done n) (failed e) word = failure e
sent_as (done n) (done k) word = if word == verifier then count n else minus_one

-- The second call is made only if the first one succeeds; the last call stands first.
abbrev pub calls_of : Answer → (first second : Call) → List Call → List Call
calls_of (failed e) first second trace = first ∷ trace
calls_of (done n) first second trace = second ∷ first ∷ trace

-- A receive and a send, each as those answers and calls say
abbrev pub ReceivesAs : (fd size flags : ℕ) → Os → Reply × Os → Type 0
ReceivesAs fd size flags os r =
    (r.0 ≡ received_as (os.answers 0) (os.answers 1))
    × (r.1.trace
        ≡ calls_of (os.answers 0) (recvfrom (some fd) size flags)
            (sendto (some fd) 4 flags sender verifier) os.trace)

abbrev pub SendsAs : (fd size flags : ℕ) → Addr → (message : ℕ) → Os → Reply × Os → Type 0
SendsAs fd size flags addr message os r =
    let first = sendto (some fd) size flags addr message in
    let second = recvfrom (some fd) 4 flags in
    (r.0 ≡ sent_as (os.answers 0) (os.answers 1) (os.kernel.received (second ∷ first ∷ os.trace)))
    × (r.1.trace ≡ calls_of (os.answers 0) first second os.trace)

receive_acked-meaning :
    (fd size flags : ℕ) (os : Os)
    → is_again os.errno ≡ false
    → ReceivesAs fd size flags os (receive_acked (some fd) size flags os)
receive_acked-meaning fd size flags os h = ground arith

send_acked-meaning :
    (fd size flags : ℕ) (addr : Addr) (message : ℕ) (os : Os)
    → is_again os.errno ≡ false
    → SendsAs fd size flags addr message os (send_acked (some fd) size flags addr message os)
send_acked-meaning fd size flags addr message os h = ground arith

has_size : (size : ℕ) → 1 ≤ size → (size == 0) ≡ false
has_size size h = ground arith

-- A datagram is received or sent through a descriptor, with a size, while errno is neither EINTR nor
-- EAGAIN, by sock-udp.c, usock-udp.c or vsock-udp.c: a receiver answers the bytes of recvfrom(2) if
-- the word could be sent back to the sender, and a sender those of sendto(2) if the word that comes
-- back is VERIFIER; the failure of either call is answered by -EINTR, -EAGAIN or -1, and behind a
-- failed first call there is no second one.
pub datagrams-meaning :
    (fd size flags : ℕ) (addr : Addr) (message : ℕ) (os : Os)
    → is_again os.errno ≡ false
    → 1 ≤ size
    → ReceivesAs fd size flags os (Udp.recv_data (some fd) true size flags os)
      × SendsAs fd size flags addr message os
          (Udp.send_data (some fd) true size flags addr message os)
      × ReceivesAs fd size flags os (UnixUdp.recv_data (some fd) true size flags os)
      × SendsAs fd size flags addr message os
          (UnixUdp.send_data (some fd) true size flags addr message os)
      × ReceivesAs fd size flags os (VmUdp.recv_data (some fd) true size flags os)
      × SendsAs fd size flags addr message os
          (VmUdp.send_data (some fd) true size flags addr message os)
unfolding Udp.recv_data Udp.send_data UnixUdp.recv_data UnixUdp.send_data VmUdp.recv_data
    VmUdp.send_data
datagrams-meaning fd size flags addr message os h n =
    let r = receive_acked-meaning fd size flags os h in
    let s = send_acked-meaning fd size flags addr message os h in
    rw (has_size size n) (r, s, r, s, r, s)
