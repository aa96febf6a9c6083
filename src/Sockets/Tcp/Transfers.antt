-- ===== src/Sockets/Tcp/Transfers.antt =====
-- src/sock-tcp.c: what udo_sock_tcp_recv_data and udo_sock_tcp_send_data answer, and what becomes of
-- an errno that an earlier call left.
use libcando.Base.{
  ℕ, zero, suc, ◌≤◌, true, false, some, List, [], ◌∷◌, ◌≡◌, refl, ap, arith, ◌==◌, if◌then◌else◌,
  replicate, Bool-cases, inl, inr,
}
use libcando.Sockets.System.{
  Call, recv, send, Answer, done, failed, Os, Io, pure, ◌>>=◌, Reply, minus_one, minus_errno, count,
  is_again, made_call,
}
use libcando.Sockets.Steps.{after, value}
use libcando.Sockets.Tcp.{recv_data, send_data}

-- What a transfer means: EINTR and EAGAIN are told apart from other failures.
abbrev pub meaning : Answer → Reply
meaning (done n) = count n
meaning (failed e) = if is_again e then minus_errno e else minus_one

after-meaning :
    (call : Call) (a : Answer) (os : Os)
    → is_again os.errno ≡ false
    → after a (pure (count (value a))) (made_call call a os) ≡ (meaning a, made_call call a os)
after-meaning call (done n) os h = rw (h)
after-meaning call (failed e) os h = elim (Bool-cases (is_again e)) [
  | inl t ↦ rw (t)
  | inr f ↦ rw (f)
]

has_size : (size : ℕ) → 1 ≤ size → (size == 0) ≡ false
has_size size h = ground arith

-- A transfer with a descriptor and a size, while errno is neither EINTR nor EAGAIN: one call is
-- made, and udo_sock_tcp_recv_data and udo_sock_tcp_send_data answer its number of bytes, -EINTR or
-- -EAGAIN if that is how it failed, and -1 for every other failure.
pub recv_data-meaning :
    (fd size flags : ℕ) (os : Os)
    → is_again os.errno ≡ false
    → 1 ≤ size
    → (recv_data (some fd) true size flags os
        ≡ (meaning (os.answers 0), made_call (recv (some fd) size flags) (os.answers 0) os))
      × (send_data (some fd) true size flags os
          ≡ (meaning (os.answers 0), made_call (send (some fd) size flags) (os.answers 0) os))
unfolding recv_data send_data
recv_data-meaning fd size flags os h n = rw (has_size size n) (
  after-meaning (recv (some fd) size flags) (os.answers 0) os h,
  after-meaning (send (some fd) size flags) (os.answers 0) os h,
)

-- `k` calls of udo_sock_tcp_recv_data in a row
abbrev pub recv_many : (k fd size flags : ℕ) → Io (List Reply)
recv_many zero fd size flags = pure []
recv_many (suc k) fd size flags =
    recv_data (some fd) true size flags >>= λ r. recv_many k fd size flags >>= λ rs. pure (r ∷ rs)

-- Once errno is EINTR or EAGAIN, any number of udo_sock_tcp_recv_data that all receive bytes answer
-- -errno: the code looks at errno before the result, and a call that succeeds does not reset it.
pub recv_data-stale :
    (k fd size flags : ℕ) (os : Os) (bytes : ℕ → ℕ)
    → is_again os.errno ≡ true
    → 1 ≤ size
    → (recv_many k fd size flags (record os { answers = λ i. done (bytes i) })).0
      ≡ replicate k (minus_errno os.errno)
unfolding recv_data
recv_data-stale zero fd size flags os bytes h n = refl
recv_data-stale (suc k) fd size flags os bytes h n =
    rw (has_size size n, h)
      (ap (λ rs. minus_errno os.errno ∷ rs)
        (recv_data-stale k fd size flags
          (record os { trace = recv (some fd) size flags ∷ os.trace }) (λ i. bytes (suc i)) h n))
