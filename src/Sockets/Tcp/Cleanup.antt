-- ===== src/Sockets/Tcp/Cleanup.antt =====
-- src/sock-tcp.c: the calls of udo_sock_tcp_server_create, and what it undoes when one of them fails.
use libcando.Base.{
  ℕ, zero, suc, ◌<◌, none, some, List, [], ◌∷◌, ◌++◌, take, ◌≡◌, refl, arith, ◌==◌, if◌then◌else◌,
  ltb,
}
use libcando.Sockets.System.{
  Call, calloc, free, socket, af_inet6, stream, setsockopt, reuse_addr, reuse_port, v6_only,
  inet_pton, keep_count, keep_idle, keep_interval, bind, listen, close, inet_addr, Answer, done,
  failed, Os,
}
use libcando.Sockets.Steps.{made, refused, htons}
use libcando.Sockets.Tcp.{fresh, CreateInfo, server_create, create_sock, serve, destroy, ip_text}

-- The eleven calls of a server with the descriptor, in order
abbrev pub plan : CreateInfo → (fd : ℕ) → List Call
plan info fd =
    calloc
    ∷ socket af_inet6 stream
    ∷ setsockopt (some fd) reuse_addr 1
    ∷ setsockopt (some fd) reuse_port 1
    ∷ setsockopt (some fd) v6_only (if info.ipv6 then 1 else 0)
    ∷ inet_pton (ip_text info)
    ∷ setsockopt (some fd) keep_count info.connections
    ∷ setsockopt (some fd) keep_idle 5
    ∷ setsockopt (some fd) keep_interval 5
    ∷ bind (some fd) (inet_addr (ip_text info) (htons info.port))
    ∷ listen (some fd) info.connections
    ∷ []

-- What follows when call `k` is the one that fails, the last call first: an option of
-- p_set_sock_opts closes the descriptor twice.
abbrev pub cleanup : (fd : ℕ) → (k : ℕ) → List Call
cleanup fd k =
    if k == 0
    then []
    else if k == 1
    then free ∷ close none ∷ []
    else if ltb k 5
    then free ∷ close (some fd) ∷ close (some fd) ∷ []
    else free ∷ close (some fd) ∷ []

abbrev pub reverse_onto : List Call → List Call → List Call
reverse_onto [] trace = trace
reverse_onto (call ∷ calls) trace = reverse_onto calls (call ∷ trace)

-- Every call but number `k` succeeds.
abbrev pub fails_at : ℕ → (errno : ℕ) → (ℕ → ℕ) → ℕ → Answer
fails_at k errno value i = if i == k then failed errno else done (suc (value i))

-- A server without a context of the caller for which call `k` of the eleven is the only one that
-- fails: NULL is returned; the calls made are those up to `k`, in order, and then what the failure
-- undoes: nothing behind calloc(3), close(-1) and free(3) behind socket(2), close(2) and free(3) of
-- the descriptor and the context behind the later ones. Behind an option of p_set_sock_opts the
-- descriptor is closed twice.
pub server_create-cleanup :
    (info : CreateInfo) (os : Os) (k errno : ℕ) (value : ℕ → ℕ)
    → k < 11
    → let fd = os.kernel.pick os.held in
      let r = server_create none info (record os { answers = fails_at k errno value }) in
      (r.0 ≡ refused none)
      × (r.1.trace ≡ cleanup fd k ++ reverse_onto (take (suc k) (plan info fd)) os.trace)
unfolding server_create create_sock serve destroy
server_create-cleanup info os zero errno value h = (refl, refl)
server_create-cleanup info os (suc zero) errno value h = (refl, refl)
server_create-cleanup info os (suc (suc zero)) errno value h = (refl, refl)
server_create-cleanup info os (suc (suc (suc zero))) errno value h = (refl, refl)
server_create-cleanup info os (suc (suc (suc (suc zero)))) errno value h = (refl, refl)
server_create-cleanup info os (suc (suc (suc (suc (suc zero))))) errno value h = (refl, refl)
server_create-cleanup info os (suc (suc (suc (suc (suc (suc zero)))))) errno value h = (refl, refl)
server_create-cleanup info os (suc (suc (suc (suc (suc (suc (suc zero))))))) errno value h =
    (refl, refl)
server_create-cleanup info os (suc (suc (suc (suc (suc (suc (suc (suc zero)))))))) errno value h =
    (refl, refl)
server_create-cleanup info os (suc (suc (suc (suc (suc (suc (suc (suc (suc zero))))))))) errno value
      h =
    (refl, refl)
server_create-cleanup info os (suc (suc (suc (suc (suc (suc (suc (suc (suc (suc zero)))))))))) errno
      value h =
    (refl, refl)
server_create-cleanup info os (suc (suc (suc (suc (suc (suc (suc (suc (suc (suc (suc k)))))))))))
      errno value h =
    absurd (omega arith)

-- A server that all calls succeed for, without a context of the caller: it is made after the
-- eleven calls in their order, with no other; its address is what inet_pton(3) read, "::ffff:" in
-- front of it for IPv4, and the port in network order.
pub server_create-order :
    (info : CreateInfo) (os : Os) (value : ℕ → ℕ)
    → let fd = os.kernel.pick os.held in
      let r = server_create none info (record os { answers = λ i. done (suc (value i)) }) in
      (r.0
        ≡ made (record fresh {
          fd = some fd;
          ip_addr = ip_text info;
          port = info.port;
          addr = inet_addr (ip_text info) (htons info.port);
        }))
      × (r.1.trace ≡ reverse_onto (plan info fd) os.trace)
      × (r.1.held ≡ fd ∷ os.held)
      × (r.1.blocks ≡ suc os.blocks)
unfolding server_create create_sock serve
server_create-order info os value = (refl, refl, refl, refl)
