-- ===== src/Tests/SocketsTests.antt =====
-- The socket files of src/ with a concrete system
use libcando.Base.{
  length-replicate, ℕ, suc, ◌+◌, ◌-◌, ◌<◌, ◌≤◌, ◌≡◌, refl, arith, true, false, none, some, List, [],
  ◌∷◌, ◌++◌, take, ◌==◌, if◌then◌else◌, inl, inr, ◌⊎◌, ok,
}
use libcando.Log.{codes, buffer_size}
use libcando.Sockets.System.{
  inet_addr, Kernel, Os, Answer, done, failed, free, close, remove, has, minus_errno, minus_one,
  made_call, recv, send, ◌>>=◌, zeros,
}
use libcando.Sockets.Steps.{htons, refused, made}
use libcando.Sockets.Triples.{InUse}
use libcando.Sockets.Descriptors.{Accepted}
use libcando.Sockets.Endpoint.{discard}
use libcando.Sockets.Endpoint.Table
use libcando.Sockets.Endpoint.Table.{Command, run, drain}
use libcando.Sockets.Sessions.{Info, sockets, run-drain_all, accept_all-Accepted}
use libcando.Sockets.Datagrams.{ReceivesAs, SendsAs, datagrams-meaning}
use libcando.Sockets.UnixUdp
use libcando.Sockets.Tcp.Valid.{IsValid}
use libcando.Sockets.Tcp
use libcando.Sockets.Udp
use libcando.Sockets.UnixTcp
use libcando.Sockets.VmTcp
use libcando.Sockets.VmUdp
use libcando.Sockets.Can
use libcando.Sockets.Tcp.Cleanup.{plan, cleanup, reverse_onto, fails_at, server_create-cleanup}
use libcando.Sockets.Tcp.Transfers.{recv_data-meaning}
use libcando.Sockets.Tcp.Connect.{error_of, error_code_of, client_connect-failed}
use libcando.Sockets.UnixTcp.Paths.{client-removes, client_create-made}
use libcando.Sockets.Can.Ownership.{create-leaks}

-- The sum of the descriptors in use and 3 is not in use.
abbrev sum : List ℕ → ℕ
sum [] = 0
sum (n ∷ held) = n + sum held

has-sum : (n : ℕ) (held : List ℕ) → sum held < n → has n held ≡ false
has-sum n [] h = refl
has-sum n (m ∷ held) h = ground (arith, has-sum n held)

abbrev kernel : Kernel
kernel = record {
  pick = λ held. 3 + sum held;
  pick-IsFree = λ held. has-sum (3 + sum held) held (omega arith);
  place = λ calls text. codes "[sock-tcp.c:309] ";
  strerror = λ e. if e == 111 then codes "Connection refused" else codes "Error";
  received = λ trace. 0;
}

-- The standard streams are open, and the system answers as the function says.
abbrev start : (ℕ → Answer) → Os
start answers = record {
  kernel = kernel;
  answers = answers;
  errno = 0;
  held = 0 ∷ 1 ∷ 2 ∷ [];
  blocks = 0;
  trace = [];
}

-- Every third call fails.
abbrev mixed : ℕ → Answer
mixed i = if i == 7 then failed 98 else done (suc i)

abbrev tcp_info : Tcp.CreateInfo
tcp_info = record { ipv6 = false; ip_addr = codes "127.0.0.1"; port = 8080; connections = 5 }

abbrev unix_info : UnixTcp.CreateInfo
unix_info = record { unix_path = some (codes "/tmp/a.sock"); connections = 2 }

-- A TCP server, a UNIX server and a TCP client; the second one is destroyed.
abbrev commands : List (Command (Info ⊎ Info))
commands =
    Table.create (inl (inl tcp_info))
    ∷ Table.create (inl (inr (inr (inl (some unix_info)))))
    ∷ Table.create (inr (inl tcp_info))
    ∷ Table.destroy 1
    ∷ []

distinct : (n : ℕ) → Table.count n (0 ∷ 1 ∷ 2 ∷ []) ≤ 1
distinct n = ground arith

run-drain_all_example :
    let os = start mixed in
    let r = (run sockets commands [] >>= drain sockets) os in
    ((n : ℕ) → Table.count n r.1.held ≡ Table.count n os.held) × (r.1.blocks ≡ os.blocks)
run-drain_all_example = run-drain_all commands (start mixed) distinct

abbrev tcp : Tcp.Tcp
tcp = record Tcp.fresh { fd = some 4 }

accept_all-Accepted_example :
    let os = start (λ i. if i == 1 then failed 9 else done i) in
    let vm_tcp = record VmTcp.fresh { fd = some 5 } in
    (let r = Tcp.server_accept (some tcp) os in Accepted os.held os.blocks r.0.1 r.1)
    × (let r = Udp.server_accept (some Udp.fresh) (some zeros) true os in
        Accepted os.held os.blocks r.0.1 r.1)
    × (let r = UnixTcp.server_accept (some UnixTcp.fresh) os in
        Accepted os.held os.blocks r.0.1 r.1)
    × (let r = VmTcp.server_accept (some vm_tcp) os in Accepted os.held os.blocks r.0.1 r.1)
    × (let r = VmUdp.server_accept (some VmUdp.fresh) (some zeros) os in
        Accepted os.held os.blocks r.0.1 r.1)
accept_all-Accepted_example =
    accept_all-Accepted tcp Udp.fresh UnixTcp.fresh (record VmTcp.fresh { fd = some 5 }) VmUdp.fresh
      zeros true (start (λ i. if i == 1 then failed 9 else done i))

server_create-cleanup_example :
    let os = start mixed in
    let r = Tcp.server_create none tcp_info (record os { answers = fails_at 3 22 (λ i. i) }) in
    (r.0 ≡ refused none) × (r.1.trace ≡ cleanup 6 3 ++ reverse_onto (take 4 (plan tcp_info 6)) [])
server_create-cleanup_example =
    server_create-cleanup tcp_info (start mixed) 3 22 (λ i. i) (omega arith)

recv_data-meaning_example :
    let os = start (λ i. failed 11) in
    (Tcp.recv_data (some 4) true 16 0 os
      ≡ (minus_errno 11, made_call (recv (some 4) 16 0) (failed 11) os))
    × (Tcp.send_data (some 4) true 16 0 os
        ≡ (minus_errno 11, made_call (send (some 4) 16 0) (failed 11) os))
recv_data-meaning_example = recv_data-meaning 4 16 0 (start (λ i. failed 11)) refl (omega arith)

client_connect-failed_example :
    let r = Tcp.client_connect (some tcp) (start (λ i. failed 111)) in
    (r.0.1 ≡ minus_one)
    × (error_of r.0.0
        ≡ ok (
            take
              (buffer_size - 1)
              (codes "[sock-tcp.c:309] connect: " ++ codes "Connection refused")))
    × (error_code_of r.0.0 ≡ 111)
client_connect-failed_example =
    client_connect-failed tcp 3 111 (start (λ i. failed 111)) refl refl (ground arith)
      (ground arith) refl

abbrev unix_client : UnixTcp.UnixTcp
unix_client = record UnixTcp.fresh { fd = some 6; sun_path = codes "/tmp/a.sock" }

made_client :
    (UnixTcp.client_create none
      (some (record { unix_path = some (codes "/tmp/a.sock"); connections = 0 }))
      (start (λ i. done i))).0
    ≡ made unix_client
made_client = client_create-made (codes "/tmp/a.sock") 0 (λ i. i) (start (λ i. done i))

client-removes_example :
    (UnixTcp.destroy unix_client (start mixed)).1.trace
    ≡ free ∷ remove (codes "/tmp/a.sock") ∷ close (some 6) ∷ []
client-removes_example =
    client-removes (codes "/tmp/a.sock") 0 (start (λ i. done i)) (start mixed) unix_client
      made_client

create-leaks_example :
    let os = start (λ i. if i == 2 then failed 19 else done i) in
    let r = (Can.create none (some (codes "vcan0")) >>= discard Can.destroy) os in
    InUse (0 ∷ 1 ∷ 2 ∷ []) 1 r.1
create-leaks_example =
    create-leaks (codes "vcan0") 0 (start (λ i. if i == 2 then failed 19 else done i)) refl

abbrev csock : Can.Can
csock = record Can.fresh { fd = some 4 }

datagrams-meaning_example :
    let os = start (λ i. if i == 1 then failed 11 else done 8) in
    ReceivesAs 4 8 0 os (Udp.recv_data (some 4) true 8 0 os)
    × SendsAs 4 8 0 zeros 7 os (Udp.send_data (some 4) true 8 0 zeros 7 os)
    × ReceivesAs 4 8 0 os (UnixUdp.recv_data (some 4) true 8 0 os)
    × SendsAs 4 8 0 zeros 7 os (UnixUdp.send_data (some 4) true 8 0 zeros 7 os)
    × ReceivesAs 4 8 0 os (VmUdp.recv_data (some 4) true 8 0 os)
    × SendsAs 4 8 0 zeros 7 os (VmUdp.send_data (some 4) true 8 0 zeros 7 os)
datagrams-meaning_example =
    datagrams-meaning 4 8 0 zeros 7 (start (λ i. if i == 1 then failed 11 else done 8)) refl
      (omega arith)

abbrev valid : Tcp.Tcp
valid = record Tcp.fresh { fd = some 4; addr = inet_addr [] (htons 0) }

valid-IsValid : IsValid valid
valid-IsValid = record {
  has_fd = refl;
  fits = omega arith;
  agrees = refl;
  buffer = length-replicate {A = ℕ} buffer_size 0;
}
