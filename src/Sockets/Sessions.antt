-- ===== src/Sockets/Sessions.antt =====
-- A program that keeps servers and clients of src/sock-tcp.c, sock-udp.c, usock-tcp.c, usock-udp.c,
-- vsock-tcp.c and vsock-udp.c side by side.
use libcando.Base.{ℕ, ◌≤◌, Bool, Option, some, List, [], ◌≡◌, ◌⊎◌}
use libcando.Sockets.System.{Os, Addr, ◌>>=◌}
use libcando.Sockets.Descriptors.{Accepted}
use libcando.Sockets.Endpoint.{Endpoint}
use libcando.Sockets.Endpoint.Either.{either}
use libcando.Sockets.Endpoint.Table.{Command, count, run, drain, run-drain}
use libcando.Sockets.Tcp.{Tcp}
use libcando.Sockets.Udp.{Udp}
use libcando.Sockets.UnixTcp.{UnixTcp}
use libcando.Sockets.UnixUdp.{UnixUdp}
use libcando.Sockets.VmTcp.{VmTcp}
use libcando.Sockets.VmUdp.{VmUdp}
use libcando.Sockets.Tcp
use libcando.Sockets.Udp
use libcando.Sockets.UnixTcp
use libcando.Sockets.UnixUdp
use libcando.Sockets.VmTcp
use libcando.Sockets.VmUdp

abbrev pub Sock : Type 0
Sock = Tcp ⊎ (Udp ⊎ (UnixTcp ⊎ (UnixUdp ⊎ (VmTcp ⊎ VmUdp))))

abbrev pub Info : Type 0
Info =
    Tcp.CreateInfo
    ⊎ (Option Udp.CreateInfo
        ⊎ (Option UnixTcp.CreateInfo
            ⊎ (Option UnixUdp.CreateInfo ⊎ (VmTcp.CreateInfo ⊎ Option VmUdp.CreateInfo))))

abbrev pub servers : Endpoint Sock Info
servers = either Tcp.Ownership.server (
    either Udp.Ownership.server (
      either UnixTcp.Ownership.server
        (either UnixUdp.Ownership.server (either VmTcp.Ownership.server VmUdp.Ownership.server))))

abbrev pub clients : Endpoint Sock Info
clients = either Tcp.Ownership.client (
    either Udp.Ownership.client (
      either UnixTcp.Ownership.client
        (either UnixUdp.Ownership.client (either VmTcp.Ownership.client VmUdp.Ownership.client))))

abbrev pub sockets : Endpoint (Sock ⊎ Sock) (Info ⊎ Info)
sockets = either servers clients

-- A program creates servers and clients of all six kinds and destroys them, in any order, whatever
-- the system answers, and at its end destroys those that are alive. If no two of the descriptors
-- that it started with are alike, then those are, up to order, what it has open at the end, and it
-- has as many blocks of memory as at the start.
pub run-drain_all :
    (commands : List (Command (Info ⊎ Info))) (os : Os)
    → ((n : ℕ) → count n os.held ≤ 1)
    → let r = (run sockets commands [] >>= drain sockets) os in
      ((n : ℕ) → count n r.1.held ≡ count n os.held) × (r.1.blocks ≡ os.blocks)
run-drain_all = run-drain sockets

-- A server that is not NULL accepts a client, of the five files that have an accept, whatever the
-- system answers: a descriptor that is returned was not in use before, and is the only new one;
-- where -1 is returned, the descriptors from before are in use and no other. No block is allocated.
pub accept_all-Accepted :
    (tcp : Tcp) (udp : Udp) (unix_tcp : UnixTcp) (vm_tcp : VmTcp) (vm_udp : VmUdp) (peer : Addr)
    (ipv6 : Bool) (os : Os)
    → (let r = Tcp.server_accept (some tcp) os in Accepted os.held os.blocks r.0.1 r.1)
      × (let r = Udp.server_accept (some udp) (some peer) ipv6 os in
          Accepted os.held os.blocks r.0.1 r.1)
      × (let r = UnixTcp.server_accept (some unix_tcp) os in Accepted os.held os.blocks r.0.1 r.1)
      × (let r = VmTcp.server_accept (some vm_tcp) os in Accepted os.held os.blocks r.0.1 r.1)
      × (let r = VmUdp.server_accept (some vm_udp) (some peer) os in
          Accepted os.held os.blocks r.0.1 r.1)
accept_all-Accepted tcp udp unix_tcp vm_tcp vm_udp peer ipv6 os = (
  Tcp.Ownership.server_accept-Accepted tcp os,
  Udp.Ownership.server_accept-Accepted udp peer ipv6 os,
  UnixTcp.Ownership.server_accept-Accepted unix_tcp os,
  VmTcp.Ownership.server_accept-Accepted vm_tcp os,
  VmUdp.Ownership.server_accept-Accepted vm_udp peer os,
)
