-- ===== src/Sockets/VmUdp.antt =====
-- src/vsock-udp.c: servers and clients of datagram sockets between virtual machines.
pub mod Ownership
use libcando.Base.{
  ℕ, zero, suc, ◌+◌, ◌-◌, ◌^◌, Bool, true, false, not, ◌&&◌, ◌||◌, Option, none, some, List, [],
  ◌∷◌, ◌++◌, ◌≡◌, refl, ◌==◌, ltb, if◌then◌else◌, take,
}
use libcando.Log.{ErrorStruct, codes, set_error, err_uncommon}
use libcando.Sockets.System.{
  Fd, Domain, Kind, SockOpt, Addr, Call, Reply, Answer, has, without, without-absent, Kernel,
  picked-IsFree, Os, ebadf, is_again, Io, pure, ◌>>=◌, ◌>>◌, made_call, invoke, count_block,
  calloc_context, give_fd, open_fd, close_fd, remove_file, release, or_else, each_or, open_or,
  af_inet6, af_unix, af_vsock, af_can, stream, datagram, raw, reuse_addr, reuse_port, v6_only,
  keep_alive, keep_count, keep_idle, keep_interval, zeros, sender, inet_addr, unix_path, vm_addr,
  can_addr, calloc, free, socket, setsockopt, inet_pton, bind, connect, listen, accept, close,
  remove, recv, send, recvfrom, sendto, open_vsock, get_local_cid, get_if_index, minus_one,
  minus_errno, count, done, failed,
}
use libcando.Sockets.Steps.{
  Made, with_context, refuse, if_made, dispose, fresh_error, note_as, note, note_incorrect, give_up,
  set_options, datagram_fd, is_positive, connect_to, accept_alive, bind_to_client, accept_from,
  htons, text_of, is_transfer, after, value, transfer, verifier, receive_acked, verified,
  send_acked, made, refused,
}

-- `struct udo_vsock_udp`
pub record VmUdp : Type 0 where
  pub err : ErrorStruct
  pub free : Bool
  pub fd : Fd
  pub vcid : ℕ
  pub port : ℕ
  pub addr : Addr

-- A context of calloc(3) whose `free` is set
abbrev pub fresh : VmUdp
fresh = record { err = fresh_error; free = true; fd = some 0; vcid = 0; port = 0; addr = zeros }

-- What memset(3) and fd = -1 leave
abbrev pub cleared : VmUdp
cleared = record fresh { free = false; fd = none }

-- `struct udo_vsock_udp_create_info`
pub record CreateInfo : Type 0 where
  pub vcid : ℕ
  pub port : ℕ

-- `udo_vsock_udp_destroy` of a context that is not NULL, and what is left of it
pub destroy : VmUdp → Io (Option VmUdp)
destroy vsock = close_fd vsock.fd >> dispose vsock.free cleared

-- UINT32_MAX
abbrev pub uint32_max : ℕ
uint32_max = 2 ^ 32 - 1

-- The number that ioctl(2) finds, which may be UINT32_MAX as well
abbrev found_cid : Answer → ℕ
found_cid (done cid) = cid
found_cid (failed e) = uint32_max

abbrev ask_cid : ℕ → Io ℕ
ask_cid n = invoke (get_local_cid (some n)) >>= λ a. close_fd (some n) >> pure (found_cid a)

-- `p_vsock_get_local_vcid`: /dev/vsock is closed whatever ioctl(2) answers.
pub vsock_get_local_vcid : Io ℕ
vsock_get_local_vcid = open_or open_vsock (pure uint32_max) ask_cid

-- The number of the machine: a server asks for its own, unless it is told 1.
vcid_of : (server : Bool) → (vcid : ℕ) → Io ℕ
unfolding vsock_get_local_vcid
vcid_of server vcid = if server && not (vcid == 1) then vsock_get_local_vcid else pure vcid

abbrev located : CreateInfo → VmUdp → ℕ → VmUdp
located info vsock vcid = record vsock {
  port = info.port;
  vcid = vcid;
  addr = vm_addr info.port vcid;
}

-- `p_create_vsock` behind the options
address : Bool → CreateInfo → VmUdp → Io (Made VmUdp)
unfolding vcid_of
address server info vsock =
    vcid_of server info.vcid >>= λ vcid. pure (made (located info vsock vcid))

-- "socket: %s"
abbrev socket_error : List ℕ → List ℕ
socket_error reason = codes "socket: " ++ reason

-- `p_create_sock_fd`
pub create_sock_fd : ErrorStruct → Io (ErrorStruct × Fd)
create_sock_fd err = datagram_fd af_vsock ((reuse_addr, 1) ∷ []) socket_error err

socket_opened : Bool → CreateInfo → VmUdp → ErrorStruct × Fd → Io (Made VmUdp)
unfolding address destroy
socket_opened server info vsock (err, none) =
    refuse (destroy (record vsock { err = err; fd = none }))
socket_opened server info vsock (err, some n) =
    address server info (record vsock { err = err; fd = some n })

-- `p_create_vsock` with a context
open_socket : Bool → CreateInfo → VmUdp → Io (Made VmUdp)
unfolding create_sock_fd socket_opened
open_socket server info vsock = create_sock_fd vsock.err >>= socket_opened server info vsock

-- `p_create_vsock`
pub create_vsock : Option VmUdp → Option CreateInfo → (server : Bool) → Io (Made VmUdp)
unfolding open_socket
create_vsock vsock none server = pure (refused vsock)
create_vsock vsock (some info) server = with_context vsock fresh (open_socket server info)

-- `udo_vsock_udp_server_create` behind p_create_vsock
serve : VmUdp → Io (Made VmUdp)
unfolding destroy
serve vsock = each_or (bind vsock.fd vsock.addr ∷ []) (refuse (destroy vsock)) (pure (made vsock))

-- `udo_vsock_udp_server_create`
pub server_create : Option VmUdp → Option CreateInfo → Io (Made VmUdp)
unfolding create_vsock serve
server_create vsock info = create_vsock vsock info true >>= if_made serve

-- `udo_vsock_udp_client_create`
pub client_create : Option VmUdp → Option CreateInfo → Io (Made VmUdp)
unfolding create_vsock
client_create vsock info = create_vsock vsock info false

-- `udo_vsock_udp_server_accept`
pub server_accept : Option VmUdp → Option Addr → Io (Option VmUdp × Fd)
unfolding create_sock_fd
server_accept none addr = pure (none, none)
server_accept (some vsock) none =
    note_incorrect vsock.err >>= λ e. pure (some (record vsock { err = e }), none)
server_accept (some vsock) (some addr) =
    create_sock_fd vsock.err >>= accept_from vsock.addr addr >>= λ r.
    pure (some (record vsock { err = r.0 }), r.1)

-- `udo_vsock_udp_client_connect`
pub client_connect : Option VmUdp → Io (Option VmUdp × Reply)
client_connect none = pure (none, minus_one)
client_connect (some vsock) =
    connect_to vsock.fd vsock.addr vsock.err >>= λ r. pure (some (record vsock { err = r.0 }), r.1)

-- `udo_vsock_udp_recv_data`
unfoldable pub recv_data : Fd → (has_data : Bool) → (size flags : ℕ) → Io Reply
recv_data fd has_data size flags =
    if is_transfer fd has_data size then receive_acked fd size flags else pure minus_one

-- `udo_vsock_udp_send_data` of the message to the address
unfoldable pub send_data :
    Fd → (has_data : Bool) → (size flags : ℕ) → Addr → (message : ℕ) → Io Reply
send_data fd has_data size flags addr message =
    if is_transfer fd has_data size then send_acked fd size flags addr message else pure minus_one

-- `udo_vsock_udp_server_recv_data`
pub server_recv_data : Option VmUdp → (has_data : Bool) → (size flags : ℕ) → Io Reply
unfolding recv_data
server_recv_data none has_data size flags = pure minus_one
server_recv_data (some vsock) has_data size flags = recv_data vsock.fd has_data size flags

-- `udo_vsock_udp_client_send_data`
pub client_send_data : Option VmUdp → (has_data : Bool) → (size flags message : ℕ) → Io Reply
unfolding send_data
client_send_data none has_data size flags message = pure minus_one
client_send_data (some vsock) has_data size flags message =
    send_data vsock.fd has_data size flags vsock.addr message

-- `udo_vsock_udp_get_fd`
pub get_fd : Option VmUdp → Fd
get_fd none = none
get_fd (some vsock) = vsock.fd

-- `udo_vsock_udp_get_vcid`
pub get_vcid : Option VmUdp → ℕ
get_vcid none = uint32_max
get_vcid (some vsock) = vsock.vcid

-- `udo_vsock_udp_get_port`
pub get_port : Option VmUdp → Option ℕ
get_port none = none
get_port (some vsock) = some vsock.port
