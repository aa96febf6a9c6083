-- ===== src/Sockets/VmTcp.antt =====
-- src/vsock-tcp.c: servers and clients of stream sockets between virtual machines.
pub mod Ownership
pub mod Machine
use libcando.Base.{
  ℕ, zero, suc, ◌+◌, ◌-◌, ◌^◌, Bool, true, false, not, ◌&&◌, ◌||◌, Option, none, some, List, [],
  ◌∷◌, ◌++◌, ◌≡◌, refl, ◌==◌, ltb, if◌then◌else◌, take,
}
use libcando.Log.{ErrorStruct, codes, set_error, err_uncommon}
use libcando.Sockets.System.{
  Fd, Domain, Kind, SockOpt, Addr, Call, Reply, Answer, has, without, without-absent, Kernel,
  picked-IsFree, Os, ebadf, is_again, Io, pure, ◌>>=◌, ◌>>◌, made_call, invoke, count_block,
  calloc_context, give_fd, open_fd, close_fd, remove_file, release, or_else, each_or, open_or,
  af_inet6, af_unix, af_vsock, af_can, stream, datagram, raw, reuse_addr, reuse_port, v6_only,
  keep_alive, keep_count, keep_idle, keep_interval, zeros, sender, inet_addr, unix_path, vm_addr,
  can_addr, calloc, free, socket, setsockopt, inet_pton, bind, connect, listen, accept, close,
  remove, recv, send, recvfrom, sendto, open_vsock, get_local_cid, get_if_index, minus_one,
  minus_errno, count, done, failed,
}
use libcando.Sockets.Steps.{
  Made, with_context, refuse, if_made, dispose, fresh_error, note_as, note, note_incorrect, give_up,
  set_options, datagram_fd, is_positive, connect_to, accept_alive, bind_to_client, accept_from,
  htons, text_of, is_transfer, after, value, transfer, verifier, receive_acked, verified,
  send_acked, made, refused,
}

-- `struct udo_vsock_tcp`
pub record VmTcp : Type 0 where
  pub err : ErrorStruct
  pub free : Bool
  pub fd : Fd
  pub vcid : ℕ
  pub port : ℕ
  pub addr : Addr

-- A context of calloc(3) whose `free` is set
abbrev pub fresh : VmTcp
fresh = record { err = fresh_error; free = true; fd = some 0; vcid = 0; port = 0; addr = zeros }

-- What memset(3) and fd = -1 leave
abbrev pub cleared : VmTcp
cleared = record fresh { free = false; fd = none }

-- `struct udo_vsock_tcp_server_create_info`, which is not NULL: the code does not look. A client's
-- has no `connections`.
pub record CreateInfo : Type 0 where
  pub vcid : ℕ
  pub port : ℕ
  pub connections : ℕ

-- `udo_vsock_tcp_destroy` of a context that is not NULL, and what is left of it
pub destroy : VmTcp → Io (Option VmTcp)
destroy vsock = close_fd vsock.fd >> dispose vsock.free cleared

-- UINT32_MAX
abbrev pub uint32_max : ℕ
uint32_max = 2 ^ 32 - 1

-- The number that ioctl(2) finds, which may be UINT32_MAX as well
abbrev found_cid : Answer → ℕ
found_cid (done cid) = cid
found_cid (failed e) = uint32_max

abbrev ask_cid : ℕ → Io ℕ
ask_cid n = invoke (get_local_cid (some n)) >>= λ a. close_fd (some n) >> pure (found_cid a)

-- `p_vsock_get_local_vcid`: /dev/vsock is closed whatever ioctl(2) answers.
pub vsock_get_local_vcid : Io ℕ
vsock_get_local_vcid = open_or open_vsock (pure uint32_max) ask_cid

-- The number of the machine: a server asks for its own, unless it is told 1.
vcid_of : (server : Bool) → (vcid : ℕ) → Io ℕ
unfolding vsock_get_local_vcid
vcid_of server vcid = if server && not (vcid == 1) then vsock_get_local_vcid else pure vcid

abbrev located : CreateInfo → VmTcp → ℕ → VmTcp
located info vsock vcid = record vsock {
  port = info.port;
  vcid = vcid;
  addr = vm_addr info.port vcid;
}

-- `p_create_vsock` behind the options
address : Bool → CreateInfo → VmTcp → Io (Made VmTcp)
unfolding vcid_of
address server info vsock =
    vcid_of server info.vcid >>= λ vcid. pure (made (located info vsock vcid))

-- `p_set_sock_opts`
pub set_sock_opts : ErrorStruct → Fd → Io (ErrorStruct × Fd)
set_sock_opts err fd = set_options fd ((reuse_addr, 1) ∷ []) err

options_set : Bool → VmTcp → CreateInfo → ErrorStruct × Fd → Io (Made VmTcp)
unfolding address destroy
options_set server vsock info (err, none) = refuse (destroy (record vsock { err = err }))
options_set server vsock info (err, some n) = address server info vsock

opened : Bool → CreateInfo → VmTcp → ℕ → Io (Made VmTcp)
unfolding options_set set_sock_opts
opened server info vsock n =
    set_sock_opts vsock.err (some n) >>= options_set server (record vsock { fd = some n }) info

-- `p_create_vsock` with a context: a descriptor that p_set_sock_opts closed stays in it.
open_socket : Bool → CreateInfo → VmTcp → Io (Made VmTcp)
unfolding opened destroy
open_socket server info vsock =
    open_or (socket af_vsock stream) (refuse (destroy (record vsock { fd = none })))
      (opened server info vsock)

-- `p_create_vsock`
pub create_vsock : Option VmTcp → CreateInfo → (server : Bool) → Io (Made VmTcp)
unfolding open_socket
create_vsock vsock info server = with_context vsock fresh (open_socket server info)

-- `udo_vsock_tcp_server_create` behind p_create_vsock
serve : CreateInfo → VmTcp → Io (Made VmTcp)
unfolding destroy
serve info vsock =
    each_or (bind vsock.fd vsock.addr ∷ listen vsock.fd info.connections ∷ [])
      (refuse (destroy vsock)) (pure (made vsock))

-- `udo_vsock_tcp_server_create`
pub server_create : Option VmTcp → CreateInfo → Io (Made VmTcp)
unfolding create_vsock serve
server_create vsock info = create_vsock vsock info true >>= if_made (serve info)

-- `udo_vsock_tcp_client_create`
pub client_create : Option VmTcp → CreateInfo → Io (Made VmTcp)
unfolding create_vsock
client_create vsock info = create_vsock vsock info false

-- `udo_vsock_tcp_server_accept`
pub server_accept : Option VmTcp → Io (Option VmTcp × Fd)
server_accept none = pure (none, none)
server_accept (some vsock) =
    open_or (accept vsock.fd)
      (note vsock.err (codes "accept: ") >>= λ e. pure (some (record vsock { err = e }), none))
      (λ n. pure (some vsock, some n))

-- `udo_vsock_tcp_client_connect`
pub client_connect : Option VmTcp → Io (Option VmTcp × Reply)
client_connect none = pure (none, minus_one)
client_connect (some vsock) =
    connect_to vsock.fd vsock.addr vsock.err >>= λ r. pure (some (record vsock { err = r.0 }), r.1)

-- `udo_vsock_tcp_recv_data`
pub recv_data : Fd → (has_data : Bool) → (size flags : ℕ) → Io Reply
recv_data fd has_data size flags =
    if is_transfer fd has_data size then transfer (recv fd size flags) else pure minus_one

-- `udo_vsock_tcp_send_data`
pub send_data : Fd → (has_data : Bool) → (size flags : ℕ) → Io Reply
send_data fd has_data size flags =
    if is_transfer fd has_data size then transfer (send fd size flags) else pure minus_one

-- `udo_vsock_tcp_client_send_data`
pub client_send_data : Option VmTcp → (has_data : Bool) → (size flags : ℕ) → Io Reply
unfolding send_data
client_send_data none has_data size flags = pure minus_one
client_send_data (some vsock) has_data size flags = send_data vsock.fd has_data size flags

-- `udo_vsock_tcp_get_fd`
pub get_fd : Option VmTcp → Fd
get_fd none = none
get_fd (some vsock) = vsock.fd

-- `udo_vsock_tcp_get_vcid`
pub get_vcid : Option VmTcp → ℕ
get_vcid none = uint32_max
get_vcid (some vsock) = vsock.vcid

-- `udo_vsock_tcp_get_port`
pub get_port : Option VmTcp → Option ℕ
get_port none = none
get_port (some vsock) = some vsock.port
