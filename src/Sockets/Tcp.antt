-- ===== src/Sockets/Tcp.antt =====
-- src/sock-tcp.c: servers and clients of TCP over IPv6.
pub mod Ownership
pub mod Cleanup
pub mod Valid
pub mod Transfers
pub mod Connect
use libcando.Base.{
  ℕ, zero, suc, ◌+◌, ◌-◌, ◌^◌, Bool, true, false, not, ◌&&◌, ◌||◌, Option, none, some, List, [],
  ◌∷◌, ◌++◌, ◌≡◌, refl, ◌==◌, ltb, if◌then◌else◌, take,
}
use libcando.Log.{ErrorStruct, codes, set_error, err_uncommon}
use libcando.Sockets.System.{
  Fd, Domain, Kind, SockOpt, Addr, Call, Reply, Answer, has, without, without-absent, Kernel,
  picked-IsFree, Os, ebadf, is_again, Io, pure, ◌>>=◌, ◌>>◌, made_call, invoke, count_block,
  calloc_context, give_fd, open_fd, close_fd, remove_file, release, or_else, each_or, open_or,
  af_inet6, af_unix, af_vsock, af_can, stream, datagram, raw, reuse_addr, reuse_port, v6_only,
  keep_alive, keep_count, keep_idle, keep_interval, zeros, sender, inet_addr, unix_path, vm_addr,
  can_addr, calloc, free, socket, setsockopt, inet_pton, bind, connect, listen, accept, close,
  remove, recv, send, recvfrom, sendto, open_vsock, get_local_cid, get_if_index, minus_one,
  minus_errno, count, done, failed,
}
use libcando.Sockets.Steps.{
  Made, with_context, refuse, if_made, dispose, fresh_error, note_as, note, note_incorrect, give_up,
  set_options, datagram_fd, is_positive, connect_to, accept_alive, bind_to_client, accept_from,
  htons, text_of, is_transfer, after, value, transfer, verifier, receive_acked, verified,
  send_acked, made, refused,
}

-- `struct udo_sock_tcp`
pub record Tcp : Type 0 where
  pub err : ErrorStruct
  pub free : Bool
  pub fd : Fd
  pub ip_addr : List ℕ
  pub port : ℕ
  pub addr : Addr

-- A context of calloc(3) whose `free` is set
abbrev pub fresh : Tcp
fresh = record { err = fresh_error; free = true; fd = some 0; ip_addr = []; port = 0; addr = zeros }

-- What memset(3) and fd = -1 leave
abbrev pub cleared : Tcp
cleared = record fresh { free = false; fd = none }

-- `struct udo_sock_tcp_server_create_info`, which is not NULL: the code does not look. A client's
-- has no `connections`.
pub record CreateInfo : Type 0 where
  pub ipv6 : Bool
  pub ip_addr : List ℕ
  pub port : ℕ
  pub connections : ℕ

-- `udo_sock_tcp_destroy` of a context that is not NULL, and what is left of it
pub destroy : Tcp → Io (Option Tcp)
destroy sock = close_fd sock.fd >> dispose sock.free cleared

abbrev socket_options : (ipv6 : Bool) → List (SockOpt × ℕ)
socket_options ipv6 = (reuse_addr, 1) ∷ (reuse_port, 1) ∷ (v6_only, if ipv6 then 1 else 0) ∷ []

-- `p_set_sock_opts`
pub set_sock_opts : ErrorStruct → Fd → Bool → Io (ErrorStruct × Fd)
set_sock_opts err fd ipv6 = set_options fd (socket_options ipv6) err

-- What inet_pton(3) answers: 0 for a text that is no address
pton_answered : Tcp → Answer → Io (Made Tcp)
unfolding destroy
pton_answered sock (done zero) = refuse (destroy sock)
pton_answered sock (done (suc v)) = pure (made sock)
pton_answered sock (failed e) = refuse (destroy sock)

-- `p_create_sock` behind the options: the address in text, at most 45 bytes of it, and in numbers
abbrev ip_text : CreateInfo → List ℕ
ip_text info = take 45 ((if info.ipv6 then [] else codes "::ffff:") ++ info.ip_addr)

abbrev addressed : Tcp → CreateInfo → Tcp
addressed sock info = record sock {
  ip_addr = ip_text info;
  port = info.port;
  addr = inet_addr (ip_text info) (htons info.port);
}

address : CreateInfo → Tcp → Io (Made Tcp)
unfolding pton_answered
address info sock = invoke (inet_pton (ip_text info)) >>= pton_answered (addressed sock info)

options_set : Tcp → CreateInfo → ErrorStruct × Fd → Io (Made Tcp)
unfolding address destroy
options_set sock info (err, none) = refuse (destroy (record sock { err = err }))
options_set sock info (err, some n) = address info sock

opened : CreateInfo → Tcp → ℕ → Io (Made Tcp)
unfolding options_set set_sock_opts
opened info sock n =
    set_sock_opts sock.err (some n) info.ipv6 >>= options_set (record sock { fd = some n }) info

-- `p_create_sock` with a context: a descriptor that p_set_sock_opts closed stays in it.
open_socket : CreateInfo → Tcp → Io (Made Tcp)
unfolding opened destroy
open_socket info sock =
    open_or (socket af_inet6 stream) (refuse (destroy (record sock { fd = none })))
      (opened info sock)

-- `p_create_sock`
pub create_sock : Option Tcp → CreateInfo → Io (Made Tcp)
unfolding open_socket
create_sock sock info = with_context sock fresh (open_socket info)

-- The calls of `udo_sock_tcp_server_create`: at most `connections` lost probes, 5 seconds apart
abbrev serve_calls : CreateInfo → Tcp → List Call
serve_calls info sock =
    setsockopt sock.fd keep_count info.connections
    ∷ setsockopt sock.fd keep_idle 5
    ∷ setsockopt sock.fd keep_interval 5
    ∷ bind sock.fd sock.addr
    ∷ listen sock.fd info.connections
    ∷ []

-- `udo_sock_tcp_server_create` behind p_create_sock
serve : CreateInfo → Tcp → Io (Made Tcp)
unfolding destroy
serve info sock = each_or (serve_calls info sock) (refuse (destroy sock)) (pure (made sock))

-- `udo_sock_tcp_server_create`
pub server_create : Option Tcp → CreateInfo → Io (Made Tcp)
unfolding create_sock serve
server_create sock info = create_sock sock info >>= if_made (serve info)

-- `udo_sock_tcp_client_create`
pub client_create : Option Tcp → CreateInfo → Io (Made Tcp)
unfolding create_sock
client_create sock info = create_sock sock info

-- `udo_sock_tcp_server_accept`
pub server_accept : Option Tcp → Io (Option Tcp × Fd)
server_accept none = pure (none, none)
server_accept (some sock) =
    accept_alive sock.fd sock.err >>= λ r. pure (some (record sock { err = r.0 }), r.1)

-- `udo_sock_tcp_client_connect`
pub client_connect : Option Tcp → Io (Option Tcp × Reply)
client_connect none = pure (none, minus_one)
client_connect (some sock) =
    connect_to sock.fd sock.addr sock.err >>= λ r. pure (some (record sock { err = r.0 }), r.1)

-- `udo_sock_tcp_recv_data`
pub recv_data : Fd → (has_data : Bool) → (size flags : ℕ) → Io Reply
recv_data fd has_data size flags =
    if is_transfer fd has_data size then transfer (recv fd size flags) else pure minus_one

-- `udo_sock_tcp_send_data`
pub send_data : Fd → (has_data : Bool) → (size flags : ℕ) → Io Reply
send_data fd has_data size flags =
    if is_transfer fd has_data size then transfer (send fd size flags) else pure minus_one

-- `udo_sock_tcp_client_send_data`
pub client_send_data : Option Tcp → (has_data : Bool) → (size flags : ℕ) → Io Reply
unfolding send_data
client_send_data none has_data size flags = pure minus_one
client_send_data (some sock) has_data size flags = send_data sock.fd has_data size flags

-- `udo_sock_tcp_get_fd`
pub get_fd : Option Tcp → Fd
get_fd none = none
get_fd (some sock) = sock.fd

-- `udo_sock_tcp_get_ip_addr`
pub get_ip_addr : Option Tcp → Option (List ℕ)
get_ip_addr none = none
get_ip_addr (some sock) = text_of sock.ip_addr

-- `udo_sock_tcp_get_port`
pub get_port : Option Tcp → Option ℕ
get_port none = none
get_port (some sock) = some sock.port
