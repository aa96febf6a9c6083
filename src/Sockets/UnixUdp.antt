-- ===== src/Sockets/UnixUdp.antt =====
-- src/usock-udp.c: servers and clients of UNIX datagram sockets.
pub mod Ownership
use libcando.Base.{
  ℕ, zero, suc, ◌+◌, ◌-◌, ◌^◌, Bool, true, false, not, ◌&&◌, ◌||◌, Option, none, some, List, [],
  ◌∷◌, ◌++◌, ◌≡◌, refl, ◌==◌, ltb, if◌then◌else◌, take,
}
use libcando.Log.{ErrorStruct, codes, set_error, err_uncommon}
use libcando.Sockets.System.{
  Fd, Domain, Kind, SockOpt, Addr, Call, Reply, Answer, has, without, without-absent, Kernel,
  picked-IsFree, Os, ebadf, is_again, Io, pure, ◌>>=◌, ◌>>◌, made_call, invoke, count_block,
  calloc_context, give_fd, open_fd, close_fd, remove_file, release, or_else, each_or, open_or,
  af_inet6, af_unix, af_vsock, af_can, stream, datagram, raw, reuse_addr, reuse_port, v6_only,
  keep_alive, keep_count, keep_idle, keep_interval, zeros, sender, inet_addr, unix_path, vm_addr,
  can_addr, calloc, free, socket, setsockopt, inet_pton, bind, connect, listen, accept, close,
  remove, recv, send, recvfrom, sendto, open_vsock, get_local_cid, get_if_index, minus_one,
  minus_errno, count, done, failed,
}
use libcando.Sockets.Steps.{
  Made, with_context, refuse, if_made, dispose, fresh_error, note_as, note, note_incorrect, give_up,
  set_options, datagram_fd, is_positive, connect_to, accept_alive, bind_to_client, accept_from,
  htons, text_of, is_transfer, after, value, transfer, verifier, receive_acked, verified,
  send_acked, made, refused,
}

-- `struct udo_usock_udp`: `addr.sun_path` and `saddr.sun_path`
pub record UnixUdp : Type 0 where
  pub err : ErrorStruct
  pub free : Bool
  pub fd : Fd
  pub sun_path : List ℕ
  pub server_path : List ℕ

-- A context of calloc(3) whose `free` is set
abbrev pub fresh : UnixUdp
fresh = record { err = fresh_error; free = true; fd = some 0; sun_path = []; server_path = [] }

-- What memset(3) and fd = -1 leave
abbrev pub cleared : UnixUdp
cleared = record fresh { free = false; fd = none }

-- `struct udo_usock_udp_create_info`; a path may be NULL.
pub record CreateInfo : Type 0 where
  pub unix_path : Option (List ℕ)
  pub cli_unix_path : Option (List ℕ)

-- `udo_usock_udp_destroy` of a context that is not NULL, and what is left of it
pub destroy : UnixUdp → Io (Option UnixUdp)
destroy usock = close_fd usock.fd >> remove_file usock.sun_path >> dispose usock.free cleared

-- "socket: %s"
abbrev socket_error : List ℕ → List ℕ
socket_error reason = codes "socket: " ++ reason

-- `p_create_sock_fd`
pub create_sock_fd : ErrorStruct → Io (ErrorStruct × Fd)
create_sock_fd err = datagram_fd af_unix ((reuse_addr, 1) ∷ []) socket_error err

socket_opened : UnixUdp → ErrorStruct × Fd → Io (Made UnixUdp)
unfolding destroy
socket_opened usock (err, none) = refuse (destroy (record usock { err = err; fd = none }))
socket_opened usock (err, some n) = pure (made (record usock { err = err; fd = some n }))

-- `p_create_usock` with a context
open_socket : UnixUdp → Io (Made UnixUdp)
unfolding create_sock_fd socket_opened
open_socket usock = create_sock_fd usock.err >>= socket_opened usock

-- `p_create_usock`
pub create_usock : Option UnixUdp → Io (Made UnixUdp)
unfolding open_socket
create_usock usock = with_context usock fresh open_socket

bind_path : UnixUdp → Io (Made UnixUdp)
unfolding destroy
bind_path usock =
    each_or (bind usock.fd (unix_path usock.sun_path) ∷ []) (refuse (destroy usock))
      (pure (made usock))

-- `udo_usock_udp_server_create` behind p_create_usock: at most 107 bytes of the path
serve : List ℕ → UnixUdp → Io (Made UnixUdp)
unfolding bind_path
serve path usock = bind_path (record usock { sun_path = take 107 path })

-- `udo_usock_udp_server_create`
pub server_create : Option UnixUdp → Option CreateInfo → Io (Made UnixUdp)
unfolding create_usock serve
server_create usock none = pure (refused usock)
server_create usock (some info) = elim info.unix_path [
  | none ↦ pure (refused usock)
  | some path ↦ create_usock usock >>= if_made (serve path)
]

connect_path : UnixUdp → Io (Made UnixUdp)
unfolding destroy
connect_path usock =
    each_or (connect usock.fd (unix_path usock.server_path) ∷ []) (refuse (destroy usock))
      (pure (made usock))

-- `udo_usock_udp_client_create` behind p_create_usock: bound to its own path, connected to the
-- server's
attach : (own server : List ℕ) → UnixUdp → Io (Made UnixUdp)
unfolding bind_path connect_path
attach own server usock =
    bind_path (record usock { sun_path = take 107 own; server_path = take 107 server })
    >>= if_made connect_path

-- `udo_usock_udp_client_create`
pub client_create : Option UnixUdp → Option CreateInfo → Io (Made UnixUdp)
unfolding create_usock attach
client_create usock none = pure (refused usock)
client_create usock (some info) = elim info.unix_path [
  | none ↦ pure (refused usock)
  | some server ↦ elim info.cli_unix_path [
    | none ↦ pure (refused usock)
    | some own ↦ create_usock usock >>= if_made (attach own server)
  ]
]

-- `udo_usock_udp_recv_data`
unfoldable pub recv_data : Fd → (has_data : Bool) → (size flags : ℕ) → Io Reply
recv_data fd has_data size flags =
    if is_transfer fd has_data size then receive_acked fd size flags else pure minus_one

-- `udo_usock_udp_send_data` of the message to the address
unfoldable pub send_data :
    Fd → (has_data : Bool) → (size flags : ℕ) → Addr → (message : ℕ) → Io Reply
send_data fd has_data size flags addr message =
    if is_transfer fd has_data size then send_acked fd size flags addr message else pure minus_one

-- `udo_usock_udp_server_recv_data`
pub server_recv_data : Option UnixUdp → (has_data : Bool) → (size flags : ℕ) → Io Reply
unfolding recv_data
server_recv_data none has_data size flags = pure minus_one
server_recv_data (some usock) has_data size flags = recv_data usock.fd has_data size flags

-- `udo_usock_udp_client_send_data`
pub client_send_data : Option UnixUdp → (has_data : Bool) → (size flags message : ℕ) → Io Reply
unfolding send_data
client_send_data none has_data size flags message = pure minus_one
client_send_data (some usock) has_data size flags message =
    send_data usock.fd has_data size flags (unix_path usock.server_path) message

-- `udo_usock_udp_get_fd`
pub get_fd : Option UnixUdp → Fd
get_fd none = none
get_fd (some usock) = usock.fd

-- `udo_usock_udp_get_unix_path`
pub get_unix_path : Option UnixUdp → Option (List ℕ)
get_unix_path none = none
get_unix_path (some usock) = text_of usock.sun_path
