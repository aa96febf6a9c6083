-- ===== src/Sockets/UnixTcp.antt =====
-- src/usock-tcp.c: servers and clients of UNIX stream sockets.
pub mod Ownership
pub mod Paths
use libcando.Base.{
  ℕ, zero, suc, ◌+◌, ◌-◌, ◌^◌, Bool, true, false, not, ◌&&◌, ◌||◌, Option, none, some, List, [],
  ◌∷◌, ◌++◌, ◌≡◌, refl, ◌==◌, ltb, if◌then◌else◌, take,
}
use libcando.Log.{ErrorStruct, codes, set_error, err_uncommon}
use libcando.Sockets.System.{
  Fd, Domain, Kind, SockOpt, Addr, Call, Reply, Answer, has, without, without-absent, Kernel,
  picked-IsFree, Os, ebadf, is_again, Io, pure, ◌>>=◌, ◌>>◌, made_call, invoke, count_block,
  calloc_context, give_fd, open_fd, close_fd, remove_file, release, or_else, each_or, open_or,
  af_inet6, af_unix, af_vsock, af_can, stream, datagram, raw, reuse_addr, reuse_port, v6_only,
  keep_alive, keep_count, keep_idle, keep_interval, zeros, sender, inet_addr, unix_path, vm_addr,
  can_addr, calloc, free, socket, setsockopt, inet_pton, bind, connect, listen, accept, close,
  remove, recv, send, recvfrom, sendto, open_vsock, get_local_cid, get_if_index, minus_one,
  minus_errno, count, done, failed,
}
use libcando.Sockets.Steps.{
  Made, with_context, refuse, if_made, dispose, fresh_error, note_as, note, note_incorrect, give_up,
  set_options, datagram_fd, is_positive, connect_to, accept_alive, bind_to_client, accept_from,
  htons, text_of, is_transfer, after, value, transfer, verifier, receive_acked, verified,
  send_acked, made, refused,
}

-- `struct udo_usock_tcp`
pub record UnixTcp : Type 0 where
  pub err : ErrorStruct
  pub free : Bool
  pub fd : Fd
  pub sun_path : List ℕ

-- A context of calloc(3) whose `free` is set
abbrev pub fresh : UnixTcp
fresh = record { err = fresh_error; free = true; fd = some 0; sun_path = [] }

-- What memset(3) and fd = -1 leave
abbrev pub cleared : UnixTcp
cleared = record fresh { free = false; fd = none }

-- `struct udo_usock_tcp_server_create_info`; a client's has no `connections`. `unix_path` may be
-- NULL.
pub record CreateInfo : Type 0 where
  pub unix_path : Option (List ℕ)
  pub connections : ℕ

-- `udo_usock_tcp_destroy` of a context that is not NULL, and what is left of it
pub destroy : UnixTcp → Io (Option UnixTcp)
destroy usock = close_fd usock.fd >> remove_file usock.sun_path >> dispose usock.free cleared

-- `p_set_sock_opts`; its result 0 is read as the descriptor.
pub set_sock_opts : ErrorStruct → Fd → Io (ErrorStruct × Fd)
set_sock_opts err fd = set_options fd ((reuse_addr, 1) ∷ []) err

-- `p_create_sock` behind p_set_sock_opts: at most 107 bytes of the path
options_set : UnixTcp → List ℕ → ErrorStruct × Fd → Io (Made UnixTcp)
unfolding destroy
options_set usock path (err, none) = refuse (destroy (record usock { err = err }))
options_set usock path (err, some n) = pure (made (record usock { sun_path = take 107 path }))

opened : List ℕ → UnixTcp → ℕ → Io (Made UnixTcp)
unfolding options_set set_sock_opts
opened path usock n =
    set_sock_opts usock.err (some n) >>= options_set (record usock { fd = some n }) path

-- `p_create_sock` with a context: a descriptor that p_set_sock_opts closed stays in it.
open_socket : List ℕ → UnixTcp → Io (Made UnixTcp)
unfolding opened destroy
open_socket path usock =
    open_or (socket af_unix stream) (refuse (destroy (record usock { fd = none })))
      (opened path usock)

-- `p_create_sock`
pub create_sock : Option UnixTcp → Option CreateInfo → Io (Made UnixTcp)
unfolding open_socket
create_sock usock none = pure (refused usock)
create_sock usock (some info) = elim info.unix_path [
  | none ↦ pure (refused usock)
  | some path ↦ with_context usock fresh (open_socket path)
]

-- `udo_usock_tcp_server_create` behind p_create_sock
serve : (connections : ℕ) → UnixTcp → Io (Made UnixTcp)
unfolding destroy
serve connections usock =
    each_or (bind usock.fd (unix_path usock.sun_path) ∷ listen usock.fd connections ∷ [])
      (refuse (destroy usock)) (pure (made usock))

-- `connections` of an info; `p_create_sock` refuses one that is NULL.
abbrev connections_of : Option CreateInfo → ℕ
connections_of none = 0
connections_of (some info) = info.connections

-- `udo_usock_tcp_server_create`
pub server_create : Option UnixTcp → Option CreateInfo → Io (Made UnixTcp)
unfolding create_sock serve
server_create usock info = create_sock usock info >>= if_made (serve (connections_of info))

-- `udo_usock_tcp_client_create`
pub client_create : Option UnixTcp → Option CreateInfo → Io (Made UnixTcp)
unfolding create_sock
client_create usock info = create_sock usock info

-- `udo_usock_tcp_server_accept`
pub server_accept : Option UnixTcp → Io (Option UnixTcp × Fd)
server_accept none = pure (none, none)
server_accept (some usock) =
    accept_alive usock.fd usock.err >>= λ r. pure (some (record usock { err = r.0 }), r.1)

-- `udo_usock_tcp_client_connect`
pub client_connect : Option UnixTcp → Io (Option UnixTcp × Reply)
client_connect none = pure (none, minus_one)
client_connect (some usock) = connect_to usock.fd (unix_path usock.sun_path) usock.err >>= λ r.
    pure (some (record usock { err = r.0 }), r.1)

-- `udo_usock_tcp_recv_data`
pub recv_data : Fd → (has_data : Bool) → (size flags : ℕ) → Io Reply
recv_data fd has_data size flags =
    if is_transfer fd has_data size then transfer (recv fd size flags) else pure minus_one

-- `udo_usock_tcp_send_data`
pub send_data : Fd → (has_data : Bool) → (size flags : ℕ) → Io Reply
send_data fd has_data size flags =
    if is_transfer fd has_data size then transfer (send fd size flags) else pure minus_one

-- `udo_usock_tcp_client_send_data`
pub client_send_data : Option UnixTcp → (has_data : Bool) → (size flags : ℕ) → Io Reply
unfolding send_data
client_send_data none has_data size flags = pure minus_one
client_send_data (some usock) has_data size flags = send_data usock.fd has_data size flags

-- `udo_usock_tcp_get_fd`
pub get_fd : Option UnixTcp → Fd
get_fd none = none
get_fd (some usock) = usock.fd

-- `udo_usock_tcp_get_unix_path`
pub get_unix_path : Option UnixTcp → Option (List ℕ)
get_unix_path none = none
get_unix_path (some usock) = text_of usock.sun_path
