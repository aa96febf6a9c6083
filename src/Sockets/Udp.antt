-- ===== src/Sockets/Udp.antt =====
-- src/sock-udp.c: servers and clients of UDP over IPv6, where a receiver confirms what it receives.
pub mod Ownership
use libcando.Base.{
  ℕ, zero, suc, ◌+◌, ◌-◌, ◌^◌, Bool, true, false, not, ◌&&◌, ◌||◌, Option, none, some, List, [],
  ◌∷◌, ◌++◌, ◌≡◌, refl, ◌==◌, ltb, if◌then◌else◌, take,
}
use libcando.Log.{ErrorStruct, codes, set_error, err_uncommon}
use libcando.Sockets.System.{
  Fd, Domain, Kind, SockOpt, Addr, Call, Reply, Answer, has, without, without-absent, Kernel,
  picked-IsFree, Os, ebadf, is_again, Io, pure, ◌>>=◌, ◌>>◌, made_call, invoke, count_block,
  calloc_context, give_fd, open_fd, close_fd, remove_file, release, or_else, each_or, open_or,
  af_inet6, af_unix, af_vsock, af_can, stream, datagram, raw, reuse_addr, reuse_port, v6_only,
  keep_alive, keep_count, keep_idle, keep_interval, zeros, sender, inet_addr, unix_path, vm_addr,
  can_addr, calloc, free, socket, setsockopt, inet_pton, bind, connect, listen, accept, close,
  remove, recv, send, recvfrom, sendto, open_vsock, get_local_cid, get_if_index, minus_one,
  minus_errno, count, done, failed,
}
use libcando.Sockets.Steps.{
  Made, with_context, refuse, if_made, dispose, fresh_error, note_as, note, note_incorrect, give_up,
  set_options, datagram_fd, is_positive, connect_to, accept_alive, bind_to_client, accept_from,
  htons, text_of, is_transfer, after, value, transfer, verifier, receive_acked, verified,
  send_acked, made, refused,
}

-- `struct udo_sock_udp`
pub record Udp : Type 0 where
  pub err : ErrorStruct
  pub free : Bool
  pub fd : Fd
  pub ip_addr : List ℕ
  pub port : ℕ
  pub addr : Addr

-- A context of calloc(3) whose `free` is set
abbrev pub fresh : Udp
fresh = record { err = fresh_error; free = true; fd = some 0; ip_addr = []; port = 0; addr = zeros }

-- What memset(3) and fd = -1 leave
abbrev pub cleared : Udp
cleared = record fresh { free = false; fd = none }

-- `struct udo_sock_udp_create_info`; `ip_addr` may be NULL.
pub record CreateInfo : Type 0 where
  pub ipv6 : Bool
  pub ip_addr : Option (List ℕ)
  pub port : ℕ

-- `udo_sock_udp_destroy` of a context that is not NULL, and what is left of it
pub destroy : Udp → Io (Option Udp)
destroy sock = close_fd sock.fd >> dispose sock.free cleared

abbrev socket_options : (ipv6 : Bool) → List (SockOpt × ℕ)
socket_options ipv6 = (reuse_addr, 1) ∷ (reuse_port, 1) ∷ (v6_only, if ipv6 then 1 else 0) ∷ []

-- "socket: %s\n"
abbrev socket_error : List ℕ → List ℕ
socket_error reason = codes "socket: " ++ (reason ++ (10 ∷ []))

-- `p_create_sock_fd`
pub create_sock_fd : ErrorStruct → Bool → Io (ErrorStruct × Fd)
create_sock_fd err ipv6 = datagram_fd af_inet6 (socket_options ipv6) socket_error err

-- What inet_pton(3) answers: 0 for a text that is no address
pton_answered : Udp → Answer → Io (Made Udp)
unfolding destroy
pton_answered sock (done zero) = refuse (destroy sock)
pton_answered sock (done (suc v)) = pure (made sock)
pton_answered sock (failed e) = refuse (destroy sock)

-- `p_create_sock` behind the options: the address in text, at most 45 bytes of it, and in numbers
abbrev ip_text : CreateInfo → List ℕ → List ℕ
ip_text info ip_addr = take 45 ((if info.ipv6 then [] else codes "::ffff:") ++ ip_addr)

abbrev addressed : Udp → CreateInfo → List ℕ → Udp
addressed sock info ip_addr = record sock {
  ip_addr = ip_text info ip_addr;
  port = info.port;
  addr = inet_addr (ip_text info ip_addr) (htons info.port);
}

address : CreateInfo → List ℕ → Udp → Io (Made Udp)
unfolding pton_answered
address info ip_addr sock =
    invoke (inet_pton (ip_text info ip_addr)) >>= pton_answered (addressed sock info ip_addr)

socket_opened : Udp → CreateInfo → List ℕ → ErrorStruct × Fd → Io (Made Udp)
unfolding address destroy
socket_opened sock info ip_addr (err, none) =
    refuse (destroy (record sock { err = err; fd = none }))
socket_opened sock info ip_addr (err, some n) =
    address info ip_addr (record sock { err = err; fd = some n })

-- `p_create_sock` with a context
open_socket : CreateInfo → List ℕ → Udp → Io (Made Udp)
unfolding create_sock_fd socket_opened
open_socket info ip_addr sock =
    create_sock_fd sock.err info.ipv6 >>= socket_opened sock info ip_addr

-- `p_create_sock`: the caller's context stays as it is without an info or an address.
pub create_sock : Option Udp → Option CreateInfo → Io (Made Udp)
unfolding open_socket
create_sock sock none = pure (refused sock)
create_sock sock (some info) = elim info.ip_addr [
  | none ↦ pure (refused sock)
  | some ip_addr ↦ with_context sock fresh (open_socket info ip_addr)
]

-- `udo_sock_udp_server_create` behind p_create_sock
serve : Udp → Io (Made Udp)
unfolding destroy
serve sock = each_or (bind sock.fd sock.addr ∷ []) (refuse (destroy sock)) (pure (made sock))

-- `udo_sock_udp_server_create`
pub server_create : Option Udp → Option CreateInfo → Io (Made Udp)
unfolding create_sock serve
server_create sock info = create_sock sock info >>= if_made serve

-- `udo_sock_udp_client_create`
pub client_create : Option Udp → Option CreateInfo → Io (Made Udp)
unfolding create_sock
client_create sock info = create_sock sock info

-- `udo_sock_udp_server_accept`
pub server_accept : Option Udp → Option Addr → Bool → Io (Option Udp × Fd)
unfolding create_sock_fd
server_accept none addr ipv6 = pure (none, none)
server_accept (some sock) none ipv6 =
    note_incorrect sock.err >>= λ e. pure (some (record sock { err = e }), none)
server_accept (some sock) (some addr) ipv6 =
    create_sock_fd sock.err ipv6 >>= accept_from sock.addr addr >>= λ r.
    pure (some (record sock { err = r.0 }), r.1)

-- `udo_sock_udp_client_connect`
pub client_connect : Option Udp → Io (Option Udp × Reply)
client_connect none = pure (none, minus_one)
client_connect (some sock) =
    connect_to sock.fd sock.addr sock.err >>= λ r. pure (some (record sock { err = r.0 }), r.1)

-- `udo_sock_udp_recv_data`
unfoldable pub recv_data : Fd → (has_data : Bool) → (size flags : ℕ) → Io Reply
recv_data fd has_data size flags =
    if is_transfer fd has_data size then receive_acked fd size flags else pure minus_one

-- `udo_sock_udp_send_data` of the message to the address
unfoldable pub send_data :
    Fd → (has_data : Bool) → (size flags : ℕ) → Addr → (message : ℕ) → Io Reply
send_data fd has_data size flags addr message =
    if is_transfer fd has_data size then send_acked fd size flags addr message else pure minus_one

-- `udo_sock_udp_server_recv_data`
pub server_recv_data : Option Udp → (has_data : Bool) → (size flags : ℕ) → Io Reply
unfolding recv_data
server_recv_data none has_data size flags = pure minus_one
server_recv_data (some sock) has_data size flags = recv_data sock.fd has_data size flags

-- `udo_sock_udp_client_send_data`
pub client_send_data : Option Udp → (has_data : Bool) → (size flags message : ℕ) → Io Reply
unfolding send_data
client_send_data none has_data size flags message = pure minus_one
client_send_data (some sock) has_data size flags message =
    send_data sock.fd has_data size flags sock.addr message

-- `udo_sock_udp_get_fd`
pub get_fd : Option Udp → Fd
get_fd none = none
get_fd (some sock) = sock.fd

-- `udo_sock_udp_get_ip_addr`
pub get_ip_addr : Option Udp → Option (List ℕ)
get_ip_addr none = none
get_ip_addr (some sock) = text_of sock.ip_addr

-- `udo_sock_udp_get_port`
pub get_port : Option Udp → Option ℕ
get_port none = none
get_port (some sock) = some sock.port
