-- ===== src/Sockets/Can.antt =====
-- src/csock-raw.c: raw sockets of CAN interfaces.
pub mod Ownership
pub mod Frames
use libcando.Base.{
  ℕ, zero, suc, ◌+◌, ◌-◌, ◌^◌, Bool, true, false, not, ◌&&◌, ◌||◌, Option, none, some, List, [],
  ◌∷◌, ◌++◌, ◌≡◌, refl, ◌==◌, ltb, if◌then◌else◌, take,
}
use libcando.Log.{ErrorStruct, codes, set_error, err_uncommon}
use libcando.Sockets.System.{
  Fd, Domain, Kind, SockOpt, Addr, Call, Reply, Answer, has, without, without-absent, Kernel,
  picked-IsFree, Os, ebadf, is_again, Io, pure, ◌>>=◌, ◌>>◌, made_call, invoke, count_block,
  calloc_context, give_fd, open_fd, close_fd, remove_file, release, or_else, each_or, open_or,
  af_inet6, af_unix, af_vsock, af_can, stream, datagram, raw, reuse_addr, reuse_port, v6_only,
  keep_alive, keep_count, keep_idle, keep_interval, zeros, sender, inet_addr, unix_path, vm_addr,
  can_addr, calloc, free, socket, setsockopt, inet_pton, bind, connect, listen, accept, close,
  remove, recv, send, recvfrom, sendto, open_vsock, get_local_cid, get_if_index, minus_one,
  minus_errno, count, done, failed,
}
use libcando.Sockets.Steps.{
  Made, with_context, refuse, if_made, dispose, fresh_error, note_as, note, note_incorrect, located,
  give_up, set_options, datagram_fd, is_positive, connect_to, accept_alive, bind_to_client,
  accept_from, htons, text_of, is_transfer, after, value, transfer, verifier, receive_acked,
  verified, send_acked, made, refused,
}

-- `struct udo_csock_raw`
pub record Can : Type 0 where
  pub err : ErrorStruct
  pub free : Bool
  pub fd : Fd
  pub iface : List ℕ

-- A context of calloc(3), whose `free` the code does not set
abbrev pub fresh : Can
fresh = record { err = fresh_error; free = false; fd = some 0; iface = [] }

-- What memset(3) and fd = -1 leave
abbrev pub cleared : Can
cleared = record fresh { fd = none }

-- `sizeof(struct can_frame)`
abbrev pub frame_size : ℕ
frame_size = 16

-- `udo_csock_raw_destroy` of a context that is not NULL, and what is left of it
pub destroy : Can → Io (Option Can)
destroy csock = close_fd csock.fd >> dispose csock.free cleared

-- `udo_csock_raw_create` behind ioctl(2), with the index of the interface; at most 15 bytes of the
-- name are kept.
bind_interface : Can → List ℕ → Answer → Io (Made Can)
unfolding destroy
bind_interface csock iface (failed e) = refuse (destroy csock)
bind_interface csock iface (done index) =
    or_else (bind csock.fd (can_addr index)) (refuse (destroy csock))
      (pure (made (record csock { iface = take 15 iface })))

opened : List ℕ → Can → ℕ → Io (Made Can)
unfolding bind_interface
opened iface csock n =
    invoke (get_if_index (some n) (take 16 iface))
    >>= bind_interface (record csock { fd = some n }) iface

-- `udo_csock_raw_create` with a context; ioctl(2) gets at most 16 bytes of the name.
open_socket : List ℕ → Can → Io (Made Can)
unfolding opened destroy
open_socket iface csock =
    open_or (socket af_can raw) (refuse (destroy (record csock { fd = none }))) (opened iface csock)

-- `udo_csock_raw_create`; the info is the name of the interface.
pub create : Option Can → Option (List ℕ) → Io (Made Can)
unfolding open_socket
create csock none = pure (refused csock)
create csock (some iface) = with_context csock fresh (open_socket iface)

-- Behind a transfer: everything but a whole frame is "incomplete", before errno is looked at.
frame_moved : Can → List ℕ → Answer → Os → (Can × Reply) × Os
frame_moved csock text (failed e) os =
    ((record csock { err = set_error csock.err err_uncommon (located os text) }, minus_one), os)
frame_moved csock text (done n) os =
    if not (n == frame_size)
    then (
      (record csock { err = set_error csock.err err_uncommon (located os text) }, minus_one),
      os,
    )
    else if is_again os.errno
    then ((csock, minus_errno os.errno), os)
    else ((csock, count n), os)

-- The body of send_data and recv_data of a context that is not NULL
move_frame : (has_frame : Bool) → Call → List ℕ → Can → Io (Can × Reply)
unfolding frame_moved
move_frame has_frame call text csock = elim csock.fd [
  | none ↦ note_incorrect csock.err >>= λ e. pure (record csock { err = e }, minus_one)
  | some n ↦
      if has_frame
      then invoke call >>= frame_moved csock text
      else note_incorrect csock.err >>= λ e. pure (record csock { err = e }, minus_one)
]

-- `udo_csock_raw_send_data`
pub send_data : Option Can → (has_frame : Bool) → (flags : ℕ) → Io (Option Can × Reply)
unfolding move_frame
send_data none has_frame flags = pure (none, minus_one)
send_data (some csock) has_frame flags =
    move_frame has_frame (send csock.fd frame_size flags) (codes "send: incomplete CAN frame") csock
    >>= λ r. pure (some r.0, r.1)

-- `udo_csock_raw_recv_data`
pub recv_data : Option Can → (has_frame : Bool) → (flags : ℕ) → Io (Option Can × Reply)
unfolding move_frame
recv_data none has_frame flags = pure (none, minus_one)
recv_data (some csock) has_frame flags =
    move_frame has_frame (recv csock.fd frame_size flags) (codes "recv: incomplete CAN frame") csock
    >>= λ r. pure (some r.0, r.1)

-- `udo_csock_raw_get_fd`
pub get_fd : Option Can → Fd
get_fd none = none
get_fd (some csock) = csock.fd

-- `udo_csock_raw_get_iface`
pub get_iface : Option Can → Option (List ℕ)
get_iface none = none
get_iface (some csock) = text_of csock.iface
