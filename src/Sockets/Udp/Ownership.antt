-- ===== src/Sockets/Udp/Ownership.antt =====
-- src/sock-udp.c: the descriptors and blocks that its functions hold.
use libcando.Base.{
  ℕ, zero, suc, ◌+◌, Bool, Option, none, some, List, [], ◌∷◌, ◌≡◌, refl, Option-cases, inl, inr,
}
use libcando.Sockets.System.{Addr, Answer, Os, af_inet6, inet_pton, bind, done, failed}
use libcando.Sockets.Triples.{close_dispose-Gone, Triple, Gone, size_of, closing, invoke-Triple}
use libcando.Sockets.Descriptors.{datagram_then-Triple, Accepted, datagram_fd-Triple, accept-Opened}
use libcando.Sockets.Endpoint.{
  Context, Endpoint, Owns, Continues, Given, refused-Owns, made-Owns, if_made-Owns,
  with_context-Owns, refuse_open, refuse_closed, each_or-Continues,
}
use libcando.Sockets.Udp.{
  Udp, CreateInfo, fresh, cleared, destroy, pton_answered, address, ip_text, addressed,
  socket_options, create_sock_fd, socket_error, socket_opened, open_socket, create_sock, serve,
  server_create, server_accept, client_create,
}

abbrev pub context : Context Udp
context = record { fd_of = λ x. x.fd; heap_of = λ x. x.free }

pub destroy-Gone :
    (x : Udp) (before after : List ℕ) (blocks : ℕ)
    → closing x.fd before ≡ after
    → Triple before (size_of x.free + blocks) (destroy x) (Gone after blocks)
unfolding destroy
destroy-Gone x = close_dispose-Gone x.fd x.free cleared

module _ (held : List ℕ) (blocks : ℕ) where
  pton_answered-Continues : (a : Answer) → Continues context held blocks (λ x. pton_answered x a)
  unfolding pton_answered
  pton_answered-Continues (done zero) = refuse_open context destroy destroy-Gone held blocks
  pton_answered-Continues (done (suc v)) = made-Owns context held blocks
  pton_answered-Continues (failed e) = refuse_open context destroy destroy-Gone held blocks

  address-Continues :
      (info : CreateInfo) (ip_addr : List ℕ) → Continues context held blocks (address info ip_addr)
  unfolding address
  address-Continues info ip_addr x n e f =
      invoke-Triple (n ∷ held) (size_of x.free + blocks) (Owns context held blocks)
        (inet_pton (ip_text info ip_addr)) (pton_answered (addressed x info ip_addr))
        (λ a. pton_answered-Continues a (addressed x info ip_addr) n e f)

  open_socket-Owns :
      (info : CreateInfo) (ip_addr : List ℕ) (x : Udp)
      → Triple held
          (size_of x.free + blocks)
          (open_socket info ip_addr x)
          (Owns context held blocks)
  unfolding open_socket create_sock_fd socket_opened
  open_socket-Owns info ip_addr x =
      datagram_then-Triple held (size_of x.free + blocks) (Owns context held blocks)
        (socket_opened x info ip_addr)
        (λ e.
          refuse_closed context destroy destroy-Gone held blocks (record x { err = e; fd = none })
            refl)
        (λ e n. address-Continues info ip_addr (record x { err = e; fd = some n }) n refl) af_inet6
        (socket_options info.ipv6) socket_error x.err

  pub create_sock-Owns :
      (given : Option Udp) (info : Option CreateInfo)
      → Given context given
      → Triple held blocks (create_sock given info) (Owns context held blocks)
  unfolding create_sock
  create_sock-Owns given none g = refused-Owns context held blocks given
  create_sock-Owns given (some info) g = elim (Option-cases info.ip_addr) [
    | inl e ↦ rw (e) (refused-Owns context held blocks given)
    | inr (ip_addr, e) ↦ rw (e) (
        with_context-Owns context fresh (open_socket info ip_addr) refl held blocks
          (open_socket-Owns info ip_addr) given g)
  ]

  pub server_create-Owns :
      (given : Option Udp) (info : Option CreateInfo)
      → Given context given
      → Triple held blocks (server_create given info) (Owns context held blocks)
  unfolding server_create serve
  server_create-Owns given info g =
      if_made-Owns context held blocks held blocks (create_sock given info) (serve)
        (create_sock-Owns given info g)
        (each_or-Continues context destroy destroy-Gone held blocks (λ x. bind x.fd x.addr ∷ []))

abbrev pub server : Endpoint Udp (Option CreateInfo)
unfolding client_create
server = record {
  context = context;
  create = server_create;
  destroy = destroy;
  create-Owns = λ given info held blocks. server_create-Owns held blocks given info;
  destroy-Gone = destroy-Gone;
}

abbrev pub client : Endpoint Udp (Option CreateInfo)
unfolding client_create
client = record {
  context = context;
  create = client_create;
  destroy = destroy;
  create-Owns = λ given info held blocks. create_sock-Owns held blocks given info;
  destroy-Gone = destroy-Gone;
}

pub server_accept-Accepted :
    (x : Udp) (peer : Addr) (ipv6 : Bool) (os : Os)
    → let r = server_accept (some x) (some peer) ipv6 os in Accepted os.held os.blocks r.0.1 r.1
unfolding server_accept create_sock_fd
server_accept-Accepted x peer ipv6 os =
    accept-Opened os.held os.blocks x.addr peer (create_sock_fd x.err ipv6)
      (datagram_fd-Triple os.held os.blocks af_inet6 (socket_options ipv6) socket_error x.err) os
      refl refl
