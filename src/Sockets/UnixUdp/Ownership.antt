-- ===== src/Sockets/UnixUdp/Ownership.antt =====
-- src/usock-udp.c: the descriptors and blocks that its functions hold.
use libcando.Base.{
  ℕ, ◌+◌, Option, none, some, List, [], ◌∷◌, take, ◌≡◌, refl, Option-cases, inl, inr,
}
use libcando.Sockets.System.{af_unix, reuse_addr, unix_path, bind, connect}
use libcando.Sockets.Triples.{close_remove-Gone, Triple, Gone, size_of, closing}
use libcando.Sockets.Descriptors.{datagram_then-Triple}
use libcando.Sockets.Endpoint.{
  Context, Endpoint, Owns, Continues, Given, refused-Owns, made-Owns, if_made-Owns,
  with_context-Owns, refuse_closed, each_or-Continues,
}
use libcando.Sockets.UnixUdp.{
  UnixUdp, CreateInfo, fresh, cleared, destroy, create_sock_fd, socket_error, socket_opened,
  open_socket, create_usock, bind_path, serve, connect_path, attach, server_create, client_create,
}

abbrev pub context : Context UnixUdp
context = record { fd_of = λ x. x.fd; heap_of = λ x. x.free }

pub destroy-Gone :
    (x : UnixUdp) (before after : List ℕ) (blocks : ℕ)
    → closing x.fd before ≡ after
    → Triple before (size_of x.free + blocks) (destroy x) (Gone after blocks)
unfolding destroy
destroy-Gone x = close_remove-Gone x.fd x.sun_path x.free cleared

module _ (held : List ℕ) (blocks : ℕ) where
  open_socket-Owns :
      (x : UnixUdp)
      → Triple held (size_of x.free + blocks) (open_socket x) (Owns context held blocks)
  unfolding open_socket create_sock_fd socket_opened
  open_socket-Owns x =
      datagram_then-Triple held (size_of x.free + blocks) (Owns context held blocks)
        (socket_opened x)
        (λ e.
          refuse_closed context destroy destroy-Gone held blocks (record x { err = e; fd = none })
            refl)
        (λ e n. made-Owns context held blocks (record x { err = e; fd = some n }) n refl) af_unix
        ((reuse_addr, 1) ∷ []) socket_error x.err

  create_usock-Owns :
      (given : Option UnixUdp)
      → Given context given
      → Triple held blocks (create_usock given) (Owns context held blocks)
  unfolding create_usock
  create_usock-Owns given =
      with_context-Owns context fresh open_socket refl held blocks open_socket-Owns given

  bind_path-Continues : Continues context held blocks bind_path
  unfolding bind_path
  bind_path-Continues =
      each_or-Continues context destroy destroy-Gone held blocks
        (λ x. bind x.fd (unix_path x.sun_path) ∷ [])

  connect_path-Continues : Continues context held blocks connect_path
  unfolding connect_path
  connect_path-Continues =
      each_or-Continues context destroy destroy-Gone held blocks
        (λ x. connect x.fd (unix_path x.server_path) ∷ [])

  serve-Continues : (path : List ℕ) → Continues context held blocks (serve path)
  unfolding serve
  serve-Continues path x = bind_path-Continues (record x { sun_path = take 107 path })

  attach-Continues : (own server : List ℕ) → Continues context held blocks (attach own server)
  unfolding attach
  attach-Continues own server x n e f =
      if_made-Owns context held blocks (n ∷ held) (size_of x.free + blocks)
        (bind_path (record x { sun_path = take 107 own; server_path = take 107 server }))
        connect_path
        (bind_path-Continues (record x { sun_path = take 107 own; server_path = take 107 server }) n
          e f)
        connect_path-Continues

  pub server_create-Owns :
      (given : Option UnixUdp) (info : Option CreateInfo)
      → Given context given
      → Triple held blocks (server_create given info) (Owns context held blocks)
  unfolding server_create
  server_create-Owns given none g = refused-Owns context held blocks given
  server_create-Owns given (some info) g = elim (Option-cases info.unix_path) [
    | inl e ↦ rw (e) (refused-Owns context held blocks given)
    | inr (path, e) ↦ rw (e) (
        if_made-Owns context held blocks held blocks (create_usock given) (serve path)
          (create_usock-Owns given g) (serve-Continues path))
  ]

  pub client_create-Owns :
      (given : Option UnixUdp) (info : Option CreateInfo)
      → Given context given
      → Triple held blocks (client_create given info) (Owns context held blocks)
  unfolding client_create
  client_create-Owns given none g = refused-Owns context held blocks given
  client_create-Owns given (some info) g = elim (Option-cases info.unix_path) [
    | inl e ↦ rw (e) (refused-Owns context held blocks given)
    | inr (path, e) ↦ elim (Option-cases info.cli_unix_path) [
      | inl e' ↦ rw (e, e') (refused-Owns context held blocks given)
      | inr (own, e') ↦
          rw (e, e')
            (if_made-Owns context held blocks held blocks (create_usock given) (attach own path)
              (create_usock-Owns given g) (attach-Continues own path))
    ]
  ]

abbrev pub server : Endpoint UnixUdp (Option CreateInfo)
unfolding client_create
server = record {
  context = context;
  create = server_create;
  destroy = destroy;
  create-Owns = λ given info held blocks. server_create-Owns held blocks given info;
  destroy-Gone = destroy-Gone;
}

abbrev pub client : Endpoint UnixUdp (Option CreateInfo)
unfolding client_create
client = record {
  context = context;
  create = client_create;
  destroy = destroy;
  create-Owns = λ given info held blocks. client_create-Owns held blocks given info;
  destroy-Gone = destroy-Gone;
}
