-- ===== src/Sockets/UnixTcp/Ownership.antt =====
-- src/usock-tcp.c: the descriptors and blocks that its functions hold.
use libcando.Base.{
  ℕ, ◌+◌, false, Option, none, some, List, [], ◌∷◌, take, ◌≡◌, refl, Option-cases, inl, inr,
}
use libcando.Sockets.System.{has, Os, af_unix, stream, reuse_addr, unix_path, socket, bind, listen}
use libcando.Sockets.Steps.{refuse}
use libcando.Sockets.Triples.{close_remove-Gone, Triple, Gone, size_of, closing, open_or-Triple}
use libcando.Sockets.Descriptors.{options_then-Triple, Accepted, accept_alive-Opened}
use libcando.Sockets.Endpoint.{
  refuse_gone, Context, Endpoint, Owns, Given, refused-Owns, made-Owns, if_made-Owns,
  with_context-Owns, refuse_closed, each_or-Continues,
}
use libcando.Sockets.UnixTcp.{
  UnixTcp, CreateInfo, fresh, cleared, destroy, set_sock_opts, opened, options_set, open_socket,
  create_sock, serve, connections_of, server_create, server_accept, client_create,
}

abbrev pub context : Context UnixTcp
context = record { fd_of = λ x. x.fd; heap_of = λ x. x.free }

pub destroy-Gone :
    (x : UnixTcp) (before after : List ℕ) (blocks : ℕ)
    → closing x.fd before ≡ after
    → Triple before (size_of x.free + blocks) (destroy x) (Gone after blocks)
unfolding destroy
destroy-Gone x = close_remove-Gone x.fd x.sun_path x.free cleared

module _ (held : List ℕ) (blocks : ℕ) where
  opened-Owns :
      (path : List ℕ) (x : UnixTcp) (n : ℕ)
      → has n held ≡ false
      → Triple (n ∷ held) (size_of x.free + blocks) (opened path x n) (Owns context held blocks)
  unfolding opened set_sock_opts options_set
  opened-Owns path x n f =
      options_then-Triple n held (size_of x.free + blocks) (Owns context held blocks)
        (options_set (record x { fd = some n }) path)
        (λ e.
          refuse_gone context destroy destroy-Gone held blocks (record x { fd = some n; err = e }) n
            refl f)
        (λ e.
          made-Owns context held blocks (record x { fd = some n; sun_path = take 107 path }) n refl
            f)
        ((reuse_addr, 1) ∷ []) x.err

  open_socket-Owns :
      (path : List ℕ) (x : UnixTcp)
      → Triple held (size_of x.free + blocks) (open_socket path x) (Owns context held blocks)
  unfolding open_socket
  open_socket-Owns path x =
      open_or-Triple held (size_of x.free + blocks) (Owns context held blocks)
        (socket af_unix stream) (refuse (destroy (record x { fd = none }))) (opened path x)
        (refuse_closed context destroy destroy-Gone held blocks (record x { fd = none }) refl)
        (opened-Owns path x)

  pub create_sock-Owns :
      (given : Option UnixTcp) (info : Option CreateInfo)
      → Given context given
      → Triple held blocks (create_sock given info) (Owns context held blocks)
  unfolding create_sock
  create_sock-Owns given none g = refused-Owns context held blocks given
  create_sock-Owns given (some info) g = elim (Option-cases info.unix_path) [
    | inl e ↦ rw (e) (refused-Owns context held blocks given)
    | inr (path, e) ↦ rw (e) (
        with_context-Owns context fresh (open_socket path) refl held blocks (open_socket-Owns path)
          given g)
  ]

  pub server_create-Owns :
      (given : Option UnixTcp) (info : Option CreateInfo)
      → Given context given
      → Triple held blocks (server_create given info) (Owns context held blocks)
  unfolding server_create serve
  server_create-Owns given info g =
      if_made-Owns context held blocks held blocks (create_sock given info)
        (serve (connections_of info)) (create_sock-Owns given info g)
        (each_or-Continues context destroy destroy-Gone held blocks
          (λ x. bind x.fd (unix_path x.sun_path) ∷ listen x.fd (connections_of info) ∷ []))

abbrev pub server : Endpoint UnixTcp (Option CreateInfo)
unfolding client_create
server = record {
  context = context;
  create = server_create;
  destroy = destroy;
  create-Owns = λ given info held blocks. server_create-Owns held blocks given info;
  destroy-Gone = destroy-Gone;
}

abbrev pub client : Endpoint UnixTcp (Option CreateInfo)
unfolding client_create
client = record {
  context = context;
  create = client_create;
  destroy = destroy;
  create-Owns = λ given info held blocks. create_sock-Owns held blocks given info;
  destroy-Gone = destroy-Gone;
}

pub server_accept-Accepted :
    (x : UnixTcp) (os : Os)
    → let r = server_accept (some x) os in Accepted os.held os.blocks r.0.1 r.1
unfolding server_accept
server_accept-Accepted x os = accept_alive-Opened os.held os.blocks x.fd x.err os refl refl
