-- ===== src/Sockets/Tcp/Ownership.antt =====
-- src/sock-tcp.c: the descriptors and blocks that its functions hold.
use libcando.Base.{ℕ, zero, suc, ◌+◌, false, Option, none, some, List, ◌∷◌, ◌≡◌, refl}
use libcando.Sockets.System.{Answer, done, failed, Os, has, socket, af_inet6, stream, inet_pton}
use libcando.Sockets.Steps.{refuse}
use libcando.Sockets.Triples.{
  close_dispose-Gone, Triple, Gone, size_of, closing, invoke-Triple, open_or-Triple,
}
use libcando.Sockets.Descriptors.{options_then-Triple, Accepted, accept_alive-Opened}
use libcando.Sockets.Endpoint.{
  refuse_gone, Context, Endpoint, Owns, Continues, Given, made-Owns, if_made-Owns, refuse_open,
  refuse_closed, each_or-Continues, with_context-Owns,
}
use libcando.Sockets.Tcp.{
  Tcp, CreateInfo, fresh, cleared, destroy, set_sock_opts, pton_answered, address, options_set,
  open_socket, create_sock, serve, opened, ip_text, addressed, serve_calls, socket_options,
  server_create, server_accept, client_create,
}

abbrev pub context : Context Tcp
context = record { fd_of = λ sock. sock.fd; heap_of = λ sock. sock.free }

pub destroy-Gone :
    (sock : Tcp) (before after : List ℕ) (blocks : ℕ)
    → closing sock.fd before ≡ after
    → Triple before (size_of sock.free + blocks) (destroy sock) (Gone after blocks)
unfolding destroy
destroy-Gone sock = close_dispose-Gone sock.fd sock.free cleared

module _ (held : List ℕ) (blocks : ℕ) where
  pton_answered-Continues :
      (a : Answer) → Continues context held blocks (λ sock. pton_answered sock a)
  unfolding pton_answered
  pton_answered-Continues (done zero) = refuse_open context destroy destroy-Gone held blocks
  pton_answered-Continues (done (suc v)) = made-Owns context held blocks
  pton_answered-Continues (failed e) = refuse_open context destroy destroy-Gone held blocks

  address-Continues : (info : CreateInfo) → Continues context held blocks (address info)
  unfolding address
  address-Continues info sock n e f =
      invoke-Triple (n ∷ held) (size_of sock.free + blocks) (Owns context held blocks)
        (inet_pton (ip_text info)) (pton_answered (addressed sock info))
        (λ a. pton_answered-Continues a (addressed sock info) n e f)

  opened-Owns :
      (info : CreateInfo) (sock : Tcp) (n : ℕ)
      → has n held ≡ false
      → Triple
          (n ∷ held)
          (size_of sock.free + blocks)
          (opened info sock n)
          (Owns context held blocks)
  unfolding opened set_sock_opts options_set
  opened-Owns info sock n f =
      options_then-Triple n held (size_of sock.free + blocks) (Owns context held blocks)
        (options_set (record sock { fd = some n }) info)
        (λ e.
          refuse_gone context destroy destroy-Gone held blocks
            (record sock { fd = some n; err = e }) n refl f)
        (λ e. address-Continues info (record sock { fd = some n }) n refl f)
        (socket_options info.ipv6) sock.err

  open_socket-Owns :
      (info : CreateInfo) (sock : Tcp)
      → Triple held (size_of sock.free + blocks) (open_socket info sock) (Owns context held blocks)
  unfolding open_socket
  open_socket-Owns info sock =
      open_or-Triple held (size_of sock.free + blocks) (Owns context held blocks)
        (socket af_inet6 stream) (refuse (destroy (record sock { fd = none }))) (opened info sock)
        (refuse_closed context destroy destroy-Gone held blocks (record sock { fd = none }) refl)
        (opened-Owns info sock)

  pub create_sock-Owns :
      (given : Option Tcp) (info : CreateInfo)
      → Given context given
      → Triple held blocks (create_sock given info) (Owns context held blocks)
  unfolding create_sock
  create_sock-Owns given info =
      with_context-Owns context fresh (open_socket info) refl held blocks (open_socket-Owns info)
        given

  pub server_create-Owns :
      (given : Option Tcp) (info : CreateInfo)
      → Given context given
      → Triple held blocks (server_create given info) (Owns context held blocks)
  unfolding server_create serve
  server_create-Owns given info g =
      if_made-Owns context held blocks held blocks (create_sock given info) (serve info)
        (create_sock-Owns given info g)
        (each_or-Continues context destroy destroy-Gone held blocks (serve_calls info))

abbrev pub server : Endpoint Tcp CreateInfo
unfolding client_create
server = record {
  context = context;
  create = server_create;
  destroy = destroy;
  create-Owns = λ given info held blocks. server_create-Owns held blocks given info;
  destroy-Gone = destroy-Gone;
}

abbrev pub client : Endpoint Tcp CreateInfo
unfolding client_create
client = record {
  context = context;
  create = client_create;
  destroy = destroy;
  create-Owns = λ given info held blocks. create_sock-Owns held blocks given info;
  destroy-Gone = destroy-Gone;
}

pub server_accept-Accepted :
    (x : Tcp) (os : Os) → let r = server_accept (some x) os in Accepted os.held os.blocks r.0.1 r.1
unfolding server_accept
server_accept-Accepted x os = accept_alive-Opened os.held os.blocks x.fd x.err os refl refl
