-- ===== src/Sockets/VmTcp/Ownership.antt =====
-- src/vsock-tcp.c: the descriptors and blocks that its functions hold.
use libcando.Base.{
  ℕ, ◌+◌, Bool, true, false, Option, none, some, List, [], ◌∷◌, ◌≡◌, refl, Bool-cases, ◌==◌, inl,
  inr,
}
use libcando.Log.{codes}
use libcando.Sockets.System.{
  Fd, has, Os, pure, ◌>>=◌, ◌>>◌, close_fd, af_vsock, stream, reuse_addr, socket, bind, listen,
  accept, open_vsock, get_local_cid,
}
use libcando.Sockets.Steps.{refuse, note, made}
use libcando.Sockets.Triples.{
  close_dispose-Gone, Triple, Gone, InUse, size_of, closing, closing-head, close_fd-Triple,
  invoke-Triple, open_or-Triple, bind-Triple,
}
use libcando.Sockets.Descriptors.{options_then-Triple, Accepted}
use libcando.Sockets.Endpoint.{
  refuse_gone, Context, Endpoint, Owns, Continues, Given, made-Owns, if_made-Owns,
  with_context-Owns, refuse_closed, each_or-Continues,
}
use libcando.Sockets.VmTcp.{
  VmTcp, CreateInfo, fresh, cleared, destroy, uint32_max, found_cid, ask_cid, vsock_get_local_vcid,
  vcid_of, located, address, set_sock_opts, opened, options_set, open_socket, create_vsock, serve,
  server_create, server_accept, client_create,
}

abbrev pub context : Context VmTcp
context = record { fd_of = λ x. x.fd; heap_of = λ x. x.free }

pub destroy-Gone :
    (x : VmTcp) (before after : List ℕ) (blocks : ℕ)
    → closing x.fd before ≡ after
    → Triple before (size_of x.free + blocks) (destroy x) (Gone after blocks)
unfolding destroy
destroy-Gone x = close_dispose-Gone x.fd x.free cleared

pub vsock_get_local_vcid-InUse :
    (held : List ℕ) (blocks : ℕ)
    → Triple held blocks vsock_get_local_vcid (λ vcid. InUse held blocks)
unfolding vsock_get_local_vcid
vsock_get_local_vcid-InUse held blocks =
    open_or-Triple held blocks (λ vcid. InUse held blocks) open_vsock (pure uint32_max) ask_cid
      (λ os p q. record { held_eq = p; blocks_eq = q })
      (λ n f.
        invoke-Triple (n ∷ held) blocks (λ vcid. InUse held blocks) (get_local_cid (some n))
          (λ a. close_fd (some n) >> pure (found_cid a))
          (λ a.
            close_fd-Triple held blocks (λ vcid. InUse held blocks) (some n) (n ∷ held)
              (pure (found_cid a)) (closing-head n held)
              (λ os p q. record { held_eq = p; blocks_eq = q })))

vcid_of-InUse :
    (held : List ℕ) (blocks : ℕ) (server : Bool) (vcid : ℕ)
    → Triple held blocks (vcid_of server vcid) (λ v. InUse held blocks)
unfolding vcid_of
vcid_of-InUse held blocks false vcid = λ os p q. record { held_eq = p; blocks_eq = q }
vcid_of-InUse held blocks true vcid = elim (Bool-cases (vcid == 1)) [
  | inl t ↦ rw (t) (λ os p q. record { held_eq = p; blocks_eq = q })
  | inr f ↦ rw (f) (vsock_get_local_vcid-InUse held blocks)
]

module _ (held : List ℕ) (blocks : ℕ) where
  address-Continues :
      (server : Bool) (info : CreateInfo) → Continues context held blocks (address server info)
  unfolding address
  address-Continues server info x n e f =
      bind-Triple (n ∷ held) (size_of x.free + blocks)
        (λ vcid. InUse (n ∷ held) (size_of x.free + blocks)) (Owns context held blocks)
        (vcid_of server info.vcid) (λ vcid. pure (made (located info x vcid)))
        (vcid_of-InUse (n ∷ held) (size_of x.free + blocks) server info.vcid)
        (λ vcid os u.
          made-Owns context held blocks (located info x vcid) n e f os u.held_eq u.blocks_eq)

  opened-Owns :
      (server : Bool) (info : CreateInfo) (x : VmTcp) (n : ℕ)
      → has n held ≡ false
      → Triple
          (n ∷ held)
          (size_of x.free + blocks)
          (opened server info x n)
          (Owns context held blocks)
  unfolding opened set_sock_opts options_set
  opened-Owns server info x n f =
      options_then-Triple n held (size_of x.free + blocks) (Owns context held blocks)
        (options_set server (record x { fd = some n }) info)
        (λ e.
          refuse_gone context destroy destroy-Gone held blocks (record x { fd = some n; err = e }) n
            refl f)
        (λ e. address-Continues server info (record x { fd = some n }) n refl f)
        ((reuse_addr, 1) ∷ []) x.err

  open_socket-Owns :
      (server : Bool) (info : CreateInfo) (x : VmTcp)
      → Triple held (size_of x.free + blocks) (open_socket server info x) (Owns context held blocks)
  unfolding open_socket
  open_socket-Owns server info x =
      open_or-Triple held (size_of x.free + blocks) (Owns context held blocks)
        (socket af_vsock stream) (refuse (destroy (record x { fd = none }))) (opened server info x)
        (refuse_closed context destroy destroy-Gone held blocks (record x { fd = none }) refl)
        (opened-Owns server info x)

  create_vsock-Owns :
      (server : Bool) (given : Option VmTcp) (info : CreateInfo)
      → Given context given
      → Triple held blocks (create_vsock given info server) (Owns context held blocks)
  unfolding create_vsock
  create_vsock-Owns server given info =
      with_context-Owns context fresh (open_socket server info) refl held blocks
        (open_socket-Owns server info) given

  pub server_create-Owns :
      (given : Option VmTcp) (info : CreateInfo)
      → Given context given
      → Triple held blocks (server_create given info) (Owns context held blocks)
  unfolding server_create serve
  server_create-Owns given info g =
      if_made-Owns context held blocks held blocks (create_vsock given info true) (serve info)
        (create_vsock-Owns true given info g)
        (each_or-Continues context destroy destroy-Gone held blocks
          (λ x. bind x.fd x.addr ∷ listen x.fd info.connections ∷ []))

  pub client_create-Owns :
      (given : Option VmTcp) (info : CreateInfo)
      → Given context given
      → Triple held blocks (client_create given info) (Owns context held blocks)
  unfolding client_create
  client_create-Owns = create_vsock-Owns false

abbrev pub server : Endpoint VmTcp CreateInfo
unfolding client_create
server = record {
  context = context;
  create = server_create;
  destroy = destroy;
  create-Owns = λ given info held blocks. server_create-Owns held blocks given info;
  destroy-Gone = destroy-Gone;
}

abbrev pub client : Endpoint VmTcp CreateInfo
unfolding client_create
client = record {
  context = context;
  create = client_create;
  destroy = destroy;
  create-Owns = λ given info held blocks. client_create-Owns held blocks given info;
  destroy-Gone = destroy-Gone;
}

pub server_accept-Accepted :
    (x : VmTcp) (os : Os)
    → let r = server_accept (some x) os in Accepted os.held os.blocks r.0.1 r.1
unfolding server_accept Accepted
server_accept-Accepted x os =
    open_or-Triple os.held os.blocks
      (λ (r : Option VmTcp × Fd) (o : Os). Accepted os.held os.blocks r.1 o) (accept x.fd)
      (note x.err (codes "accept: ") >>= λ e. pure (some (record x { err = e }), none))
      (λ n. pure (some x, some n)) (λ o p q. record { held_eq = p; blocks_eq = q })
      (λ n f o p q. (f, record { held_eq = p; blocks_eq = q })) os refl refl
