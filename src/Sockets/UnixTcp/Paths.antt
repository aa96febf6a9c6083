-- ===== src/Sockets/UnixTcp/Paths.antt =====
-- src/usock-tcp.c: whose file udo_usock_tcp_destroy removes.
use mathlib.Core.Path.{subst}
use libcando.Base.{
  ℕ, suc, true, none, some, List, ◌∷◌, take, ◌≡◌, refl, ap, arith, ◌==◌, if◌then◌else◌,
}
use libcando.Sockets.System.{
  close_fd, Fd, calloc, free, socket, af_unix, stream, setsockopt, reuse_addr, bind, close, remove,
  unix_path, Answer, done, failed, Os,
}
use libcando.Sockets.Steps.{Made, made, refused}
use libcando.Sockets.UnixTcp.{
  UnixTcp, fresh, server_create, client_create, create_sock, serve, destroy, open_socket,
}

-- The path that a context was made for, and what a refused one leaves
pub Bears : List ℕ → Made UnixTcp → Type 0
Bears path (made usock) = (usock.sun_path ≡ path) × (usock.free ≡ true)
Bears path (refused left) = left ≡ none

client_create-Bears :
    (path : List ℕ) (connections : ℕ) (os : Os)
    → Bears
        (take 107 path)
        (client_create none
          (some (record { unix_path = some path; connections = connections }))
          os).0
unfolding client_create Bears create_sock open_socket destroy
client_create-Bears path connections os = ground arith

pub client_create-made :
    (path : List ℕ) (connections : ℕ) (value : ℕ → ℕ) (os : Os)
    → (client_create none
        (some (record { unix_path = some path; connections = connections }))
        (record os { answers = λ i. done (value i) })).0
      ≡ made (record fresh { fd = some (os.kernel.pick os.held); sun_path = take 107 path })
unfolding client_create create_sock open_socket
client_create-made path connections value os = refl

removed :
    (path : List ℕ) (later : Os) (fd : Fd) → (close_fd fd later).1.trace ≡ close fd ∷ later.trace
removed path later none = refl
removed path later (some n) = refl

-- A client that was made for the path of a server: when it is destroyed, at whatever time, the
-- server's socket file is removed, of whose path at most 107 bytes count.
pub client-removes :
    (path : List ℕ) (connections : ℕ) (before later : Os) (usock : UnixTcp)
    → (client_create none
        (some (record { unix_path = some path; connections = connections }))
        before).0
      ≡ made usock
    → (destroy usock later).1.trace ≡ free ∷ remove (take 107 path) ∷ close usock.fd ∷ later.trace
unfolding destroy Bears
client-removes path connections before later usock h =
    let b = subst (λ m. Bears (take 107 path) m) h (client_create-Bears path connections before) in
    rw (b.0, b.1) (ap (λ t. free ∷ remove (take 107 path) ∷ t) (removed path later usock.fd))

-- Every call but number `k` succeeds.
abbrev pub fails_at : ℕ → (errno : ℕ) → (ℕ → ℕ) → ℕ → Answer
fails_at k errno value i = if i == k then failed errno else done (suc (value i))

-- bind(2) fails, for one because the path is the one of another server: the server that could
-- not be made removes the file.
pub server_create-bind_failed :
    (path : List ℕ) (connections errno : ℕ) (value : ℕ → ℕ) (os : Os)
    → let fd = os.kernel.pick os.held in
      let r =
        server_create none
          (some (record { unix_path = some path; connections = connections }))
          (record os { answers = fails_at 3 errno value }) in
      (r.0 ≡ refused none)
      × (r.1.trace
          ≡ free
            ∷ remove (take 107 path)
            ∷ close (some fd)
            ∷ bind (some fd) (unix_path (take 107 path))
            ∷ setsockopt (some fd) reuse_addr 1
            ∷ socket af_unix stream
            ∷ calloc
            ∷ os.trace)
unfolding server_create create_sock serve destroy
server_create-bind_failed path connections errno value os = (refl, refl)
