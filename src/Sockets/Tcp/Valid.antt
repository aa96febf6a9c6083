-- ===== src/Sockets/Tcp/Valid.antt =====
-- src/sock-tcp.c: what holds for a context between its creation and its destruction.
use libcando.Base.{
  ◌≤◌, true, none, some, [], ◌∷◌, ◌++◌, ◌≡◌, refl, length, is_some, Bool-cases, inl, inr,
}
use libcando.Log.{ErrorStruct, buffer_size, codes, err_incorrect_data}
use libcando.Log.ErrorText.{length-set_error}
use libcando.Sockets.System.{
  connect, accept, setsockopt, keep_alive, count, minus_one, Fd, Addr, inet_addr, Os, pure, ◌>>=◌,
  Reply,
}
use libcando.Sockets.Steps.{
  located, note, is_positive, keep_client, give_up, htons, connect_to, accept_alive,
}
use libcando.Sockets.Results.{Yields, each_or-Yields, open_or-Yields}
use libcando.Sockets.Tcp.{Tcp, client_connect, server_accept}

-- The error's buffer has its 512 bytes.
abbrev pub HasBuffer : Tcp → Type 0
HasBuffer sock = length sock.err.buffer ≡ buffer_size

-- There is a descriptor; the text of the address and its zero fit 46 bytes; the address in numbers is
-- that of the text, with the port in network order.
pub record IsValid (sock : Tcp) : Type 0 where
  pub has_fd : is_some sock.fd ≡ true
  pub fits : length sock.ip_addr ≤ 45
  pub agrees : sock.addr ≡ inet_addr sock.ip_addr (htons sock.port)
  pub buffer : HasBuffer sock

-- The error that is returned has its buffer.
abbrev Keeps : {A : Type 0} → ErrorStruct × A → Type 0
Keeps r = length r.0.buffer ≡ buffer_size

connect_to-Keeps :
    (fd : Fd) (addr : Addr) (err : ErrorStruct)
    → length err.buffer ≡ buffer_size
    → Yields (Keeps {A = Reply}) (connect_to fd addr err)
connect_to-Keeps fd addr err b = elim (Bool-cases (is_positive fd)) [
  | inl t ↦ rw (t) (
      each_or-Yields (Keeps {A = Reply}) (connect fd addr ∷ [])
        (note err (codes "connect: ") >>= λ e. pure (e, minus_one)) (pure (err, count 0))
        (λ os.
          length-set_error err os.errno
            (located os (codes "connect: " ++ os.kernel.strerror os.errno)) b)
        (λ os. b))
  | inr f ↦ rw (f) (λ (os : Os). length-set_error err err_incorrect_data (located os []) b)
]

accept_alive-Keeps :
    (fd : Fd) (err : ErrorStruct)
    → length err.buffer ≡ buffer_size
    → Yields (Keeps {A = Fd}) (accept_alive fd err)
accept_alive-Keeps fd err b =
    let failing = λ (os : Os).
      length-set_error err os.errno (located os (codes "accept: " ++ os.kernel.strerror os.errno))
        b in
    open_or-Yields (Keeps {A = Fd}) (accept fd)
      (note err (codes "accept: ") >>= λ e. pure (e, none)) (keep_client err) failing
      (λ n.
        each_or-Yields (Keeps {A = Fd}) (setsockopt (some n) keep_alive 1 ∷ [])
          (give_up err (λ reason. codes "accept: " ++ reason) (some n)) (pure (err, some n)) failing
          (λ os. b))

with_error :
    (sock : Tcp)
    → IsValid sock
    → (err : ErrorStruct) → length err.buffer ≡ buffer_size
    → IsValid (record sock { err = err })
with_error sock v err b = record { has_fd = v.has_fd; fits = v.fits; agrees = v.agrees; buffer = b }

-- A valid context, whatever the system answers: `udo_sock_tcp_client_connect` and
-- `udo_sock_tcp_server_accept` leave it valid, and change nothing of it but the error.
pub use-IsValid :
    (sock : Tcp) (os : Os)
    → IsValid sock
    → ((err : ErrorStruct) × ((client_connect (some sock) os).0.0
          ≡ some (record sock { err = err }))
        × IsValid (record sock { err = err }))
      × ((err : ErrorStruct) × ((server_accept (some sock) os).0.0
            ≡ some (record sock { err = err }))
          × IsValid (record sock { err = err }))
unfolding client_connect server_accept
use-IsValid sock os v = (
  (
    (connect_to sock.fd sock.addr sock.err os).0.0,
    refl,
    with_error sock v (connect_to sock.fd sock.addr sock.err os).0.0
        (connect_to-Keeps sock.fd sock.addr sock.err v.buffer os),
  ),
  (
    (accept_alive sock.fd sock.err os).0.0,
    refl,
    with_error sock v (accept_alive sock.fd sock.err os).0.0
        (accept_alive-Keeps sock.fd sock.err v.buffer os),
  ),
)
