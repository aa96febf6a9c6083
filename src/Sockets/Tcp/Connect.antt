-- ===== src/Sockets/Tcp/Connect.antt =====
-- src/sock-tcp.c: udo_sock_tcp_client_connect, and the error that a caller reads with the functions
-- of src/log.c behind a failure.
use libcando.Base.{
  ℕ, suc, ◌-◌, Option, none, some, List, [], ◌++◌, ◌≡◌, ◌≢◌, refl, ap, arith, take, Outcome, ok,
}
use libcando.Log.{codes, ErrorStruct, buffer_size, err_incorrect_data, get_error_code, set_error}
use libcando.Log.ErrorText.{
  IsText, error_string, read-set_error, read-incorrect_data, IsText-append,
}
use libcando.Sockets.System.{Addr, connect, failed, Os, made_call, minus_one}
use libcando.Sockets.Steps.{connect_to, located}
use libcando.Sockets.Tcp.{Tcp, client_connect}

-- The error of a context, as `udo_log_get_error` of it shows
abbrev pub error_of : Option Tcp → Outcome (List ℕ)
error_of sock = error_string (elim sock [ none ↦ none | some s ↦ some s.err ])

abbrev pub error_code_of : Option Tcp → ℕ
error_code_of sock = get_error_code (elim sock [ none ↦ none | some s ↦ some s.err ])

-- The system behind connect(2) that fails, and the text that is noted then
abbrev pub tried : Tcp → ℕ → Os → Os
tried sock errno os = made_call (connect sock.fd sock.addr) (failed errno) os

abbrev pub reason : ℕ → Os → List ℕ
reason errno os = codes "connect: " ++ os.kernel.strerror errno

abbrev pub failed_at : List ℕ
failed_at = codes "[sock-tcp.c:309] "

abbrev pub cleared_at : List ℕ
cleared_at = codes "[sock-tcp.c:302] "

failed_at-IsText : IsText (failed_at ++ codes "connect: ")
failed_at-IsText = ground arith

cleared_at-IsText : IsText (cleared_at ++ [])
cleared_at-IsText = ground arith

connect_to-failed :
    (n errno : ℕ) (addr : Addr) (err : ErrorStruct) (os : Os)
    → os.answers 0 ≡ failed errno
    → let after = made_call (connect (some (suc n)) addr) (failed errno) os in
      connect_to (some (suc n)) addr err os
      ≡ ((set_error err errno (located after (reason errno os)), minus_one), after)
connect_to-failed n errno addr err os a = ground arith

client_connect-result :
    (sock : Tcp) (n errno : ℕ) (os : Os)
    → sock.fd ≡ some (suc n)
    → os.answers 0 ≡ failed errno
    → client_connect (some sock) os ≡ (
      (
        some (record sock {
          err = set_error sock.err errno (located (tried sock errno os) (reason errno os));
        }),
        minus_one,
      ),
      tried sock errno os,
    )
unfolding client_connect
client_connect-result sock n errno os f a = rw (f) (
    ap (λ r. ((some (record sock { fd = some (suc n); err = r.0.0 }), r.0.1), r.1))
      (connect_to-failed n errno sock.addr sock.err os a))

-- connect(2) fails for a context with a descriptor above 0, with an error number that is not
-- UDO_LOG_ERR_INCORRECT_DATA and whose strerror(3) has no zero byte, and udo_log_set_error puts the
-- file and the line of its use in front: -1 is returned, and the caller reads
-- "[sock-tcp.c:309] connect: " and the reason, cut off after 511 bytes, and the error number as the
-- code.
pub client_connect-failed :
    (sock : Tcp) (n errno : ℕ) (os : Os)
    → sock.fd ≡ some (suc n)
    → os.answers 0 ≡ failed errno
    → errno ≢ err_incorrect_data
    → IsText (os.kernel.strerror errno)
    → os.kernel.place (tried sock errno os).trace (reason errno os) ≡ failed_at
    → let r = client_connect (some sock) os in
      (r.0.1 ≡ minus_one)
      × (error_of r.0.0
          ≡ ok (
              take
                (buffer_size - 1)
                (codes "[sock-tcp.c:309] connect: " ++ os.kernel.strerror errno)))
      × (error_code_of r.0.0 ≡ errno)
client_connect-failed sock n errno os f a ne t at =
    let r =
      read-set_error sock.err errno ((failed_at ++ codes "connect: ") ++ os.kernel.strerror errno)
        ne
        (IsText-append (failed_at ++ codes "connect: ") (os.kernel.strerror errno) failed_at-IsText
          t) in
    rw (client_connect-result sock n errno os f a, at) (refl, r.0, r.1)

-- A context without a descriptor, as `udo_sock_tcp_destroy` leaves it: no call is made, -1 is
-- returned, and the caller reads "[sock-tcp.c:302] Incorrect data passed".
pub client_connect-cleared :
    (sock : Tcp) (os : Os)
    → sock.fd ≡ none
    → os.kernel.place os.trace [] ≡ cleared_at
    → let r = client_connect (some sock) os in
      (r.0.1 ≡ minus_one)
      × (r.1 ≡ os)
      × (error_of r.0.0 ≡ ok (codes "[sock-tcp.c:302] Incorrect data passed"))
unfolding client_connect
client_connect-cleared sock os f at =
    rw (f, at)
      (refl, refl, read-incorrect_data sock.err (cleared_at ++ []) cleared_at-IsText (omega arith))
