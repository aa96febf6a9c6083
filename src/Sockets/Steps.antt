-- ===== src/Sockets/Steps.antt =====
-- What the functions of the seven socket files of src/ share, given by the calls they make in
-- order: the steps of a create, of connect, accept and destroy, and the transfers.
use libcando.Base.{
  replicate, ℕ, ◌+◌, ◌*◌, ◌/◌, ◌%◌, ◌^◌, Bool, true, false, not, ◌&&◌, Option, none, some, List, [],
  ◌∷◌, ◌++◌, ◌==◌, ltb, if◌then◌else◌,
}
use libcando.Log.{buffer_size, ErrorStruct, codes, set_error, err_incorrect_data}
use libcando.Sockets.System.{
  Os, Fd, Domain, SockOpt, Addr, Call, Reply, Answer, is_again, Io, pure, ◌>>=◌, ◌>>◌, invoke,
  calloc_context, close_fd, release, or_else, open_or, datagram, keep_alive, sender, socket,
  setsockopt, bind, connect, accept, recvfrom, sendto, minus_one, minus_errno, count, done, failed,
}

-- What a `create` returns: a context, or NULL with what is left of the caller's own one.
pub data Made (C : Type 0) : Type 0 where
  made : C → Made C
  refused : Option C → Made C

-- The start of a `create`: a context of calloc(3), unless the caller has one.
abbrev pub with_context : {C : Type 0} → Option C → C → (C → Io (Made C)) → Io (Made C)
with_context none fresh next =
    calloc_context >>= λ ok. elim ok [ true ↦ next fresh | false ↦ pure (refused none) ]
with_context (some c) fresh next = next c

-- `…destroy(sock); return NULL;`
abbrev pub refuse : {C : Type 0} → Io (Option C) → Io (Made C)
refuse destroyed = destroyed >>= λ left. pure (refused left)

-- A later step of a `create`, if the earlier one returned a context
abbrev pub if_made : {C : Type 0} → (C → Io (Made C)) → Made C → Io (Made C)
if_made next (made c) = next c
if_made next (refused left) = pure (refused left)

-- The end of `destroy`: free(3) of a context of calloc(3), zeros with fd = -1 in the caller's own.
abbrev pub dispose {ℓ} : {C : Type ℓ} → Bool → C → Io (Option C)
dispose true blank = release >> pure none
dispose false blank = pure (some blank)

-- The error of a context whose bytes are zero
abbrev pub fresh_error : ErrorStruct
fresh_error = record { code = 0; buffer = replicate buffer_size 0 }

-- What the macro udo_log_set_error makes of a text
abbrev pub located : Os → List ℕ → List ℕ
located os text = os.kernel.place os.trace text ++ text

-- `udo_log_set_error(sock, errno, format, strerror(errno))`
abbrev pub note_as : ErrorStruct → (List ℕ → List ℕ) → Io ErrorStruct
note_as err format os =
    (set_error err os.errno (located os (format (os.kernel.strerror os.errno))), os)

abbrev pub note : ErrorStruct → List ℕ → Io ErrorStruct
note err prefix = note_as err (λ reason. prefix ++ reason)

-- `udo_log_set_error(sock, UDO_LOG_ERR_INCORRECT_DATA, "")`
abbrev pub note_incorrect : ErrorStruct → Io ErrorStruct
note_incorrect err os = (set_error err err_incorrect_data (located os []), os)

-- The error is stored, and the descriptor closed.
abbrev pub give_up : ErrorStruct → (List ℕ → List ℕ) → Fd → Io (ErrorStruct × Fd)
give_up err format fd = note_as err format >>= λ e. close_fd fd >> pure (e, none)

-- setsockopt(2) of each option; the first failure closes the descriptor.
abbrev pub set_options : Fd → List (SockOpt × ℕ) → ErrorStruct → Io (ErrorStruct × Fd)
set_options fd [] err = pure (err, fd)
set_options fd (o ∷ options) err =
    or_else (setsockopt fd o.0 o.1) (give_up err (λ reason. codes "setsockopt: " ++ reason) fd)
      (set_options fd options err)

-- A datagram socket with its options; -1 is closed when socket(2) fails.
abbrev pub datagram_fd :
    Domain → List (SockOpt × ℕ) → (List ℕ → List ℕ) → ErrorStruct → Io (ErrorStruct × Fd)
datagram_fd domain options format err =
    open_or (socket domain datagram) (give_up err format none)
      (λ n. set_options (some n) options err)

-- `sock->fd <= 0` fails
abbrev pub is_positive : Fd → Bool
is_positive none = false
is_positive (some n) = ltb 0 n

-- The body of the `client_connect` of a context that is not NULL
abbrev pub connect_to : Fd → Addr → ErrorStruct → Io (ErrorStruct × Reply)
connect_to fd addr err =
    if is_positive fd
    then or_else (connect fd addr) (note err (codes "connect: ") >>= λ e. pure (e, minus_one))
        (pure (err, count 0))
    else note_incorrect err >>= λ e. pure (e, minus_one)

-- SO_KEEPALIVE of the descriptor of a client
abbrev pub keep_client : ErrorStruct → ℕ → Io (ErrorStruct × Fd)
keep_client err n =
    or_else (setsockopt (some n) keep_alive 1)
      (give_up err (λ reason. codes "accept: " ++ reason) (some n)) (pure (err, some n))

-- accept(2) and then SO_KEEPALIVE, of a server that is not NULL
abbrev pub accept_alive : Fd → ErrorStruct → Io (ErrorStruct × Fd)
accept_alive fd err =
    open_or (accept fd) (note err (codes "accept: ") >>= λ e. pure (e, none)) (keep_client err)

-- bind(2) and connect(2) of a descriptor for one client; a failure closes it.
abbrev pub bind_to_client : Fd → (own client : Addr) → ErrorStruct → Io (ErrorStruct × Fd)
bind_to_client fd own client err =
    or_else (bind fd own) (give_up err (λ reason. codes "bind: " ++ reason) fd) (
      or_else (connect fd client) (give_up err (λ reason. codes "connect: " ++ reason) fd)
        (pure (err, fd)))

-- The body of the `accept` of a datagram server: the new descriptor, if there is one, is bound to
-- the address of the server and connected to the client's.
abbrev pub accept_from : (own client : Addr) → ErrorStruct × Fd → Io (ErrorStruct × Fd)
accept_from own client (err, none) = pure (err, none)
accept_from own client (err, some n) = bind_to_client (some n) own client err

-- The byte order of a 16-bit number is reversed: htons(3) and ntohs(3) of a little-endian machine.
unfoldable pub htons : ℕ → ℕ
htons port = port / 2 ^ 8 % 2 ^ 8 + port % 2 ^ 8 * 2 ^ 8

-- A string of a context, NULL if it is empty
abbrev pub text_of : List ℕ → Option (List ℕ)
text_of [] = none
text_of (c ∷ s) = if c == 0 then none else some (c ∷ s)

-- The tests that recv_data and send_data start with: a descriptor, data that is not NULL, a size
abbrev pub is_transfer : Fd → (has_data : Bool) → (size : ℕ) → Bool
is_transfer none has_data size = false
is_transfer (some n) has_data size = has_data && not (size == 0)

-- Behind a transfer: EINTR or EAGAIN in errno is answered whatever the call returned.
abbrev pub after : Answer → Io Reply → Io Reply
after (done n) next os = if is_again os.errno then (minus_errno os.errno, os) else next os
after (failed e) next os = if is_again os.errno then (minus_errno os.errno, os) else (minus_one, os)

-- The number of bytes that a call returned
abbrev pub value : Answer → ℕ
value (done n) = n
value (failed e) = 0

-- One transfer: its number of bytes is the result.
abbrev pub transfer : Call → Io Reply
transfer call = invoke call >>= λ a. after a (pure (count (value a)))

-- `VERIFIER`
abbrev pub verifier : ℕ
verifier = 0xFA4C62B5

-- recvfrom(2) of the data, and then the receiver sends VERIFIER back.
abbrev pub receive_acked : Fd → (size flags : ℕ) → Io Reply
receive_acked fd size flags = invoke (recvfrom fd size flags) >>= λ a.
    after a (invoke (sendto fd 4 flags sender verifier) >>= λ b. after b (pure (count (value a))))

-- `received_data` against VERIFIER
abbrev pub verified : ℕ → Io Reply
verified bytes os =
    if os.kernel.received os.trace == verifier then (count bytes, os) else (minus_one, os)

-- sendto(2) of the data, and then recvfrom(2) of the word that the receiver sends back.
abbrev pub send_acked : Fd → (size flags : ℕ) → Addr → (message : ℕ) → Io Reply
send_acked fd size flags addr message = invoke (sendto fd size flags addr message) >>= λ a.
    after a (invoke (recvfrom fd 4 flags) >>= λ b. after b (verified (value a)))
