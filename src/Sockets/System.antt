-- ===== src/Sockets/System.antt =====
-- The calls of the operating system that the seven socket files of src/ make. The system is a
-- parameter: its answers, the descriptors it gives out and the texts of strerror(3). Of its own
-- state the model keeps errno, the descriptors and the blocks of the program that are in use, and
-- the calls made. Messages that are only printed (`udo_log_error`, `udo_log_info`,
-- `udo_log_success`) are left out.
use libcando.Base.{
  ℕ, suc, ◌-◌, Bool, true, false, ◌||◌, Option, none, some, List, [], ◌∷◌, ◌≡◌, refl, arith, ◌==◌,
  if◌then◌else◌,
}

-- A descriptor; -1 is none.
abbrev pub Fd : Type 0
Fd = Option ℕ

pub data Domain : Type 0 where
  af_inet6 af_unix af_vsock af_can : Domain

pub data Kind : Type 0 where
  stream datagram raw : Kind

pub data SockOpt : Type 0 where
  reuse_addr reuse_port v6_only keep_alive keep_count keep_idle keep_interval : SockOpt

-- A socket address: all zero, an IPv6 address in text and a port in network order, the path of a
-- UNIX socket, a port and a machine, the index of a CAN interface, or the one that recvfrom(2)
-- wrote last.
pub data Addr : Type 0 where
  zeros sender : Addr
  inet_addr : (ip : List ℕ) (port : ℕ) → Addr
  unix_path : List ℕ → Addr
  vm_addr : (port cid : ℕ) → Addr
  can_addr : (index : ℕ) → Addr

pub data Call : Type 0 where
  calloc free : Call
  socket : Domain → Kind → Call
  setsockopt : Fd → SockOpt → (value : ℕ) → Call
  inet_pton : (ip : List ℕ) → Call
  bind connect : Fd → Addr → Call
  listen : Fd → (backlog : ℕ) → Call
  accept close : Fd → Call
  remove : (path : List ℕ) → Call
  recv send recvfrom : Fd → (size flags : ℕ) → Call
  sendto : Fd → (size flags : ℕ) → Addr → (message : ℕ) → Call
  open_vsock : Call
  get_local_cid : Fd → Call
  get_if_index : Fd → (name : List ℕ) → Call

-- What a transfer returns: -1, -errno or a number of bytes.
pub data Reply : Type 0 where
  minus_one : Reply
  minus_errno : ℕ → Reply
  count : ℕ → Reply

-- What a call answers: a value, or -1 (NULL for calloc(3)) and an error number.
pub data Answer : Type 0 where
  done : (value : ℕ) → Answer
  failed : (errno : ℕ) → Answer

-- Whether a descriptor is in use
abbrev pub has : ℕ → List ℕ → Bool
has n [] = false
has n (m ∷ held) = if n == m then true else has n held

-- close(2): the descriptor is free again.
abbrev pub without : ℕ → List ℕ → List ℕ
without n [] = []
without n (m ∷ held) = if n == m then held else m ∷ without n held

pub without-absent : (n : ℕ) (held : List ℕ) → has n held ≡ false → without n held ≡ held
without-absent n [] h = refl
without-absent n (m ∷ held) h = ground (arith, without-absent n held)

-- The descriptor that the system picks is not in use: socket(2), accept(2), open(2). `received` is
-- the word that recvfrom(2) of four bytes leaves, given the calls before it. `place` is what the macro
-- udo_log_set_error puts in front of a text, "[", the name of the source file, ":", the line and "] ";
-- the calls before it and the text tell the uses of the macro apart.
pub record Kernel : Type 0 where
  pub pick : (held : List ℕ) → ℕ
  pub pick-IsFree : (held : List ℕ) → has (pick held) held ≡ false
  pub strerror : ℕ → List ℕ
  pub received : List Call → ℕ
  pub place : List Call → (text : List ℕ) → List ℕ

pub picked-IsFree : (k : Kernel) (held : List ℕ) → without (k.pick held) held ≡ held
picked-IsFree k held = without-absent (k.pick held) held (k.pick-IsFree held)

-- The system: answers to come, errno, descriptors in use, blocks of calloc(3), calls so far (the
-- last one first).
pub record Os : Type 0 where
  pub kernel : Kernel
  pub answers : ℕ → Answer
  pub errno : ℕ
  pub held : List ℕ
  pub blocks : ℕ
  pub trace : List Call

abbrev pub ebadf : ℕ
ebadf = 9

-- EINTR or EAGAIN
abbrev pub is_again : ℕ → Bool
is_again e = e == 4 || e == 11

abbrev pub Io {ℓ} : Type ℓ → Type ℓ
Io A = Os → A × Os

abbrev pub pure {ℓ} : {A : Type ℓ} → A → Io A
pure a os = (a, os)

infixl 5 ◌>>=◌ ◌>>◌
abbrev pub ◌>>=◌ {ℓ κ} : {A : Type ℓ} {B : Type κ} → Io A → (A → Io B) → Io B
◌>>=◌ m f os = let r = m os in f r.0 r.1

abbrev pub ◌>>◌ {ℓ} : {B : Type ℓ} → Io (Unit {0}) → Io B → Io B
m >> k = m >>= λ _. k

-- A call is made and answered; a failed one sets errno.
abbrev pub made_call : Call → Answer → Os → Os
made_call call (done v) os = record os {
  answers = λ i. os.answers (suc i);
  trace = call ∷ os.trace;
}
made_call call (failed e) os = record os {
  answers = λ i. os.answers (suc i);
  errno = e;
  trace = call ∷ os.trace;
}

abbrev pub invoke : Call → Io Answer
invoke call os = (os.answers 0, made_call call (os.answers 0) os)

-- calloc(3): a block more, if it succeeds
abbrev pub count_block : Answer → Os → Bool × Os
count_block (done v) os = (true, record os { blocks = suc os.blocks })
count_block (failed e) os = (false, os)

abbrev pub calloc_context : Io Bool
calloc_context = invoke calloc >>= count_block

-- A call that opens a descriptor: the one that the system picks
abbrev pub give_fd : Answer → Os → Fd × Os
give_fd (done v) os =
    (some (os.kernel.pick os.held), record os { held = os.kernel.pick os.held ∷ os.held })
give_fd (failed e) os = (none, os)

abbrev pub open_fd : Call → Io Fd
open_fd call = invoke call >>= give_fd

-- close(2), whose result the code does not look at
abbrev pub close_fd : Fd → Os → Unit {0} × Os
close_fd none os = (tt, record os { errno = ebadf; trace = close none ∷ os.trace })
close_fd (some n) os = (
  tt,
  record os {
    held = without n os.held;
    errno = if has n os.held then os.errno else ebadf;
    trace = close (some n) ∷ os.trace;
  },
)

-- remove(3), whose result the code does not look at
abbrev pub remove_file : List ℕ → Os → Unit {0} × Os
remove_file path os = (tt, record os { trace = remove path ∷ os.trace })

-- free(3)
abbrev pub release : Os → Unit {0} × Os
release os = (tt, record os { blocks = os.blocks - 1; trace = free ∷ os.trace })

-- `err = call; if (err == -1) { on_failure } next`
abbrev pub or_else {ℓ} : {A : Type ℓ} → Call → Io A → Io A → Io A
or_else call on_failure next = invoke call >>= λ a. elim a [ done v ↦ next | failed e ↦ on_failure ]

-- The same for several calls, until one fails
abbrev pub each_or {ℓ} : {A : Type ℓ} → List Call → Io A → Io A → Io A
each_or [] on_failure next = next
each_or (call ∷ calls) on_failure next = or_else call on_failure (each_or calls on_failure next)

-- The same for a call that opens a descriptor
abbrev pub open_or {ℓ} : {A : Type ℓ} → Call → Io A → (ℕ → Io A) → Io A
open_or call on_failure next =
    open_fd call >>= λ fd. elim fd [ some n ↦ next n | none ↦ on_failure ]
