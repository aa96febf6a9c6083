-- ===== src/Sockets/Can/Frames.antt =====
-- src/csock-raw.c: what udo_csock_raw_send_data and udo_csock_raw_recv_data answer.
use libcando.Base.{ℕ, true, Option, none, some, List, ◌≡◌, ◌≢◌, refl, arith, ap, Outcome, ok, take}
use libcando.Log.{codes, set_error, err_uncommon, get_error_code}
use libcando.Log.ErrorText.{error_string, read-set_error, IsText, IsText-append}
use libcando.Sockets.Steps.{located}
use libcando.Sockets.System.{Call, send, recv, Answer, done, failed, Os, minus_one, made_call}
use libcando.Sockets.Can.{Can, frame_size, send_data, recv_data, move_frame, frame_moved}

-- The text of a context's error, and its code
abbrev pub error_of : Option Can → Outcome (List ℕ)
error_of csock = error_string (elim csock [ none ↦ none | some c ↦ some c.err ])

abbrev pub error_code_of : Option Can → ℕ
error_code_of csock = get_error_code (elim csock [ none ↦ none | some c ↦ some c.err ])

-- Anything but a whole frame
abbrev pub IsPartial : Answer → Type 0
IsPartial (done n) = n ≢ frame_size
IsPartial (failed e) = Unit {0}

-- The system behind a call that answers as it will
abbrev pub tried : Call → Os → Os
tried call os = made_call call (os.answers 0) os

frame_moved-partial :
    (csock : Can) (text : List ℕ) (a : Answer) (os : Os)
    → IsPartial a
    → frame_moved csock text a os
      ≡ ((record csock { err = set_error csock.err err_uncommon (located os text) }, minus_one), os)
unfolding frame_moved
frame_moved-partial csock text (done n) os h = ground arith
frame_moved-partial csock text (failed e) os h = refl

send_data-result :
    (csock : Can) (n flags : ℕ) (os : Os)
    → csock.fd ≡ some n
    → IsPartial (os.answers 0)
    → send_data (some csock) true flags os ≡ (
      (
        some (record csock {
          err = set_error csock.err err_uncommon (
              located
                (tried (send csock.fd frame_size flags) os)
                (codes "send: incomplete CAN frame"));
        }),
        minus_one,
      ),
      tried (send csock.fd frame_size flags) os,
    )
unfolding send_data move_frame
send_data-result csock n flags os f h = rw (f) (
    ap (λ r. ((some r.0.0, r.0.1), r.1))
      (frame_moved-partial (record csock { fd = some n }) (codes "send: incomplete CAN frame")
        (os.answers 0) (made_call (send (some n) frame_size flags) (os.answers 0) os) h))

recv_data-result :
    (csock : Can) (n flags : ℕ) (os : Os)
    → csock.fd ≡ some n
    → IsPartial (os.answers 0)
    → recv_data (some csock) true flags os ≡ (
      (
        some (record csock {
          err = set_error csock.err err_uncommon (
              located
                (tried (recv csock.fd frame_size flags) os)
                (codes "recv: incomplete CAN frame"));
        }),
        minus_one,
      ),
      tried (recv csock.fd frame_size flags) os,
    )
unfolding recv_data move_frame
recv_data-result csock n flags os f h = rw (f) (
    ap (λ r. ((some r.0.0, r.0.1), r.1))
      (frame_moved-partial (record csock { fd = some n }) (codes "recv: incomplete CAN frame")
        (os.answers 0) (made_call (recv (some n) frame_size flags) (os.answers 0) os) h))

-- The texts of a frame that is not whole
abbrev pub send_text : List ℕ
send_text = codes "send: incomplete CAN frame"

abbrev pub recv_text : List ℕ
recv_text = codes "recv: incomplete CAN frame"

kernel-tried : (call : Call) (os : Os) → (tried call os).kernel ≡ os.kernel
kernel-tried call os = elim (os.answers 0) as (λ a. (made_call call a os).kernel ≡ os.kernel) [
  | done n ↦ refl
  | failed e ↦ refl
]

located-IsText :
    (os : Os) (text : List ℕ)
    → ((calls : List Call) (t : List ℕ) → IsText (os.kernel.place calls t))
    → IsText text
    → IsText (located os text)
located-IsText os text at h =
    IsText-append (os.kernel.place os.trace text) text (at os.trace text) h

-- A context with a descriptor and a frame, where send(2) or recv(2) fails, with EINTR or EAGAIN too,
-- or moves other than 16 bytes, and the file and the line that udo_log_set_error puts in front have
-- no zero byte: -1 is returned and never -EINTR or -EAGAIN, the error reads the file, the line and
-- "… incomplete CAN frame", cut off after 511 bytes, and its code is UDO_LOG_ERR_UNCOMMON.
pub move-partial :
    (csock : Can) (n flags : ℕ) (os : Os)
    → csock.fd ≡ some n
    → IsPartial (os.answers 0)
    → ((calls : List Call) (t : List ℕ) → IsText (os.kernel.place calls t))
    → (let r = send_data (some csock) true flags os in
        (r.0.1 ≡ minus_one)
        × (error_of r.0.0 ≡ ok (take 511 (located r.1 send_text)))
        × (error_code_of r.0.0 ≡ err_uncommon))
      × (let r = recv_data (some csock) true flags os in
          (r.0.1 ≡ minus_one)
          × (error_of r.0.0 ≡ ok (take 511 (located r.1 recv_text)))
          × (error_code_of r.0.0 ≡ err_uncommon))
move-partial csock n flags os f h at =
    let after_send = tried (send csock.fd frame_size flags) os in
    let after_recv = tried (recv csock.fd frame_size flags) os in
    let sent = read-set_error csock.err err_uncommon (located after_send send_text) (ground arith) (
      located-IsText after_send send_text (rw (kernel-tried (send csock.fd frame_size flags) os) at)
        (ground arith)) in
    let got = read-set_error csock.err err_uncommon (located after_recv recv_text) (ground arith) (
      located-IsText after_recv recv_text (rw (kernel-tried (recv csock.fd frame_size flags) os) at)
        (ground arith)) in
    rw (send_data-result csock n flags os f h, recv_data-result csock n flags os f h)
      ((refl, sent.0, sent.1), (refl, got.0, got.1))
