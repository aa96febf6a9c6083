-- ===== src/Sockets/Ack/Progress.antt =====
-- What a sender that waits can count on.
use libcando.Base.{ℕ, ◌+◌, some, length, ◌≡◌}
use libcando.Sockets.Ack.{Link}

-- Without losses, something is on its way as long as a sender waits.
Busy : Link → Type 0
Busy l = (m : ℕ) → l.waiting ≡ some m → length l.messages + l.words ≡ 1
