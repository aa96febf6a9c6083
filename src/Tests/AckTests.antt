-- ===== src/Tests/AckTests.antt =====
-- The confirmation of datagrams at concrete runs
use libcando.Base.{true, false, none, []}
use libcando.Sockets.Ack.{Network, Link, idle, sending, receiving, confirming}

abbrev lossy : Network
lossy = record { loses = true; interrupts = false }

abbrev quiet : Network
quiet = record { loses = false; interrupts = false }

abbrev wild : Network
wild = record { loses = true; interrupts = true }

abbrev first_sent : Link
first_sent = sending idle

abbrev first_received : Link
first_received = receiving 0 [] first_sent

abbrev first_confirmed : Link
first_confirmed = confirming 0 0 first_received

-- The sender of message 0 was interrupted; its word is on its way back.
abbrev interrupted : Link
interrupted = record first_received { waiting = none }
