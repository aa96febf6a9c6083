-- ===== src/Sockets/Ack.antt =====
-- The confirmation of datagrams in src/sock-udp.c, usock-udp.c and vsock-udp.c: udo_…_send_data sends
-- a message and waits for the word VERIFIER, which udo_…_recv_data sends back for each message. One
-- sender and one receiver, with what is on its way between them; the word does not say which
-- message it confirms.
pub mod Confirmed
pub mod Progress
use libcando.Base.{
  ℕ, zero, suc, ◌+◌, ◌-◌, Bool, true, Option, none, some, List, [], ◌∷◌, ◌++◌, ◌≡◌, refl,
}

-- Whether the network loses datagrams, and whether a sender that waits may be sent away by a
-- recvfrom(2) that fails, with EINTR, EAGAIN or any other error. No datagram comes twice.
pub record Network : Type 0 where
  pub loses : Bool
  pub interrupts : Bool

-- Messages are numbered in the order in which they are sent.
pub record Link : Type 0 where
  pub sent : ℕ
  pub waiting : Option ℕ  -- the message whose sender is in recvfrom(2)
  pub messages : List ℕ  -- on the way to the receiver
  pub words : ℕ  -- VERIFIERs on the way back
  pub received : List ℕ  -- what udo_…_recv_data has returned with its size
  pub confirmed : List ℕ  -- what udo_…_send_data has returned with its size

abbrev pub idle : Link
idle = record { sent = 0; waiting = none; messages = []; words = 0; received = []; confirmed = [] }

-- sendto(2) of udo_…_send_data
abbrev pub sending : Link → Link
sending l = record l {
  sent = suc l.sent;
  waiting = some l.sent;
  messages = l.messages ++ (l.sent ∷ []);
}

-- recvfrom(2) and sendto(2) of udo_…_recv_data
abbrev pub receiving : (message : ℕ) → (rest : List ℕ) → Link → Link
receiving message rest l = record l {
  messages = rest;
  words = suc l.words;
  received = message ∷ l.received;
}

-- recvfrom(2) of udo_…_send_data, which finds VERIFIER
abbrev pub confirming : (message : ℕ) → (rest : ℕ) → Link → Link
confirming message rest l = record l {
  waiting = none;
  words = rest;
  confirmed = message ∷ l.confirmed;
}

pub data Step (n : Network) : Link → Link → Type 0 where
  send : {l : Link} → l.waiting ≡ none → Step n l (sending l)
  receive :
      {l : Link} (m : ℕ) (rest : List ℕ) → l.messages ≡ m ∷ rest → Step n l (receiving m rest l)
  confirm :
      {l : Link} (m rest : ℕ)
      → l.waiting ≡ some m
      → l.words ≡ suc rest
      → Step n l (confirming m rest l)
  lose_message :
      {l : Link} (m : ℕ) (rest : List ℕ)
      → n.loses ≡ true
      → l.messages ≡ m ∷ rest
      → Step n l (record l { messages = rest })
  lose_word :
      {l : Link} (rest : ℕ)
      → n.loses ≡ true
      → l.words ≡ suc rest
      → Step n l (record l { words = rest })
  -- recvfrom(2) of udo_…_send_data fails, and -EINTR, -EAGAIN or -1 is returned.
  interrupt :
      {l : Link} (m : ℕ)
      → n.interrupts ≡ true
      → l.waiting ≡ some m
      → Step n l (record l { waiting = none })

pub data Steps (n : Network) : Link → Link → Type 0 where
  stop : {l : Link} → Steps n l l
  go : {l m k : Link} → Steps n l m → Step n m k → Steps n l k
