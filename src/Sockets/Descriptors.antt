-- ===== src/Sockets/Descriptors.antt =====
-- Whose descriptor is in use behind the steps that the socket files of src/ share: options, datagram
-- sockets, and the descriptor of one client.
use libcando.Base.{ℕ, false, none, some, List, [], ◌∷◌, ◌++◌, ◌≡◌, refl, ap, ◌∙◌, arith}
use libcando.Log.{ErrorStruct, codes}
use libcando.Sockets.System.{
  Fd, Domain, SockOpt, setsockopt, Addr, bind, connect, accept, keep_alive, Os, Io, pure, ◌>>=◌,
  or_else, has, without, datagram, socket,
}
use libcando.Sockets.Steps.{
  give_up, set_options, datagram_fd, note, keep_client, accept_alive, accept_from, bind_to_client,
}
use libcando.Sockets.Triples.{
  Triple, InUse, closing-head, or_else-Triple, open_or-Triple, bind-Triple,
}

-- What is left of a function that may close the descriptor that it is given: that, or none.
unfoldable pub Kept : ℕ → List ℕ → ℕ → ErrorStruct × Fd → Os → Type 0
Kept n held blocks (err, none) os = InUse held blocks os
Kept n held blocks (err, some m) os = (m ≡ n) × InUse (n ∷ held) blocks os

module _ (n : ℕ) (held : List ℕ) (blocks : ℕ) where
  pub give_up-Triple :
      (err : ErrorStruct) (format : List ℕ → List ℕ)
      → Triple (n ∷ held) blocks (give_up err format (some n)) (Kept n held blocks)
  unfolding Kept
  give_up-Triple err format os p q = record {
    held_eq = ap (without n) p ∙ ground arith;
    blocks_eq = q;
  }

  pub set_options-Triple :
      (options : List (SockOpt × ℕ)) (err : ErrorStruct)
      → Triple (n ∷ held) blocks (set_options (some n) options err) (Kept n held blocks)
  unfolding Kept
  set_options-Triple [] err = λ os p q. (refl, record { held_eq = p; blocks_eq = q })
  set_options-Triple (o ∷ options) err =
      or_else-Triple (n ∷ held) blocks (Kept n held blocks) (setsockopt (some n) o.0 o.1)
        (give_up err (λ reason. codes "setsockopt: " ++ reason) (some n))
        (set_options (some n) options err)
        (give_up-Triple err (λ reason. codes "setsockopt: " ++ reason))
        (set_options-Triple options err)

-- What follows the options, with the descriptor still open or closed by a failure
module _ {B : Type 0} (n : ℕ) (held : List ℕ) (blocks : ℕ) (post : B → Os → Type 0)
    (after : ErrorStruct × Fd → Io B)
    (closed : (e : ErrorStruct) → Triple held blocks (after (e, none)) post)
    (opened : (e : ErrorStruct) → Triple (n ∷ held) blocks (after (e, some n)) post) where
  after_options :
      (r : ErrorStruct × Fd) (os : Os)
      → Kept n held blocks r os
      → let m = after r os in post m.0 m.1
  unfolding Kept
  after_options (e, none) os u = closed e os u.held_eq u.blocks_eq
  after_options (e, some m) os (k, u) = rw (k) (opened e os u.held_eq u.blocks_eq)

  pub options_then-Triple :
      (options : List (SockOpt × ℕ)) (err : ErrorStruct)
      → Triple (n ∷ held) blocks (set_options (some n) options err >>= after) post
  options_then-Triple options err =
      bind-Triple (n ∷ held) blocks (Kept n held blocks) post (set_options (some n) options err)
        after (set_options-Triple n held blocks options err) after_options

-- What is left of a function that opens a descriptor: one that was not in use, or none.
unfoldable pub Accepted : List ℕ → ℕ → Fd → Os → Type 0
Accepted held blocks none os = InUse held blocks os
Accepted held blocks (some n) os = (has n held ≡ false) × InUse (n ∷ held) blocks os

abbrev pub Opened : List ℕ → ℕ → ErrorStruct × Fd → Os → Type 0
Opened held blocks r os = Accepted held blocks r.1 os

Kept-Opened :
    (n : ℕ) (held : List ℕ) (blocks : ℕ) (r : ErrorStruct × Fd) (os : Os)
    → has n held ≡ false
    → Kept n held blocks r os
    → Opened held blocks r os
unfolding Kept Accepted
Kept-Opened n held blocks (err, none) os f k = k
Kept-Opened n held blocks (err, some m) os f k = (ap (λ i. has i held) k.0 ∙ f, rw (k.0) k.1)

module _ (held : List ℕ) (blocks : ℕ) where
  pub set_options-Opened :
      (n : ℕ) (options : List (SockOpt × ℕ)) (err : ErrorStruct)
      → has n held ≡ false
      → Triple (n ∷ held) blocks (set_options (some n) options err) (Opened held blocks)
  set_options-Opened n options err f os p q =
      let r = set_options (some n) options err os in
      Kept-Opened n held blocks r.0 r.1 f (set_options-Triple n held blocks options err os p q)

  give_up-none :
      (err : ErrorStruct) (format : List ℕ → List ℕ)
      → Triple held blocks (give_up err format none) (Opened held blocks)
  unfolding Accepted
  give_up-none err format os p q = record { held_eq = p; blocks_eq = q }

  pub datagram_fd-Triple :
      (domain : Domain) (options : List (SockOpt × ℕ)) (format : List ℕ → List ℕ)
      (err : ErrorStruct)
      → Triple held blocks (datagram_fd domain options format err) (Opened held blocks)
  datagram_fd-Triple domain options format err =
      open_or-Triple held blocks (Opened held blocks) (socket domain datagram)
        (give_up err format none) (λ n. set_options (some n) options err) (give_up-none err format)
        (λ n f. set_options-Opened n options err f)

  give_up-Opened :
      (n : ℕ) (err : ErrorStruct) (format : List ℕ → List ℕ)
      → Triple (n ∷ held) blocks (give_up err format (some n)) (Opened held blocks)
  unfolding Accepted
  give_up-Opened n err format os p q = record {
    held_eq = ap (without n) p ∙ closing-head n held;
    blocks_eq = q;
  }

  -- A descriptor of its own for one client: a failure closes it.
  pub bind_to_client-Opened :
      (n : ℕ) (own client : Addr) (err : ErrorStruct)
      → has n held ≡ false
      → Triple (n ∷ held) blocks (bind_to_client (some n) own client err) (Opened held blocks)
  unfolding Accepted
  bind_to_client-Opened n own client err f =
      let connected =
        or_else (connect (some n) client)
          (give_up err (λ reason. codes "connect: " ++ reason) (some n)) (pure (err, some n)) in
      or_else-Triple (n ∷ held) blocks (Opened held blocks) (bind (some n) own)
        (give_up err (λ reason. codes "bind: " ++ reason) (some n)) connected
        (give_up-Opened n err (λ reason. codes "bind: " ++ reason))
        (or_else-Triple (n ∷ held) blocks (Opened held blocks) (connect (some n) client)
          (give_up err (λ reason. codes "connect: " ++ reason) (some n)) (pure (err, some n))
          (give_up-Opened n err (λ reason. codes "connect: " ++ reason))
          (λ os p q. (f, record { held_eq = p; blocks_eq = q })))

  accept_from-Opened :
      (own client : Addr) (r : ErrorStruct × Fd) (os : Os)
      → Opened held blocks r os
      → let m = accept_from own client r os in Opened held blocks m.0 m.1
  unfolding Accepted
  accept_from-Opened own client (err, none) os u = u
  accept_from-Opened own client (err, some n) os (f, u) =
      bind_to_client-Opened n own client err f os u.held_eq u.blocks_eq

  pub accept-Opened :
      (own client : Addr) (first : Io (ErrorStruct × Fd))
      → Triple held blocks first (Opened held blocks)
      → Triple held blocks (first >>= accept_from own client) (Opened held blocks)
  accept-Opened own client first h =
      bind-Triple held blocks (Opened held blocks) (Opened held blocks) first
        (accept_from own client) h (accept_from-Opened own client)

  keep_client-Opened :
      (err : ErrorStruct) (n : ℕ)
      → has n held ≡ false
      → Triple (n ∷ held) blocks (keep_client err n) (Opened held blocks)
  unfolding Accepted
  keep_client-Opened err n f =
      or_else-Triple (n ∷ held) blocks (Opened held blocks) (setsockopt (some n) keep_alive 1)
        (give_up err (λ reason. codes "accept: " ++ reason) (some n)) (pure (err, some n))
        (give_up-Opened n err (λ reason. codes "accept: " ++ reason))
        (λ os p q. (f, record { held_eq = p; blocks_eq = q }))

  -- accept(2) and SO_KEEPALIVE: a failure of the option closes the descriptor of the client.
  pub accept_alive-Opened :
      (fd : Fd) (err : ErrorStruct) → Triple held blocks (accept_alive fd err) (Opened held blocks)
  unfolding Accepted
  accept_alive-Opened fd err =
      open_or-Triple held blocks (Opened held blocks) (accept fd)
        (note err (codes "accept: ") >>= λ e. pure (e, none)) (keep_client err)
        (λ os p q. record { held_eq = p; blocks_eq = q }) (keep_client-Opened err)

-- What follows the opening of a datagram socket, with a descriptor that was not in use or none
module _ {B : Type 0} (held : List ℕ) (blocks : ℕ) (post : B → Os → Type 0)
    (after : ErrorStruct × Fd → Io B)
    (closed : (e : ErrorStruct) → Triple held blocks (after (e, none)) post)
    (opened : (e : ErrorStruct) (n : ℕ)
      → has n held ≡ false
      → Triple (n ∷ held) blocks (after (e, some n)) post) where
  after_datagram :
      (r : ErrorStruct × Fd) (os : Os)
      → Opened held blocks r os
      → let m = after r os in post m.0 m.1
  unfolding Accepted
  after_datagram (e, none) os u = closed e os u.held_eq u.blocks_eq
  after_datagram (e, some n) os (f, u) = opened e n f os u.held_eq u.blocks_eq

  pub datagram_then-Triple :
      (domain : Domain) (options : List (SockOpt × ℕ)) (format : List ℕ → List ℕ)
      (err : ErrorStruct)
      → Triple held blocks (datagram_fd domain options format err >>= after) post
  datagram_then-Triple domain options format err =
      bind-Triple held blocks (Opened held blocks) post (datagram_fd domain options format err)
        after (datagram_fd-Triple held blocks domain options format err) after_datagram
