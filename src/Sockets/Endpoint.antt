-- ===== src/Sockets/Endpoint.antt =====
-- The interface of a kind of socket: how its contexts are made and destroyed, with the laws on
-- descriptors and blocks that the socket files of src/ promise.
pub mod Either
pub mod Table
use libcando.Base.{
  ℕ, zero, suc, ◌+◌, Bool, true, false, Option, none, some, List, [], ◌∷◌, ◌≡◌, refl, arith, ap,
  sym, ◌∙◌,
}
use libcando.Sockets.System.{
  Fd, Os, Io, has, without, ◌>>=◌, ◌>>◌, close_fd, pure, Answer, done, failed, calloc_context,
  count_block, invoke, calloc, Call, each_or,
}
use libcando.Sockets.Steps.{Made, made, refused, if_made, with_context, refuse, dispose}
use libcando.Sockets.Triples.{
  Triple, InUse, Gone, size_of, closing, closing-head, closing-absent, each_or-Triple, bind-Triple,
  close_fd-Triple, dispose-Triple, invoke-Triple,
}

-- The descriptor of a context, and whether it is a block of calloc(3)
pub record Context (C : Type 0) : Type 0 where
  pub fd_of : C → Fd
  pub heap_of : C → Bool

-- What a create leaves that was given these descriptors and blocks: a context with a descriptor
-- that was not in use, and its block, or NULL and what was in use before.
unfoldable pub Owns : {C : Type 0} → Context C → List ℕ → ℕ → Made C → Os → Type 0
Owns c held blocks (made x) os =
    (n : ℕ) × (c.fd_of x ≡ some n)
    × (has n held ≡ false)
    × InUse (n ∷ held) (size_of (c.heap_of x) + blocks) os
Owns c held blocks (refused left) os = InUse held blocks os

-- A step of a create with a context whose descriptor is in use.
abbrev pub Continues : {C : Type 0} → Context C → List ℕ → ℕ → (C → Io (Made C)) → Type 0
Continues {C} c held blocks next =
    (x : C) (n : ℕ)
    → c.fd_of x ≡ some n
    → has n held ≡ false
    → Triple (n ∷ held) (size_of (c.heap_of x) + blocks) (next x) (Owns c held blocks)

module _ {C : Type 0} (c : Context C) (held : List ℕ) (blocks : ℕ) where
  pub made-Owns : Continues c held blocks (λ x. pure (made x))
  unfolding Owns
  made-Owns x n e f os p q = (n, e, f, record { held_eq = p; blocks_eq = q })

  pub refused-Owns :
      (left : Option C) → Triple held blocks (pure (refused left)) (Owns c held blocks)
  unfolding Owns
  refused-Owns left os p q = record { held_eq = p; blocks_eq = q }

  pub refuse-Owns :
      (before : List ℕ) (count : ℕ) (destroyed : Io (Option C))
      → Triple before count destroyed (Gone held blocks)
      → Triple before count (refuse destroyed) (Owns c held blocks)
  unfolding Owns
  refuse-Owns before count destroyed h = h

  if_made-continue :
      (next : C → Io (Made C))
      → Continues c held blocks next
      → (m : Made C) (os : Os) → Owns c held blocks m os
      → let r = if_made next m os in Owns c held blocks r.0 r.1
  unfolding Owns
  if_made-continue next g (made x) os (n, e, f, u) = g x n e f os u.held_eq u.blocks_eq
  if_made-continue next g (refused left) os u = u

  pub if_made-Owns :
      (before : List ℕ) (count : ℕ) (first : Io (Made C)) (next : C → Io (Made C))
      → Triple before count first (Owns c held blocks)
      → Continues c held blocks next
      → Triple before count (first >>= if_made next) (Owns c held blocks)
  if_made-Owns before count first next f g =
      bind-Triple before count (Owns c held blocks) (Owns c held blocks) first (if_made next) f
        (if_made-continue next g)

  pub calloc_context-Owns :
      (next : Bool → Io (Made C))
      → Triple held (suc blocks) (next true) (Owns c held blocks)
      → Triple held blocks (next false) (Owns c held blocks)
      → Triple held blocks (calloc_context >>= next) (Owns c held blocks)
  calloc_context-Owns next f g =
      invoke-Triple held blocks (Owns c held blocks) calloc (λ a. count_block a >>= next)
        λ a. elim a as (λ a. Triple held blocks (count_block a >>= next) (Owns c held blocks)) [
          | done v ↦ λ os p q. f (record os { blocks = suc os.blocks }) p (ap suc q)
          | failed e ↦ g
        ]

-- A context that a create may be given: none, or one that is no block of calloc(3).
abbrev pub Given : {C : Type 0} → Context C → Option C → Type 0
Given c none = Unit {0}
Given c (some x) = c.heap_of x ≡ false

module _ {C : Type 0} (c : Context C) (blank : C) (next : C → Io (Made C))
    (fresh_heap : c.heap_of blank ≡ true) where
  -- The start of a create, if it goes on well with every context
  pub with_context-Owns :
      (held : List ℕ) (blocks : ℕ)
      → ((x : C) → Triple held (size_of (c.heap_of x) + blocks) (next x) (Owns c held blocks))
      → (given : Option C) → Given c given
      → Triple held blocks (with_context given blank next) (Owns c held blocks)
  unfolding Owns
  with_context-Owns held blocks h none g =
      calloc_context-Owns c held blocks
        (λ ok. elim ok [ true ↦ next blank | false ↦ pure (refused none) ])
        (λ os p q. h blank os p (q ∙ omega (arith, ap size_of fresh_heap)))
        (λ os p q. record { held_eq = p; blocks_eq = q })
  with_context-Owns held blocks h (some x) g = λ os p q. h x os p (q ∙ omega (arith, ap size_of g))

-- A context that was made is destroyed.
abbrev pub discard : {C : Type 0} → (C → Io (Option C)) → Made C → Io (Option C)
discard destroy (made x) = destroy x
discard destroy (refused left) = pure left

-- What a destroy promises: the descriptor of the context is closed, and its block is free.
abbrev pub Destroys : {C : Type 0} → Context C → (C → Io (Option C)) → Type 0
Destroys {C} c destroy =
    (x : C) (before after : List ℕ) (blocks : ℕ)
    → closing (c.fd_of x) before ≡ after
    → Triple before (size_of (c.heap_of x) + blocks) (destroy x) (Gone after blocks)

module _ {C : Type 0} (c : Context C) (destroy : C → Io (Option C)) (law : Destroys c destroy) where
  discard-Gone_of :
      (held : List ℕ) (blocks : ℕ) (m : Made C) (os : Os)
      → Owns c held blocks m os
      → let r = discard destroy m os in Gone held blocks r.0 r.1
  unfolding Owns
  discard-Gone_of held blocks (made x) os (n, e, f, u) =
      law x (n ∷ held) held blocks (ap (λ fd. closing fd (n ∷ held)) e ∙ closing-head n held) os
        u.held_eq u.blocks_eq
  discard-Gone_of held blocks (refused left) os u = u

  -- NULL with a context whose descriptor is open
  pub refuse_open : (held : List ℕ) (blocks : ℕ) → Continues c held blocks (λ x. refuse (destroy x))
  refuse_open held blocks x n e f =
      refuse-Owns c held blocks (n ∷ held) (size_of (c.heap_of x) + blocks) (destroy x)
        (law x (n ∷ held) held blocks (ap (λ fd. closing fd (n ∷ held)) e ∙ closing-head n held))

  -- NULL with a context without a descriptor, or whose descriptor is closed already
  pub refuse_closed :
      (held : List ℕ) (blocks : ℕ) (x : C)
      → closing (c.fd_of x) held ≡ held
      → Triple held (size_of (c.heap_of x) + blocks) (refuse (destroy x)) (Owns c held blocks)
  refuse_closed held blocks x e =
      refuse-Owns c held blocks held (size_of (c.heap_of x) + blocks) (destroy x)
        (law x held held blocks e)

  -- NULL with a context whose descriptor a failed option has closed
  pub refuse_gone :
      (held : List ℕ) (blocks : ℕ) (x : C) (n : ℕ)
      → c.fd_of x ≡ some n
      → has n held ≡ false
      → Triple held (size_of (c.heap_of x) + blocks) (refuse (destroy x)) (Owns c held blocks)
  refuse_gone held blocks x n e f =
      refuse_closed held blocks x (ap (λ fd. closing fd held) e ∙ closing-absent n held f)

  -- What a create made is destroyed again: nothing stays in use.
  pub discard-Gone :
      (held : List ℕ) (blocks : ℕ) (before : List ℕ) (count : ℕ) (m : Io (Made C))
      → Triple before count m (Owns c held blocks)
      → Triple before count (m >>= discard destroy) (Gone held blocks)
  discard-Gone held blocks before count m h =
      bind-Triple before count (Owns c held blocks) (Gone held blocks) m (discard destroy) h
        (discard-Gone_of held blocks)

  -- The calls of a server, and NULL if one of them fails
  pub each_or-Continues :
      (held : List ℕ) (blocks : ℕ) (calls : C → List Call)
      → Continues c held blocks (λ x. each_or (calls x) (refuse (destroy x)) (pure (made x)))
  each_or-Continues held blocks calls x n e f =
      each_or-Triple (n ∷ held) (size_of (c.heap_of x) + blocks) (Owns c held blocks) (calls x)
        (refuse (destroy x)) (pure (made x)) (refuse_open held blocks x n e f)
        (made-Owns c held blocks x n e f)

-- What a socket file promises its clients.
pub record Endpoint (C Info : Type 0) : Type 0 where
  pub context : Context C
  pub create : Option C → Info → Io (Made C)
  pub destroy : C → Io (Option C)
  pub create-Owns :
      (given : Option C) (info : Info) (held : List ℕ) (blocks : ℕ)
      → Given context given
      → Triple held blocks (create given info) (Owns context held blocks)
  pub destroy-Gone : Destroys context destroy
