-- ===== src/Sockets/Triples.antt =====
-- Rules for the descriptors in use and the blocks of the program across the steps that the socket
-- files of src/ share.
use libcando.Base.{
  ℕ, suc, ◌+◌, Bool, true, false, none, some, List, [], ◌∷◌, ◌≡◌, refl, sym, ap, ◌∙◌, arith,
}
use libcando.Sockets.System.{
  Fd, Call, Answer, done, failed, Os, Io, pure, ◌>>=◌, ◌>>◌, invoke, give_fd, close_fd, or_else,
  each_or, open_or, has, without, without-absent, made_call, release, remove_file,
}
use libcando.Sockets.Steps.{dispose}

-- Started with these descriptors and blocks in use, the calls end so that `post` holds.
abbrev pub Triple : {A : Type 0} → List ℕ → ℕ → Io A → (A → Os → Type 0) → Type 0
Triple held blocks m post =
    (os : Os) → os.held ≡ held → os.blocks ≡ blocks → let r = m os in post r.0 r.1

-- What close(2) leaves of the descriptors in use
abbrev pub closing : Fd → List ℕ → List ℕ
closing none held = held
closing (some n) held = without n held

pub closing-head : (n : ℕ) (held : List ℕ) → closing (some n) (n ∷ held) ≡ held
closing-head n held = ground arith

pub closing-absent : (n : ℕ) (held : List ℕ) → has n held ≡ false → closing (some n) held ≡ held
closing-absent = without-absent

-- These descriptors and blocks are in use.
pub record InUse (held : List ℕ) (blocks : ℕ) (os : Os) : Type 0 where
  pub held_eq : os.held ≡ held
  pub blocks_eq : os.blocks ≡ blocks

made_call-held : (call : Call) (a : Answer) (os : Os) → (made_call call a os).held ≡ os.held
made_call-held call (done v) os = refl
made_call-held call (failed e) os = refl

made_call-blocks : (call : Call) (a : Answer) (os : Os) → (made_call call a os).blocks ≡ os.blocks
made_call-blocks call (done v) os = refl
made_call-blocks call (failed e) os = refl

module _ {A : Type 0} (held : List ℕ) (blocks : ℕ) (post : A → Os → Type 0) where
  pub pure-Triple :
      (a : A)
      → ((os : Os) → os.held ≡ held → os.blocks ≡ blocks → post a os)
      → Triple held blocks (pure a) post
  pure-Triple a h = h

  pub invoke-Triple :
      (call : Call) (next : Answer → Io A)
      → ((a : Answer) → Triple held blocks (next a) post)
      → Triple held blocks (invoke call >>= next) post
  invoke-Triple call next h os p q =
      h (os.answers 0) (made_call call (os.answers 0) os)
        (made_call-held call (os.answers 0) os ∙ p) (made_call-blocks call (os.answers 0) os ∙ q)

  pub or_else-Triple :
      (call : Call) (on_failure next : Io A)
      → Triple held blocks on_failure post
      → Triple held blocks next post
      → Triple held blocks (or_else call on_failure next) post
  or_else-Triple call on_failure next f g =
      invoke-Triple call (λ a. elim a [ done v ↦ next | failed e ↦ on_failure ])
        λ a.
          elim a
            as (λ a. Triple held blocks (elim a [ done v ↦ next | failed e ↦ on_failure ]) post) [
              | done v ↦ g
              | failed e ↦ f
            ]

  pub each_or-Triple :
      (calls : List Call) (on_failure next : Io A)
      → Triple held blocks on_failure post
      → Triple held blocks next post
      → Triple held blocks (each_or calls on_failure next) post
  each_or-Triple [] on_failure next f g = g
  each_or-Triple (call ∷ calls) on_failure next f g =
      or_else-Triple call on_failure (each_or calls on_failure next) f
        (each_or-Triple calls on_failure next f g)

  give-Triple :
      (on_failure : Io A) (next : ℕ → Io A)
      → Triple held blocks on_failure post
      → ((n : ℕ) → has n held ≡ false → Triple (n ∷ held) blocks (next n) post)
      → (a : Answer)
      → Triple held blocks
          (give_fd a >>= λ fd. elim fd [ some n ↦ next n | none ↦ on_failure ])
          post
  give-Triple on_failure next f g (failed e) os p q = f os p q
  give-Triple on_failure next f g (done v) os p q =
      g (os.kernel.pick os.held)
        (ap (has (os.kernel.pick os.held)) (sym p) ∙ os.kernel.pick-IsFree os.held)
        (record os { held = os.kernel.pick os.held ∷ os.held })
        (ap (λ h. os.kernel.pick os.held ∷ h) p) q

  pub open_or-Triple :
      (call : Call) (on_failure : Io A) (next : ℕ → Io A)
      → Triple held blocks on_failure post
      → ((n : ℕ) → has n held ≡ false → Triple (n ∷ held) blocks (next n) post)
      → Triple held blocks (open_or call on_failure next) post
  open_or-Triple call on_failure next f g os p q =
      give-Triple on_failure next f g (os.answers 0) (made_call call (os.answers 0) os)
        (made_call-held call (os.answers 0) os ∙ p) (made_call-blocks call (os.answers 0) os ∙ q)

  pub release-Triple :
      (k : Io A) → Triple held blocks k post → Triple held (suc blocks) (release >> k) post
  release-Triple k h os p q = h (release os).1 p (omega arith)

  pub close_fd-Triple :
      (fd : Fd) (before : List ℕ) (k : Io A)
      → closing fd before ≡ held
      → Triple held blocks k post
      → Triple before blocks (close_fd fd >> k) post
  close_fd-Triple none before k e h os p q = h (close_fd none os).1 (p ∙ e) q
  close_fd-Triple (some n) before k e h os p q = h (close_fd (some n) os).1 (ap (without n) p ∙ e) q

  pub remove_file-Triple :
      (path : List ℕ) (k : Io A)
      → Triple held blocks k post
      → Triple held blocks (remove_file path >> k) post
  remove_file-Triple path k h os = h (remove_file path os).1

-- What a destroyed or refused context leaves: what was in use before it
abbrev pub Gone : {A : Type 0} → List ℕ → ℕ → A → Os → Type 0
Gone held blocks a os = InUse held blocks os

-- The blocks of a context
abbrev pub size_of : Bool → ℕ
size_of true = 1
size_of false = 0

pub dispose-Triple :
    {C : Type 0} (held : List ℕ) (blocks : ℕ) (heap : Bool) (blank : C)
    → Triple held (size_of heap + blocks) (dispose heap blank) (Gone held blocks)
dispose-Triple held blocks true blank os p q = record { held_eq = p; blocks_eq = omega arith }
dispose-Triple held blocks false blank os p q = record { held_eq = p; blocks_eq = omega arith }

-- The body of a destroy: the descriptor is closed, and the block is free.
pub close_dispose-Gone :
    {C : Type 0} (fd : Fd) (heap : Bool) (blank : C) (before after : List ℕ) (blocks : ℕ)
    → closing fd before ≡ after
    → Triple before (size_of heap + blocks) (close_fd fd >> dispose heap blank) (Gone after blocks)
close_dispose-Gone fd heap blank before after blocks e =
    close_fd-Triple after (size_of heap + blocks) (Gone after blocks) fd before (dispose heap blank)
      e (dispose-Triple after blocks heap blank)

-- The same with a file that is removed in between
pub close_remove-Gone :
    {C : Type 0} (fd : Fd) (path : List ℕ) (heap : Bool) (blank : C) (before after : List ℕ)
    (blocks : ℕ)
    → closing fd before ≡ after
    → Triple before
        (size_of heap + blocks)
        (close_fd fd >> remove_file path >> dispose heap blank)
        (Gone after blocks)
close_remove-Gone fd path heap blank before after blocks e =
    close_fd-Triple after (size_of heap + blocks) (Gone after blocks) fd before
      (remove_file path >> dispose heap blank) e
      (remove_file-Triple after (size_of heap + blocks) (Gone after blocks) path
        (dispose heap blank) (dispose-Triple after blocks heap blank))

-- A function that ends in one of its continuations
pub bind-Triple :
    {A B : Type 0} (held : List ℕ) (blocks : ℕ) (between : A → Os → Type 0) (post : B → Os → Type 0)
    (m : Io A) (k : A → Io B)
    → Triple held blocks m between
    → ((a : A) (os : Os) → between a os → let r = k a os in post r.0 r.1)
    → Triple held blocks (m >>= k) post
bind-Triple held blocks between post m k f g os p q = let r = m os in g r.0 r.1 (f os p q)
