-- ===== src/Sockets/Can/Ownership.antt =====
-- src/csock-raw.c: the descriptors and blocks that its functions hold.
use libcando.Base.{
  ℕ, suc, ◌+◌, false, Option, none, some, List, ◌∷◌, take, arith, ◌≡◌, refl, ap, ◌∙◌,
}
use libcando.Sockets.System.{
  Answer, has, Os, pure, ◌>>=◌, af_can, raw, can_addr, calloc, socket, bind, get_if_index, done,
  failed,
}
use libcando.Sockets.Steps.{refuse, made}
use libcando.Sockets.Triples.{
  close_dispose-Gone, Triple, Gone, InUse, size_of, closing, invoke-Triple, or_else-Triple,
  open_or-Triple,
}
use libcando.Sockets.Endpoint.{
  Context, Owns, Continues, refused-Owns, made-Owns, discard, discard-Gone, refuse_open,
  refuse_closed,
}
use libcando.Sockets.Can.{Can, fresh, cleared, destroy, bind_interface, opened, open_socket, create}

abbrev pub context : Context Can
context = record { fd_of = λ x. x.fd; heap_of = λ x. x.free }

pub destroy-Gone :
    (x : Can) (before after : List ℕ) (blocks : ℕ)
    → closing x.fd before ≡ after
    → Triple before (size_of x.free + blocks) (destroy x) (Gone after blocks)
unfolding destroy
destroy-Gone x = close_dispose-Gone x.fd x.free cleared

module _ (held : List ℕ) (blocks : ℕ) where
  bind_interface-Continues :
      (iface : List ℕ) (a : Answer) → Continues context held blocks (λ x. bind_interface x iface a)
  unfolding bind_interface
  bind_interface-Continues iface (failed e) = refuse_open context destroy destroy-Gone held blocks
  bind_interface-Continues iface (done index) = λ x n e f.
      or_else-Triple (n ∷ held) (size_of x.free + blocks) (Owns context held blocks)
        (bind x.fd (can_addr index)) (refuse (destroy x))
        (pure (made (record x { iface = take 15 iface })))
        (refuse_open context destroy destroy-Gone held blocks x n e f)
        (made-Owns context held blocks (record x { iface = take 15 iface }) n e f)

  opened-Owns :
      (iface : List ℕ) (x : Can) (n : ℕ)
      → has n held ≡ false
      → Triple (n ∷ held) (size_of x.free + blocks) (opened iface x n) (Owns context held blocks)
  unfolding opened
  opened-Owns iface x n f =
      invoke-Triple (n ∷ held) (size_of x.free + blocks) (Owns context held blocks)
        (get_if_index (some n) (take 16 iface)) (bind_interface (record x { fd = some n }) iface)
        (λ a. bind_interface-Continues iface a (record x { fd = some n }) n refl f)

  open_socket-Owns :
      (iface : List ℕ) (x : Can)
      → Triple held (size_of x.free + blocks) (open_socket iface x) (Owns context held blocks)
  unfolding open_socket
  open_socket-Owns iface x =
      open_or-Triple held (size_of x.free + blocks) (Owns context held blocks) (socket af_can raw)
        (refuse (destroy (record x { fd = none }))) (opened iface x)
        (refuse_closed context destroy destroy-Gone held blocks (record x { fd = none }) refl)
        (opened-Owns iface x)

  -- With a context of the caller
  create-Owns :
      (x : Can) (info : Option (List ℕ))
      → x.free ≡ false
      → Triple held blocks (create (some x) info) (Owns context held blocks)
  unfolding create
  create-Owns x none g = refused-Owns context held blocks (some x)
  create-Owns x (some iface) g =
      λ os p q. open_socket-Owns iface x os p (q ∙ omega (arith, ap size_of g))

-- A context that calloc(3) gives, whatever the system answers after that: made and destroyed, or
-- refused, it leaves no descriptor open, but its block is never freed.
pub create-leaks :
    (iface : List ℕ) (v : ℕ) (os : Os)
    → os.answers 0 ≡ done v
    → let r = (create none (some iface) >>= discard destroy) os in InUse os.held (suc os.blocks) r.1
unfolding create
create-leaks iface v os h = rw (h) (
    discard-Gone context destroy destroy-Gone os.held (suc os.blocks) os.held
      (size_of false + suc os.blocks) (open_socket iface fresh)
      (open_socket-Owns os.held (suc os.blocks) iface fresh)
      (record os {
        answers = λ i. os.answers (suc i);
        blocks = suc os.blocks;
        trace = calloc ∷ os.trace;
      })
      refl (omega arith))

-- With a context of the caller, what was in use before is in use again.
pub create-discard :
    (x : Can) (info : Option (List ℕ)) (os : Os)
    → x.free ≡ false
    → let r = (create (some x) info >>= discard destroy) os in InUse os.held os.blocks r.1
create-discard x info os g =
    discard-Gone context destroy destroy-Gone os.held os.blocks os.held os.blocks
      (create (some x) info) (create-Owns os.held os.blocks x info g) os refl refl
