-- ===== src/Sockets/Results.antt =====
-- Rules for what a chain of calls returns, whatever the system answers.
use libcando.Base.{ℕ, suc, ◌≡◌, refl, Bool, true, false, Option, none, some, List, [], ◌∷◌}
use libcando.Sockets.System.{
  Call, Answer, done, failed, Os, Io, pure, ◌>>=◌, give_fd, count_block, each_or, open_or,
  made_call, calloc,
}
use libcando.Sockets.Steps.{Made, made, refused, refuse, if_made, with_context}

-- The result has the property.
abbrev pub Yields {ℓ} : {A : Type ℓ} → (A → Type 0) → Io A → Type 0
Yields P m = (os : Os) → P (m os).0

-- The context of a create has the property, if there is one.
unfoldable pub IfMade : {C : Type 0} → (C → Type 0) → Made C → Type 0
IfMade P (made x) = P x
IfMade P (refused left) = Unit {0}

module _ {A : Type 0} (P : A → Type 0) where
  or_else_cases :
      (on_failure next : Io A)
      → Yields P on_failure
      → Yields P next
      → (a : Answer) → Yields P (elim a [ done v ↦ next | failed e ↦ on_failure ])
  or_else_cases on_failure next f g (done v) = g
  or_else_cases on_failure next f g (failed e) = f

  pub each_or-Yields :
      (calls : List Call) (on_failure next : Io A)
      → Yields P on_failure
      → Yields P next
      → Yields P (each_or calls on_failure next)
  each_or-Yields [] on_failure next f g = g
  each_or-Yields (call ∷ calls) on_failure next f g = λ os.
      or_else_cases on_failure (each_or calls on_failure next) f
        (each_or-Yields calls on_failure next f g) (os.answers 0) (made_call call (os.answers 0) os)

  give_cases :
      (on_failure : Io A) (next : ℕ → Io A)
      → Yields P on_failure
      → ((n : ℕ) → Yields P (next n))
      → (a : Answer)
      → Yields P (give_fd a >>= λ fd. elim fd [ some n ↦ next n | none ↦ on_failure ])
  give_cases on_failure next f g (done v) os =
      g (os.kernel.pick os.held) (record os { held = os.kernel.pick os.held ∷ os.held })
  give_cases on_failure next f g (failed e) os = f os

  pub open_or-Yields :
      (call : Call) (on_failure : Io A) (next : ℕ → Io A)
      → Yields P on_failure
      → ((n : ℕ) → Yields P (next n))
      → Yields P (open_or call on_failure next)
  open_or-Yields call on_failure next f g os =
      give_cases on_failure next f g (os.answers 0) (made_call call (os.answers 0) os)

module _ {C : Type 0} (P : C → Type 0) where
  pub refuse-IfMade : (destroyed : Io (Option C)) → Yields (IfMade P) (refuse destroyed)
  unfolding IfMade
  refuse-IfMade destroyed os = tt

  if_made_cases :
      (next : C → Io (Made C))
      → ((x : C) → P x → Yields (IfMade P) (next x))
      → (m : Made C) → IfMade P m
      → Yields (IfMade P) (if_made next m)
  unfolding IfMade
  if_made_cases next h (made x) p = h x p
  if_made_cases next h (refused left) p = λ os. tt

  pub if_made-IfMade :
      (first : Io (Made C)) (next : C → Io (Made C))
      → Yields (IfMade P) first
      → ((x : C) → P x → Yields (IfMade P) (next x))
      → Yields (IfMade P) (first >>= if_made next)
  if_made-IfMade first next f h os = let r = first os in if_made_cases next h r.0 (f os) r.1

  calloc_cases :
      (next : Bool → Io (Made C))
      → Yields (IfMade P) (next true)
      → Yields (IfMade P) (next false)
      → (a : Answer) → Yields (IfMade P) (count_block a >>= next)
  calloc_cases next f g (done v) os = f (record os { blocks = suc os.blocks })
  calloc_cases next f g (failed e) os = g os

  -- `R` is what is known of a context that the caller gives, and of one of calloc(3).
  pub with_context-IfMade :
      (R : C → Type 0) (given : Option C) (blank : C) (next : C → Io (Made C))
      → R blank
      → ((x : C) → given ≡ some x → R x)
      → ((x : C) → R x → Yields (IfMade P) (next x))
      → Yields (IfMade P) (with_context given blank next)
  unfolding IfMade
  with_context-IfMade R none blank next b g h = λ os.
      calloc_cases (λ ok. elim ok [ true ↦ next blank | false ↦ pure (refused none) ]) (h blank b)
        (λ os. tt) (os.answers 0) (made_call calloc (os.answers 0) os)
  with_context-IfMade R (some x) blank next b g h = h x (g x refl)
