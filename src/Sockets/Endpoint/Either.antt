-- ===== src/Sockets/Endpoint/Either.antt =====
-- Two kinds of sockets as one: a context is of the one kind or of the other.
use mathlib.Core.Option
use libcando.Base.{ℕ, Option, none, some, List, ◌≡◌, refl, ◌∙◌, ◌⊎◌, inl, inr}
use libcando.Sockets.System.{Os, Io, pure, ◌>>=◌}
use libcando.Sockets.Steps.{Made, made, refused}
use libcando.Sockets.Triples.{Triple}
use libcando.Sockets.Endpoint.{Context, Endpoint, Owns, Given, Destroys}

map_made : {A B : Type 0} → (A → B) → Made A → Made B
map_made f (made x) = made (f x)
map_made f (refused left) = refused (Option.map f left)

map_made-Owns :
    {A B : Type 0} (c : Context A) (d : Context B) (f : A → B) (held : List ℕ) (blocks : ℕ)
    → ((x : A) → d.fd_of (f x) ≡ c.fd_of x)
    → ((x : A) → d.heap_of (f x) ≡ c.heap_of x)
    → (m : Made A) (os : Os) → Owns c held blocks m os
    → Owns d held blocks (map_made f m) os
unfolding map_made Owns
map_made-Owns c d f held blocks g h (made x) os (n, e, free, u) = (n, g x ∙ e, free, rw (h x) u)
map_made-Owns c d f held blocks g h (refused left) os u = u

module _ {C D I J : Type 0} (e : Endpoint C I) (e' : Endpoint D J) where
  abbrev pub context : Context (C ⊎ D)
  context = record {
    fd_of = λ x. elim x [ inl c ↦ e.context.fd_of c | inr d ↦ e'.context.fd_of d ];
    heap_of = λ x. elim x [ inl c ↦ e.context.heap_of c | inr d ↦ e'.context.heap_of d ];
  }

  -- A context of the caller is of the kind that is asked for.
  pub create : Option (C ⊎ D) → I ⊎ J → Io (Made (C ⊎ D))
  unfolding map_made
  create none (inl i) = e.create none i >>= λ m. pure (map_made inl m)
  create none (inr j) = e'.create none j >>= λ m. pure (map_made inr m)
  create (some (inl c)) (inl i) = e.create (some c) i >>= λ m. pure (map_made inl m)
  create (some (inr d)) (inr j) = e'.create (some d) j >>= λ m. pure (map_made inr m)
  create (some (inl c)) (inr j) = pure (refused (some (inl c)))
  create (some (inr d)) (inl i) = pure (refused (some (inr d)))

  pub destroy : C ⊎ D → Io (Option (C ⊎ D))
  destroy (inl c) = e.destroy c >>= λ left. pure (Option.map inl left)
  destroy (inr d) = e'.destroy d >>= λ left. pure (Option.map inr left)

  pub destroy-Gone : Destroys context destroy
  unfolding destroy
  destroy-Gone (inl c) before after blocks h = e.destroy-Gone c before after blocks h
  destroy-Gone (inr d) before after blocks h = e'.destroy-Gone d before after blocks h

  left-Owns :
      (held : List ℕ) (blocks : ℕ) (m : Io (Made C))
      → Triple held blocks m (Owns e.context held blocks)
      → Triple held blocks (m >>= λ x. pure (map_made inl x)) (Owns context held blocks)
  left-Owns held blocks m h os p q =
      let r = m os in
      map_made-Owns e.context context inl held blocks (λ x. refl) (λ x. refl) r.0 r.1 (h os p q)

  right-Owns :
      (held : List ℕ) (blocks : ℕ) (m : Io (Made D))
      → Triple held blocks m (Owns e'.context held blocks)
      → Triple held blocks (m >>= λ x. pure (map_made inr x)) (Owns context held blocks)
  right-Owns held blocks m h os p q =
      let r = m os in
      map_made-Owns e'.context context inr held blocks (λ x. refl) (λ x. refl) r.0 r.1 (h os p q)

  pub create-Owns :
      (given : Option (C ⊎ D)) (info : I ⊎ J) (held : List ℕ) (blocks : ℕ)
      → Given context given
      → Triple held blocks (create given info) (Owns context held blocks)
  unfolding create Owns
  create-Owns none (inl i) held blocks g =
      left-Owns held blocks (e.create none i) (e.create-Owns none i held blocks tt)
  create-Owns none (inr j) held blocks g =
      right-Owns held blocks (e'.create none j) (e'.create-Owns none j held blocks tt)
  create-Owns (some (inl c)) (inl i) held blocks g =
      left-Owns held blocks (e.create (some c) i) (e.create-Owns (some c) i held blocks g)
  create-Owns (some (inr d)) (inr j) held blocks g =
      right-Owns held blocks (e'.create (some d) j) (e'.create-Owns (some d) j held blocks g)
  create-Owns (some (inl c)) (inr j) held blocks g = λ os p q. record { held_eq = p; blocks_eq = q }
  create-Owns (some (inr d)) (inl i) held blocks g = λ os p q. record { held_eq = p; blocks_eq = q }

  abbrev pub either : Endpoint (C ⊎ D) (I ⊎ J)
  unfolding create
  either = record {
    context = context;
    create = create;
    destroy = destroy;
    create-Owns = create-Owns;
    destroy-Gone = destroy-Gone;
  }
