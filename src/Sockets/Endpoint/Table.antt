-- ===== src/Sockets/Endpoint/Table.antt =====
-- A program that keeps several contexts of one kind of socket: what it has open is, up to order,
-- what the contexts that are alive stand for.
use libcando.Base.{
  ℕ, zero, suc, ◌+◌, ◌≤◌, true, false, none, some, List, [], ◌∷◌, ◌≡◌, refl, arith, ap, sym, ◌∙◌,
  ◌==◌, if◌then◌else◌,
}
use libcando.Sockets.System.{Fd, Os, Io, pure, has, without, ◌>>=◌}
use libcando.Sockets.Steps.{Made, made, refused}
use libcando.Sockets.Triples.{size_of, closing}
use libcando.Sockets.Endpoint.{Endpoint, Owns}

-- How often a number stands in a list
abbrev pub count : ℕ → List ℕ → ℕ
count n [] = 0
count n (m ∷ held) = (if n == m then 1 else 0) + count n held

count-has : (n : ℕ) (held : List ℕ) → 1 ≤ count n held → has n held ≡ true
count-has n [] h = absurd (ground arith)
count-has n (m ∷ held) h = ground (arith, count-has n held)

has-count : (n : ℕ) (held : List ℕ) → has n held ≡ false → count n held ≡ 0
has-count n [] h = refl
has-count n (m ∷ held) h = ground (arith, has-count n held)

count-without :
    (n m : ℕ) (held : List ℕ)
    → has m held ≡ true
    → count n held ≡ (if n == m then 1 else 0) + count n (without m held)
count-without n m [] h = ground arith
count-without n m (k ∷ held) h = ground (arith, count-without n m held)

count-without_le : (n m : ℕ) (held : List ℕ) → count n (without m held) ≤ count n held
count-without_le n m [] = omega arith
count-without_le n m (k ∷ held) = ground (arith, count-without_le n m held)

-- A descriptor in front of others, if there is one
abbrev pub also : Fd → List ℕ → List ℕ
also none held = held
also (some n) held = n ∷ held

count-also :
    (n : ℕ) (fd : Fd) (xs ys : List ℕ)
    → count n (also fd xs) + count n ys ≡ count n xs + count n (also fd ys)
count-also n none xs ys = refl
count-also n (some m) xs ys = omega arith

count-closing_le : (n : ℕ) (fd : Fd) (held : List ℕ) → count n (closing fd held) ≤ count n held
count-closing_le n none held = omega arith
count-closing_le n (some m) held = count-without_le n m held

count-closing :
    (fd : Fd) (xs ys held : List ℕ)
    → ((n : ℕ) → count n held ≡ count n (also fd xs) + count n ys)
    → (n : ℕ) → count n (closing fd held) ≡ count n xs + count n ys
count-closing none xs ys held h n = h n
count-closing (some m) xs ys held h n =
    ground (arith, h n, h m, count-has m held, count-without n m held)

-- A program asks for a context, or destroys one of those that it has.
pub data Command (Info : Type 0) : Type 0 where
  create : Info → Command Info
  destroy : (index : ℕ) → Command Info

module _ {C Info : Type 0} (e : Endpoint C Info) where
  -- A new context is put in front.
  keep : List C → Made C → Io (List C)
  keep live (made x) = pure (x ∷ live)
  keep live (refused left) = pure live

  destroy_at : List C → (index : ℕ) → Io (List C)
  destroy_at [] index = pure []
  destroy_at (x ∷ live) zero = e.destroy x >>= λ left. pure live
  destroy_at (x ∷ live) (suc index) = destroy_at live index >>= λ rest. pure (x ∷ rest)

  step : Command Info → List C → Io (List C)
  unfolding keep destroy_at
  step (create info) live = e.create none info >>= keep live
  step (destroy index) live = destroy_at live index

  pub run : List (Command Info) → List C → Io (List C)
  unfolding step
  run [] live = pure live
  run (command ∷ commands) live = step command live >>= run commands

  -- The program ends: all that is alive is destroyed.
  pub drain : List C → Io (List C)
  drain [] = pure []
  drain (x ∷ live) = e.destroy x >>= λ left. drain live

  -- The descriptors of the contexts that are alive, and the blocks
  pub descriptors : List C → List ℕ
  descriptors [] = []
  descriptors (x ∷ live) = also (e.context.fd_of x) (descriptors live)

  pub blocks_of : List C → ℕ
  blocks_of [] = 0
  blocks_of (x ∷ live) = size_of (e.context.heap_of x) + blocks_of live

  -- What the program started with is in use, and what the contexts that are alive stand for; no
  -- descriptor is in use twice.
  pub record Linked (held : List ℕ) (blocks : ℕ) (live : List C) (os : Os) : Type 0 where
    pub counted : (n : ℕ) → count n os.held ≡ count n (descriptors live) + count n held
    pub charged : os.blocks ≡ blocks_of live + blocks
    pub distinct : (n : ℕ) → count n os.held ≤ 1

  -- A context in front of the list counts as one that the program started with.
  base : C → List ℕ → List ℕ
  base x held = also (e.context.fd_of x) held

  shift :
      (held : List ℕ) (blocks : ℕ) (x : C) (live : List C) (os : Os)
      → Linked held blocks (x ∷ live) os
      → Linked (base x held) (size_of (e.context.heap_of x) + blocks) live os
  unfolding blocks_of descriptors base
  shift held blocks x live os l = record {
    counted = λ n. l.counted n ∙ count-also n (e.context.fd_of x) (descriptors live) held;
    charged = omega (arith, l.charged);
    distinct = l.distinct;
  }

  unshift :
      (held : List ℕ) (blocks : ℕ) (x : C) (live : List C) (os : Os)
      → Linked (base x held) (size_of (e.context.heap_of x) + blocks) live os
      → Linked held blocks (x ∷ live) os
  unfolding blocks_of descriptors base
  unshift held blocks x live os l = record {
    counted = λ n. l.counted n ∙ sym (count-also n (e.context.fd_of x) (descriptors live) held);
    charged = omega (arith, l.charged);
    distinct = l.distinct;
  }

  destroy-Linked :
      (held : List ℕ) (blocks : ℕ) (x : C) (live : List C) (os : Os)
      → Linked held blocks (x ∷ live) os
      → Linked held blocks live (e.destroy x os).1
  unfolding blocks_of descriptors
  destroy-Linked held blocks x live os l =
      let closed = closing (e.context.fd_of x) os.held in
      let u =
        e.destroy-Gone x os.held closed (blocks_of live + blocks) refl os refl
          (omega (arith, l.charged)) in
      record {
        counted = λ n.
            ap (count n) u.held_eq
            ∙ count-closing (e.context.fd_of x) (descriptors live) held os.held l.counted n;
        charged = u.blocks_eq;
        distinct = λ n. omega (
          arith,
          ap (count n) u.held_eq,
          count-closing_le n (e.context.fd_of x) os.held,
          l.distinct n,
        );
      }

  destroy_at-Linked :
      (held : List ℕ) (blocks : ℕ) (live : List C) (index : ℕ) (os : Os)
      → Linked held blocks live os
      → let r = destroy_at live index os in Linked held blocks r.0 r.1
  unfolding destroy_at
  destroy_at-Linked held blocks [] index os l = l
  destroy_at-Linked held blocks (x ∷ live) zero os l = destroy-Linked held blocks x live os l
  destroy_at-Linked held blocks (x ∷ live) (suc index) os l =
      let r = destroy_at live index os in
      unshift held blocks x r.0 r.1 (
        destroy_at-Linked (base x held) (size_of (e.context.heap_of x) + blocks) live index os
          (shift held blocks x live os l))

  keep-Linked :
      (held : List ℕ) (blocks : ℕ) (live : List C) (before : Os) (m : Made C) (os : Os)
      → Linked held blocks live before
      → Owns e.context before.held before.blocks m os
      → let r = keep live m os in Linked held blocks r.0 r.1
  unfolding keep Owns descriptors blocks_of
  keep-Linked held blocks live before (refused left) os l u = record {
    counted = λ k. ap (count k) u.held_eq ∙ l.counted k;
    charged = omega (arith, u.blocks_eq, l.charged);
    distinct = λ k. omega (arith, ap (count k) u.held_eq, l.distinct k);
  }
  keep-Linked held blocks live before (made x) os l (n, f, free, u) = record {
    counted = λ k. ap (count k) u.held_eq ∙ rw (f) (omega (arith, l.counted k));
    charged = omega (arith, u.blocks_eq, l.charged);
    distinct =
        λ k. ground (arith, ap (count k) u.held_eq, has-count n before.held free, l.distinct k);
  }

  step-Linked :
      (held : List ℕ) (blocks : ℕ) (command : Command Info) (live : List C) (os : Os)
      → Linked held blocks live os
      → let r = step command live os in Linked held blocks r.0 r.1
  unfolding step
  step-Linked held blocks (create info) live os l =
      let r = e.create none info os in
      keep-Linked held blocks live os r.0 r.1 l
        (e.create-Owns none info os.held os.blocks tt os refl refl)
  step-Linked held blocks (destroy index) live os l = destroy_at-Linked held blocks live index os l

  started : (os : Os) → ((n : ℕ) → count n os.held ≤ 1) → Linked os.held os.blocks [] os
  unfolding descriptors blocks_of
  started os d = record { counted = λ n. omega arith; charged = omega arith; distinct = d }

  -- Whatever contexts a program asks for and destroys, and whatever the system answers: its
  -- descriptors are, up to order, those that it started with and those of the contexts alive, no
  -- two of them alike; its blocks are those that it started with and those of the contexts alive.
  pub run-Linked :
      (commands : List (Command Info)) (held : List ℕ) (blocks : ℕ) (live : List C) (os : Os)
      → Linked held blocks live os
      → let r = run commands live os in Linked held blocks r.0 r.1
  unfolding run
  run-Linked [] held blocks live os l = l
  run-Linked (command ∷ commands) held blocks live os l =
      let r = step command live os in
      run-Linked commands held blocks r.0 r.1 (step-Linked held blocks command live os l)

  drain-Linked :
      (held : List ℕ) (blocks : ℕ) (live : List C) (os : Os)
      → Linked held blocks live os
      → let r = drain live os in Linked held blocks [] r.1
  unfolding drain
  drain-Linked held blocks [] os l = l
  drain-Linked held blocks (x ∷ live) os l =
      drain-Linked held blocks live (e.destroy x os).1 (destroy-Linked held blocks x live os l)

  -- A program that starts without contexts, with descriptors of which no two are alike, and that
  -- at its end destroys all contexts alive, is left with the descriptors, up to order, and the
  -- number of blocks that it started with.
  pub run-drain :
      (commands : List (Command Info)) (os : Os)
      → ((n : ℕ) → count n os.held ≤ 1)
      → let r = (run commands [] >>= drain) os in
        ((n : ℕ) → count n r.1.held ≡ count n os.held) × (r.1.blocks ≡ os.blocks)
  unfolding descriptors blocks_of
  run-drain commands os d =
      let r = run commands [] os in
      let l =
        drain-Linked os.held os.blocks r.0 r.1
          (run-Linked commands os.held os.blocks [] os (started os d)) in
      (λ n. l.counted n ∙ omega arith, l.charged ∙ omega arith)
