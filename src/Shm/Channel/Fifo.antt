-- ===== src/Shm/Channel/Fifo.antt =====
-- The entry is a channel for one message at a time.
use libcando.Base.{
  ℕ, ◌≡◌, refl, sym, ◌≢◌, inl, inr, arith, true, false, Bool-cases, List, [], ◌++◌, ◌==◌,
}
use libcando.Shm.Channel.{
  Use, Message, Shared, Pc, out, Move, System, update, Step, moves, Reach, start, later,
}
use libcando.Shm.Channel.Inside.{
  is_inside, Behind, empty, Holds, Holds-Both, Holds-Quiet, Quiet-Holds, Holds-Behind,
}
use libcando.Shm.Channel.Moves.{Sized, Move-Sized, Move-Holds, kept, blocked}

module _ (u : Use) where
  -- Only the process `k` may be inside, and what it may rely on holds.
  pub record Only (s : System) (k : ℕ) : Type 0 where
    pub others : (j : ℕ) → k ≢ j → is_inside (s.pc j) ≡ false
    pub holds : Holds u s.shared s.written s.taken (s.pc k)
    pub sized : (j : ℕ) → Sized u (s.pc j)

  update-Sized :
      (pc : ℕ → Pc) (k : ℕ) (p : Pc)
      → Sized u p
      → ((j : ℕ) → Sized u (pc j))
      → (j : ℕ) → Sized u (update pc k p j)
  update-Sized pc k p z all j = elim (Bool-cases (k == j)) [
    | inl same ↦ rw same z
    | inr other ↦ rw other (all j)
  ]

  -- The state behind a step of `k`
  abbrev next : System → ℕ → Shared → Pc → List Message → List Message → System
  next s k m p ws rs = record {
    shared = m;
    pc = update s.pc k p;
    written = s.written ++ ws;
    taken = s.taken ++ rs;
  }

  module _ {s : System} {k : ℕ} {m : Shared} {p : Pc} {ws rs : List Message}
      (mv : Move u s.shared (s.pc k) m p ws rs) where
    moves-Only : Only s k → Only (next s k m p ws rs) k
    moves-Only o = record {
      others = λ j ne. let f : (k == j) ≡ false = ground arith in rw f (o.others j ne);
      holds =
          let t : (k == k) ≡ true = ground arith in
          rw t (Move-Holds u s.written s.taken mv (o.sized k) o.holds);
      sized = update-Sized s.pc k p (Move-Sized u mv) o.sized;
    }

    -- Another process is inside.
    blocked-Only :
        (i : ℕ) → i ≢ k → is_inside (s.pc i) ≡ true → Only s i → Only (next s k m p ws rs) i
    blocked-Only i ne inside o =
        let both = Holds-Both u s.shared s.written s.taken (s.pc i) inside o.holds in
        let (em, ep, ew, er) = blocked u mv (o.others k ne) both in
        let f : (k == i) ≡ false = ground arith in
        record {
          others = λ j n. elim (Bool-cases (k == j)) [
            | inl same ↦ rw same ep
            | inr other ↦ rw other (o.others j n)
          ];
          holds = rw (f, em, ew, er) (kept u s.shared (s.pc i) s.written s.taken o.holds);
          sized = update-Sized s.pc k p (Move-Sized u mv) o.sized;
        }

  -- Nobody is inside: any process may be the one that gets in.
  passed : (s : System) (i k : ℕ) → is_inside (s.pc i) ≡ false → i ≢ k → Only s i → Only s k
  passed s i k f ne o = record {
    others = λ j n. elim (Bool-cases (i == j)) [
      | inl same ↦ let e : i ≡ j = ground arith in rw (sym e) f
      | inr other ↦ o.others j (ground arith)
    ];
    holds =
        Quiet-Holds u s.shared s.written s.taken (s.pc k) (o.others k ne)
          (Holds-Quiet u s.shared s.written s.taken (s.pc i) f o.holds);
    sized = o.sized;
  }

  step-Only : {s t : System} (i : ℕ) → Step u s t → Only s i → (k : ℕ) × Only t k
  step-Only {s} i (moves k mv) o = elim (Bool-cases (i == k)) [
    | inl same ↦ (k, moves-Only mv (let e : i ≡ k = ground arith in rw (sym e) o))
    | inr other ↦ elim (Bool-cases (is_inside (s.pc i))) [
      | inl inside ↦ (i, blocked-Only mv i (ground arith) inside o)
      | inr outside ↦ (k, moves-Only mv (passed s i k outside (ground arith) o))
    ]
  ]

  pub reach-Only : {ints : ℕ → ℕ} {s : System} → Reach u ints s → (k : ℕ) × Only s k
  reach-Only start = (
    0,
    record {
      others = λ j ne. refl;
      holds = Quiet-Holds u _ [] [] out refl (empty refl refl refl);
      sized = λ j. tt;
    },
  )
  reach-Only (later r st) = let (k, o) = reach-Only r in step-Only k st o

  Only-one :
      {s : System} {k : ℕ}
      → Only s k
      → (i j : ℕ) → is_inside (s.pc i) ≡ true
      → is_inside (s.pc j) ≡ true
      → i ≡ j
  Only-one {k} o i j a b = ground (arith, o.others i, o.others j)

  -- However many processes write and read messages of one size on an entry, in any order of their
  -- accesses, with others that attach meanwhile and calls that give up with -EINTR behind the lock:
  -- at most one process is inside either lock, and the messages read are those that were written,
  -- whole and in their order, less at most the last one.
  pub reach-Fifo :
      {ints : ℕ → ℕ} {s : System}
      → Reach u ints s
      → Behind u s.written s.taken
        × ((i j : ℕ) → is_inside (s.pc i) ≡ true → is_inside (s.pc j) ≡ true → i ≡ j)
  reach-Fifo {s} r =
      let (k, o) = reach-Only r in
      (Holds-Behind u s.shared s.written s.taken (s.pc k) o.holds, λ i j a b. Only-one o i j a b)
