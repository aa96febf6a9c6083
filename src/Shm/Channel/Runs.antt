-- ===== src/Shm/Channel/Runs.antt =====
-- How the processes on an entry go on from any state: the calls that are inside a lock, to their ends
use mathlib.Core.List.{append-nil}
use mathlib.Core.Path.{subst}
use native.Mathlib.Decide.{dec_lt}
use libcando.Base.{
  ℕ, zero, suc, ◌+◌, ◌*◌, ◌≤◌, ◌≡◌, refl, ◌∙◌, arith, true, false, List, [], ◌∷◌, ◌++◌, ◌==◌,
}
use libcando.Futex.{unlocked}
use libcando.Shm.Transfer.Calls.{rounds}
use libcando.Shm.Channel.{
  Use, Message, Shared, Pc, out, storing, stored, loading, clearing, emptied, Move, store,
  end_store, unlock_rd, load, clear, end_load, unlock_wr, System, Step, update, moves, Reach, later,
}
use libcando.Shm.Channel.Inside.{is_inside}

module _ (u : Use) where
  -- What further steps make of a state
  pub data Later (s : System) : System → Type 0 where
    now : Later s s
    then_step : {t v : System} → Later s t → Step u t v → Later s v

  pub Later-trans : {s t v : System} → Later s t → Later t v → Later s v
  Later-trans a now = a
  Later-trans a (then_step b st) = then_step (Later-trans a b) st

  pub Later-Reach : {ints : ℕ → ℕ} {s t : System} → Reach u ints s → Later s t → Reach u ints t
  Later-Reach r now = r
  Later-Reach r (then_step a st) = later (Later-Reach r a) st

  -- Process `k` comes to `p`; the others stay where they are.
  pub record Went (k : ℕ) (p : Pc) (s t : System) : Type 0 where
    pub run : Later s t
    pub own : t.pc k ≡ p
    pub others : (j : ℕ) → (k == j) ≡ false → t.pc j ≡ s.pc j

  pub Went-trans : {k : ℕ} {p q : Pc} {s t v : System} → Went k p s t → Went k q t v → Went k q s v
  Went-trans a b = record {
    run = Later-trans a.run b.run;
    own = b.own;
    others = λ j f. b.others j f ∙ a.others j f;
  }

  -- A step that writes and reads no message
  abbrev pub moved : System → ℕ → Shared → Pc → System
  moved s k m p = record s { shared = m; pc = update s.pc k p }

  pub goes :
      {s : System} {k : ℕ} {p q : Pc} {m : Shared} {ws rs : List Message}
      → s.pc k ≡ p
      → Move u s.shared p m q ws rs
      → Went k q s (record {
        shared = m;
        pc = update s.pc k q;
        written = s.written ++ ws;
        taken = s.taken ++ rs;
      })
  goes {s} {k} {q} {m} {ws} {rs} e mv = record {
    run = then_step now (moves k (rw e mv));
    own = let h : (k == k) ≡ true = ground arith in rw h refl;
    others = λ j f. rw f refl;
  }

  pub quietly :
      (s : System) (k : ℕ) {p q : Pc} {m : Shared}
      → s.pc k ≡ p
      → Move u s.shared p m q [] []
      → Went k q s (moved s k m q)
  quietly s k {q} {m} e mv =
      subst
        (λ w.
          Went k q s (record { shared = m; pc = update s.pc k q; written = w; taken = s.taken }))
        (append-nil s.written)
        (subst
          (λ l.
            Went k q s
              (record { shared = m; pc = update s.pc k q; written = s.written ++ []; taken = l }))
          (append-nil s.taken) (goes e mv))

  -- A call that stores comes out with its message written, and the read futex is free.
  pub record Wrote (k : ℕ) (msg : Message) (s t : System) : Type 0 where
    pub went : Went k out s t
    pub written_eq : t.written ≡ s.written ++ (msg ∷ [])
    pub taken_eq : t.taken ≡ s.taken
    pub rd_free : t.shared.rd_fux ≡ unlocked

  -- A call that loads comes out, and the write futex is free.
  pub record Took (k : ℕ) (s t : System) : Type 0 where
    pub went : Went k out s t
    pub written_eq : t.written ≡ s.written
    pub wr_free : t.shared.wr_fux ≡ unlocked

  stored_ends :
      {s : System} {k : ℕ} {msg : Message} → s.pc k ≡ stored msg → (t : System) × Wrote k msg s t
  stored_ends {s} e = (
    _,
    record {
      went = goes e unlock_rd;
      written_eq = refl;
      taken_eq = append-nil s.taken;
      rd_free = refl;
    },
  )

  emptied_ends :
      {s : System} {k : ℕ} {got : Message} → s.pc k ≡ emptied got → (t : System) × Took k s t
  emptied_ends {s} e =
      (_, record { went = goes e unlock_wr; written_eq = append-nil s.written; wr_free = refl })

  moved-Wrote :
      {s t : System} {k : ℕ} {p : Pc} {msg : Message}
      → Went k p s t
      → t.written ≡ s.written
      → t.taken ≡ s.taken
      → (v : System) × Wrote k msg t v
      → (v : System) × Wrote k msg s v
  moved-Wrote a w r (v, o) = (
    v,
    record {
      went = Went-trans a o.went;
      written_eq = rw⁻¹ w o.written_eq;
      taken_eq = o.taken_eq ∙ r;
      rd_free = o.rd_free;
    },
  )

  moved-Took :
      {s t : System} {k : ℕ} {p : Pc}
      → Went k p s t
      → t.written ≡ s.written
      → (v : System) × Took k t v
      → (v : System) × Took k s v
  moved-Took a w (v, o) =
      (v, record { went = Went-trans a o.went; written_eq = o.written_eq ∙ w; wr_free = o.wr_free })

  storing_over :
      (s : System) (k i : ℕ) (msg : Message)
      → u.size ≤ 4 * i
      → s.pc k ≡ storing i msg
      → (t : System) × Wrote k msg s t
  storing_over s k i msg le e =
      let w = quietly s k e (end_store le) in moved-Wrote w refl refl (stored_ends w.own)

  loading_over :
      (s : System) (k i : ℕ) (got : Message)
      → u.size ≤ 4 * i
      → s.pc k ≡ loading i got
      → (t : System) × Took k s t
  loading_over s k i got le e =
      let w = quietly s k e (end_load le) in moved-Took w refl (emptied_ends w.own)

  -- The loops end within `n` more rounds.
  storing_ends :
      (n : ℕ) (s : System) (k i : ℕ) (msg : Message)
      → 4 * rounds u.size ≤ u.room
      → rounds u.size ≤ i + n
      → s.pc k ≡ storing i msg
      → (t : System) × Wrote k msg s t
  unfolding rounds
  storing_ends zero s k i msg fits le e = storing_over s k i msg (omega arith) e
  storing_ends (suc n) s k i msg fits le e = elim (dec_lt (4 * i) u.size) [
    | no no_more ↦ storing_over s k i msg (omega arith) e
    | yes lt ↦
        let w = quietly s k e (store lt (omega arith)) in
        moved-Wrote w refl refl (storing_ends n _ k (i + 1) msg fits (omega arith) w.own)
  ]

  loading_ends :
      (n : ℕ) (s : System) (k i : ℕ) (got : Message)
      → 4 * rounds u.size ≤ u.room
      → rounds u.size ≤ i + n
      → s.pc k ≡ loading i got
      → (t : System) × Took k s t
  unfolding rounds
  loading_ends zero s k i got fits le e = loading_over s k i got (omega arith) e
  loading_ends (suc n) s k i got fits le e = elim (dec_lt (4 * i) u.size) [
    | no no_more ↦ loading_over s k i got (omega arith) e
    | yes lt ↦
        let w = quietly s k e (load lt (omega arith)) in
        let c = quietly _ k w.own clear in
        moved-Took w refl
          (moved-Took c refl (loading_ends n _ k (i + 1) _ fits (omega arith) c.own))
  ]

  pub writes_out :
      (s : System) (k i : ℕ) (msg : Message)
      → 4 * rounds u.size ≤ u.room
      → s.pc k ≡ storing i msg
      → (t : System) × Wrote k msg s t
  writes_out s k i msg fits = storing_ends (rounds u.size) s k i msg fits (omega arith)

  pub reads_out :
      (s : System) (k i : ℕ) (got : Message)
      → 4 * rounds u.size ≤ u.room
      → s.pc k ≡ loading i got
      → (t : System) × Took k s t
  reads_out s k i got fits = loading_ends (rounds u.size) s k i got fits (omega arith)

  -- A process that is inside comes out, and one of the futexes is free then.
  pub data Freed (k : ℕ) (s t : System) : Type 0 where
    wr : Went k out s t → t.shared.wr_fux ≡ unlocked → Freed k s t
    rd : Went k out s t → t.shared.rd_fux ≡ unlocked → Freed k s t

  Wrote-Freed :
      {k : ℕ} {msg : Message} {s : System}
      → (t : System) × Wrote k msg s t
      → (t : System) × Freed k s t
  Wrote-Freed (t, o) = (t, rd o.went o.rd_free)

  Took-Freed : {k : ℕ} {s : System} → (t : System) × Took k s t → (t : System) × Freed k s t
  Took-Freed (t, o) = (t, wr o.went o.wr_free)

  pub comes_out :
      (s : System) (k : ℕ) (p : Pc)
      → 4 * rounds u.size ≤ u.room
      → is_inside p ≡ true
      → s.pc k ≡ p
      → (t : System) × Freed k s t
  comes_out s k (storing i msg) fits h e = Wrote-Freed (writes_out s k i msg fits e)
  comes_out s k (stored msg) fits h e = Wrote-Freed (stored_ends e)
  comes_out s k (loading i got) fits h e = Took-Freed (reads_out s k i got fits e)
  comes_out s k (clearing i got) fits h e =
      let c = quietly s k e clear in
      Took-Freed (moved-Took c refl (reads_out _ k (i + 1) got fits c.own))
  comes_out s k (emptied got) fits h e = Took-Freed (emptied_ends e)
  comes_out s k p fits h e = absurd (cc h)
