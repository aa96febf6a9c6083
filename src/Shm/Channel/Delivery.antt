-- ===== src/Shm/Channel/Delivery.antt =====
-- A message whose writer waits, and a process that waits to read
use libcando.Base.{
  ap, ℕ, ◌*◌, ◌≤◌, ◌≡◌, refl, ◌≢◌, sym, ◌∙◌, arith, inl, inr, Bool-cases, true, false, List, [],
  ◌∷◌, ◌++◌, ◌==◌,
}
use libcando.Futex.{unlocked}
use libcando.Shm.Transfer.Calls.{rounds}
use libcando.Shm.Channel.{Use, Message, Pc, want_wr, want_rd, lock_wr, read, lock_rd, System, Reach}
use libcando.Shm.Channel.Inside.{is_inside, empty, full, stuck, Holds-Quiet, Holds-Both}
use libcando.Shm.Channel.Fifo.{Only, reach-Only}
use libcando.Shm.Channel.Progress.{wr_free, rd_free, within, reach-Open}
use libcando.Shm.Channel.Runs.{
  Later, Later-trans, Later-Reach, quietly, writes_out, reads_out, Freed, wr, rd, comes_out,
}

module _ (u : Use) where
  -- While the write futex is free, all that was written was read.
  free-read : {s : System} (k : ℕ) → Only u s k → s.shared.wr_fux ≡ unlocked → s.written ≡ s.taken
  free-read {s} k o free = elim (Bool-cases (is_inside (s.pc k))) [
    | inl h ↦
        let both = Holds-Both u s.shared s.written s.taken (s.pc k) h o.holds in
        absurd (omega (arith, free, both.0))
    | inr f ↦ elim (Holds-Quiet u s.shared s.written s.taken (s.pc k) f o.holds) [
      | empty w r e ↦ e
      | full msg w r e l c ↦ absurd (omega (arith, free, w))
      | stuck w r b ↦ absurd (omega (arith, free, w))
    ]
  ]

  -- Further steps after which the message is the last one read, and no other is left to read
  pub record Delivered (msg : Message) (s : System) : Type 0 where
    pub after : System
    pub run : Later u s after
    pub before : List Message
    pub read_eq : after.taken ≡ before ++ (msg ∷ [])
    pub all_read : after.written ≡ after.taken

  Delivered-before :
      {msg : Message} {s t : System} → Later u s t → Delivered msg t → Delivered msg s
  Delivered-before a d = record {
    after = d.after;
    run = Later-trans u a d.run;
    before = d.before;
    read_eq = d.read_eq;
    all_read = d.all_read;
  }

  apart : {p q : Pc} (pc : ℕ → Pc) (k j : ℕ) → pc k ≡ p → pc j ≡ q → p ≢ q → (k == j) ≡ false
  apart pc k j e f ne = elim (Bool-cases (k == j)) [
    | inl same ↦ let a : k ≡ j = ground arith in absurd (ne (sym e ∙ ap pc a ∙ f))
    | inr other ↦ other
  ]

module _ {u : Use} {ints : ℕ → ℕ} (k j : ℕ) (msg : Message)
    (fits : 4 * rounds u.size ≤ u.room) where
  -- The writer writes first, and the reader reads that.
  writer_first :
      {s : System}
      → Reach u ints s
      → s.pc k ≡ want_wr msg
      → s.pc j ≡ want_rd
      → s.shared.wr_fux ≡ unlocked
      → Delivered u msg s
  writer_first {s} r ek ej free =
      let f = apart u s.pc k j ek ej (λ e. absurd (cc e)) in
      let a = quietly u s k ek (lock_wr free) in
      let (t, w) = writes_out u _ k 0 msg fits a.own in
      let b = quietly u t j (w.went.others j f ∙ a.others j f ∙ ej) (lock_rd w.rd_free) in
      let (v, o) = reads_out u _ j 0 [] fits b.own in
      let run = Later-trans u (Later-trans u a.run w.went.run) (Later-trans u b.run o.went.run) in
      let (i, only) = reach-Only u (Later-Reach u r run) in
      let all = free-read u i only o.wr_free in
      record {
        after = v;
        run = run;
        before = s.written;
        read_eq = sym all ∙ o.written_eq ∙ w.written_eq;
        all_read = all;
      }

  -- The reader reads what waits first, and calls again.
  reader_first :
      {s : System}
      → Reach u ints s
      → s.pc k ≡ want_wr msg
      → s.pc j ≡ want_rd
      → s.shared.rd_fux ≡ unlocked
      → Delivered u msg s
  reader_first {s} r ek ej free =
      let f = apart u s.pc j k ej ek (λ e. absurd (cc e)) in
      let b = quietly u s j ej (lock_rd free) in
      let (v, o) = reads_out u _ j 0 [] fits b.own in
      let c = quietly u v j o.went.own read in
      let run = Later-trans u (Later-trans u b.run o.went.run) c.run in
      Delivered-before u run (
        writer_first (Later-Reach u r run) (c.others k f ∙ o.went.others k f ∙ b.others k f ∙ ek)
          c.own o.wr_free)

  Freed-Delivered :
      {s t : System} (i : ℕ)
      → Reach u ints s
      → is_inside (s.pc i) ≡ true
      → s.pc k ≡ want_wr msg
      → s.pc j ≡ want_rd
      → Freed u i s t
      → Delivered u msg s
  Freed-Delivered {s} i r h ek ej d =
      let fk = apart u s.pc i k refl ek (λ e. absurd (cc (h, ap is_inside e))) in
      let fj = apart u s.pc i j refl ej (λ e. absurd (cc (h, ap is_inside e))) in
      elim d [
        | wr w e ↦
            Delivered-before u w.run
              (writer_first (Later-Reach u r w.run) (w.others k fk ∙ ek) (w.others j fj ∙ ej) e)
        | rd w e ↦
            Delivered-before u w.run
              (reader_first (Later-Reach u r w.run) (w.others k fk ∙ ek) (w.others j fj ∙ ej) e)
      ]

  -- However many processes write and read messages of one size on an entry, in any order of their
  -- accesses, if a message, in whole `int`s, ends inside the mapping, none attaches and none finds
  -- errno to be EINTR: while one waits to write a message and another waits to read, further steps lead to where that message is the last one read, and no
  -- other is left to read.
  pub reach-Delivered :
      u.attaches ≡ false
      → u.interrupts ≡ false
      → {s : System} → Reach u ints s
      → s.pc k ≡ want_wr msg
      → s.pc j ≡ want_rd
      → Delivered u msg s
  reach-Delivered quiet steady {s} r ek ej = elim (reach-Open quiet steady r) [
    | wr_free e ↦ writer_first r ek ej e
    | rd_free e ↦ reader_first r ek ej e
    | within i h ↦
        let (t, d) = comes_out u s i (s.pc i) fits h refl in Freed-Delivered i r h ek ej d
  ]
