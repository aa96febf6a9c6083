-- ===== src/Shm/Channel/Stores.antt =====
-- `udo_shm_data_write` as a whole call and as steps of one process, while no other moves
use native.Mathlib.Decide.{dec_lt}
use libcando.Base.{
  ℕ, zero, suc, ◌+◌, ◌*◌, ◌<◌, ◌≤◌, ◌≡◌, refl, ◌∙◌, ◌≢◌, arith, some, List, [], ◌∷◌, ◌++◌, length,
  get_or, ok,
}
use libcando.Base.Memory.{Mem, memcpy, load32}
use libcando.Futex.{unlocked}
use libcando.Shm.{Proc, Segment, eintr}
use libcando.Shm.Transfer.{write_loop, done, send}
use libcando.Shm.Transfer.Calls.{rounds, send_free}
use libcando.Shm.Transfer.Copies.{write_loop-step, write_loop-stop}
use libcando.Shm.Transfer.Bytes.{AllBytes, write_loop-AllBytes}
use libcando.Shm.Channel.{
  Use, Message, Shared, Pc, out, storing, stored, Move, write, lock_wr, store, end_store, unlock_rd,
  System,
}
use libcando.Shm.Channel.Ints.{Ints, store_int-Ints}
use libcando.Shm.Channel.Runs.{Went, Went-trans, moved, quietly, goes}

-- The ints of a buffer, `n` from the `i`th on
abbrev pub ints_of : (n i : ℕ) → Mem → Message
ints_of zero i buffer = []
ints_of (suc n) i buffer = load32 buffer (4 * i) ∷ ints_of n (i + 1) buffer

length-ints_of : (n i : ℕ) (buffer : Mem) → length (ints_of n i buffer) ≡ n
length-ints_of zero i buffer = refl
length-ints_of (suc n) i buffer = omega (arith, length-ints_of n (i + 1) buffer)

get_or-ints_of :
    (n i j : ℕ) (buffer : Mem)
    → j < n
    → get_or (ints_of n i buffer) j 0 ≡ load32 buffer (4 * (i + j))
get_or-ints_of zero i j buffer h = absurd (omega arith)
get_or-ints_of (suc n) i zero buffer h = let e : i + 0 ≡ i = omega arith in rw e refl
get_or-ints_of (suc n) i (suc j) buffer h =
    let e : i + 1 + j ≡ i + suc j = omega arith in
    rw e at (get_or-ints_of n (i + 1) j buffer (omega arith))

-- The whole-call model's memory and that of the steps are alike at the process's entry.
pub record Alike (p : Proc) (seg : Segment) (m : Shared) : Type 0 where
  pub wr_eq : m.wr_fux ≡ seg.words p.wr_fux
  pub rd_eq : m.rd_fux ≡ seg.words p.rd_fux
  pub ints : Ints p.data_off seg.bytes m

module _ (u : Use) where
  -- Process `k` comes to `p` while no message is written or read in full, and no futex changes.
  pub record Alone (k : ℕ) (p : Pc) (s t : System) : Type 0 where
    pub went : Went u k p s t
    pub written_eq : t.written ≡ s.written
    pub taken_eq : t.taken ≡ s.taken
    pub wr_eq : t.shared.wr_fux ≡ s.shared.wr_fux
    pub rd_eq : t.shared.rd_fux ≡ s.shared.rd_fux

  pub Alone-trans :
      {k : ℕ} {p q : Pc} {s t v : System} → Alone k p s t → Alone k q t v → Alone k q s v
  Alone-trans a b = record {
    went = Went-trans u a.went b.went;
    written_eq = b.written_eq ∙ a.written_eq;
    taken_eq = b.taken_eq ∙ a.taken_eq;
    wr_eq = b.wr_eq ∙ a.wr_eq;
    rd_eq = b.rd_eq ∙ a.rd_eq;
  }

  -- A step that changes ints at most
  pub steps :
      (s : System) (k : ℕ) {p q : Pc} {ints : ℕ → ℕ}
      → s.pc k ≡ p
      → Move u s.shared p (record (s.shared) { ints = ints }) q [] []
      → Alone k q s (moved u s k (record (s.shared) { ints = ints }) q)
  steps s k e mv = record {
    went = quietly u s k e mv;
    written_eq = refl;
    taken_eq = refl;
    wr_eq = refl;
    rd_eq = refl;
  }

  -- The loop, within `n` more rounds
  storing-Ints :
      (n : ℕ) (s : System) (k i to : ℕ) (msg : Message) (bytes buffer : Mem)
      → 4 * rounds u.size ≤ u.room
      → rounds u.size ≤ i + n
      → s.pc k ≡ storing i msg
      → ((j : ℕ) → j < rounds u.size → get_or msg j 0 ≡ load32 buffer (4 * j))
      → Ints to bytes s.shared
      → (t : System) × Alone k (stored msg) s t
        × Ints to (write_loop n (4 * i) u.size to bytes buffer) t.shared
  unfolding rounds
  storing-Ints zero s k i to msg bytes buffer fits le e c h = (
    _,
    steps s k e (end_store (omega arith)),
    rw (write_loop-stop zero (4 * i) u.size to bytes buffer (omega arith)) h,
  )
  storing-Ints (suc n) s k i to msg bytes buffer fits le e c h = elim (dec_lt (4 * i) u.size) [
    | no no_more ↦ (
      _,
      steps s k e (end_store (omega arith)),
      rw (write_loop-stop (suc n) (4 * i) u.size to bytes buffer (omega arith)) h,
    )
    | yes lt ↦
        let a = steps s k e (store lt (omega arith)) in
        let next : 4 * (i + 1) ≡ 4 * i + 4 = omega arith in
        let (t, b, g) =
          storing-Ints n _ k (i + 1) to msg (memcpy bytes (to + 4 * i) buffer (4 * i) 4) buffer fits
            (omega arith) a.went.own c
            (store_int-Ints to i (get_or msg i 0) bytes buffer s.shared h (c i (omega arith))) in
        (
          t,
          Alone-trans a b,
          rw (write_loop-step n (4 * i) u.size to bytes buffer lt) (rw next at g),
        )
  ]

  -- Where a whole call of a process that finds its futex free leads, in the model of the steps
  pub record Called (s : System) (k : ℕ) (p : Proc) (seg : Segment) (ws rs : List Message)
      : Type 0 where
    pub after : System
    pub went : Went u k out s after
    pub alike : Alike p seg after.shared
    pub written_eq : after.written ≡ s.written ++ ws
    pub taken_eq : after.taken ≡ s.taken ++ rs

  -- A write that finds its futex free
  pub send-Called :
      (limit : ℕ) (s : System) (k : ℕ) (p : Proc) (seg : Segment) (errno : ℕ) (buffer : Mem)
      → 4 * rounds u.size ≤ u.room
      → p.data_off + u.room ≡ limit
      → s.pc k ≡ out
      → Alike p seg s.shared
      → seg.words p.wr_fux ≡ unlocked
      → p.rd_fux ≢ p.wr_fux
      → errno ≢ eintr
      → AllBytes seg.bytes
      → AllBytes buffer
      → (seg' : Segment) × (send limit (some p) seg errno u.size buffer ≡ ok (done seg' buffer))
        × (seg'.words p.rd_fux ≡ unlocked)
        × AllBytes seg'.bytes
        × Called s k p seg' (ints_of (rounds u.size) 0 buffer ∷ []) []
  unfolding rounds
  send-Called limit s k p seg errno buffer fits end e a free ne steady small small' =
      let msg = ints_of (rounds u.size) 0 buffer in
      let within : p.data_off + 4 * rounds u.size ≤ limit = omega arith in
      let enough : rounds u.size ≤ 0 + u.size = omega arith in
      let carries : (j : ℕ) → j < rounds u.size → get_or msg j 0 ≡ load32 buffer (4 * j) = λ j lt.
        let z : 0 + j ≡ j = omega arith in rw z at (get_or-ints_of (rounds u.size) 0 j buffer lt) in
      let w = quietly u s k e (write msg (length-ints_of (rounds u.size) 0 buffer)) in
      let l = quietly u _ k w.own (lock_wr (a.wr_eq ∙ free)) in
      let (t, b, h) =
        storing-Ints u.size _ k 0 p.data_off msg seg.bytes buffer fits enough l.own carries
          a.ints in
      let g = goes u b.went.own unlock_rd in
      (
        _,
        send_free limit p seg errno u.size buffer within free steady,
        ground arith,
        write_loop-AllBytes u.size 0 u.size p.data_off seg.bytes buffer small small',
        record {
          after = _;
          went = Went-trans u (Went-trans u w l) (Went-trans u b.went g);
          alike = record { wr_eq = b.wr_eq ∙ ground arith; rd_eq = ground arith; ints = h };
          written_eq = rw b.written_eq refl;
          taken_eq = rw b.taken_eq refl;
        },
      )
