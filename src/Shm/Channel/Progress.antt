-- ===== src/Shm/Channel/Progress.antt =====
-- Where nobody attaches and no call gives up, the processes on an entry do not block each other.
use native.Mathlib.Decide.{dec_lt}
use libcando.Base.{
  ℕ, ◌≤◌, ◌*◌, ◌≡◌, refl, inl, inr, arith, Bool-cases, true, false, List, [], ◌∷◌, ◌++◌, ◌==◌,
}
use libcando.Futex.{unlocked}
use libcando.Shm.Transfer.Calls.{rounds}
use libcando.Shm.Channel.{
  Use, Message, Shared, Pc, storing, stored, loading, clearing, emptied, Move, write, give_up_wr,
  store, end_store, unlock_rd, read, give_up_rd, load, clear, end_load, unlock_wr, attach, System,
  update, moves, Reach, start, later,
}
use libcando.Shm.Channel.Inside.{is_inside, Quiet, empty, full, stuck, Holds-Quiet}
use libcando.Shm.Channel.Fifo.{Only, reach-Only}

abbrev pub CanMove : Use → Shared → Pc → Type 0
CanMove u m p =
    (m' : Shared) × (p' : Pc) × (ws : List Message) × (rs : List Message) × Move u m p m' p' ws rs

inside_moves :
    (u : Use)
    → 4 * rounds u.size ≤ u.room
    → (m : Shared) (p : Pc) → is_inside p ≡ true
    → CanMove u m p
unfolding rounds
inside_moves u fits m (storing i msg) h = elim (dec_lt (4 * i) u.size) [
  | yes lt ↦ (_, _, _, _, store lt (omega arith))
  | no le ↦ (_, _, _, _, end_store (omega arith))
]
inside_moves u fits m (stored msg) h = (_, _, _, _, unlock_rd)
inside_moves u fits m (loading i got) h = elim (dec_lt (4 * i) u.size) [
  | yes lt ↦ (_, _, _, _, load lt (omega arith))
  | no le ↦ (_, _, _, _, end_load (omega arith))
]
inside_moves u fits m (clearing i got) h = (_, _, _, _, clear)
inside_moves u fits m (emptied got) h = (_, _, _, _, unlock_wr)
inside_moves u fits m p h = absurd (cc h)

-- A lock is free, or a process is inside.
pub data Open (m : Shared) (pc : ℕ → Pc) : Type 0 where
  wr_free : m.wr_fux ≡ unlocked → Open m pc
  rd_free : m.rd_fux ≡ unlocked → Open m pc
  within : (k : ℕ) → is_inside (pc k) ≡ true → Open m pc

-- What a step does to that
data Effect (m m' : Shared) (p p' : Pc) : Type 0 where
  frees_wr : m'.wr_fux ≡ unlocked → Effect m m' p p'
  frees_rd : m'.rd_fux ≡ unlocked → Effect m m' p p'
  inside : is_inside p' ≡ true → Effect m m' p p'
  nothing : m' ≡ m → is_inside p ≡ false → Effect m m' p p'

effect-Open :
    {m m' : Shared} {p' : Pc} (pc : ℕ → Pc) (k : ℕ)
    → Effect m m' (pc k) p'
    → Open m pc
    → Open m' (update pc k p')
effect-Open pc k (frees_wr e) o = wr_free e
effect-Open pc k (frees_rd e) o = rd_free e
effect-Open pc k (inside e) o = within k (let t : (k == k) ≡ true = ground arith in rw t e)
effect-Open pc k (nothing e f) (wr_free g) = wr_free (rw e g)
effect-Open pc k (nothing e f) (rd_free g) = rd_free (rw e g)
effect-Open pc k (nothing e f) (within i g) = within i (elim (Bool-cases (k == i)) [
  | inl same ↦ let a : k ≡ i = ground arith in absurd (cc (rw a at f, g))
  | inr other ↦ rw other g
])

-- What can be done next
pub data Ready (u : Use) (s : System) : Type 0 where
  to_write : s.shared.wr_fux ≡ unlocked → s.written ≡ s.taken → Ready u s
  to_read :
      (msg : Message) → s.shared.rd_fux ≡ unlocked → s.written ≡ s.taken ++ (msg ∷ []) → Ready u s
  to_go_on : (k : ℕ) → is_inside (s.pc k) ≡ true → CanMove u s.shared (s.pc k) → Ready u s

module _ {u : Use} (quiet : u.attaches ≡ false) (steady : u.interrupts ≡ false) where
  effect :
      {m m' : Shared} {p p' : Pc} {ws rs : List Message} → Move u m p m' p' ws rs → Effect m m' p p'
  effect (write msg e) = nothing refl refl
  effect (give_up_wr g e) = absurd (cc (g, steady))
  effect (unlock_rd) = frees_rd refl
  effect read = nothing refl refl
  effect (give_up_rd g e) = absurd (cc (g, steady))
  effect unlock_wr = frees_wr refl
  effect (attach g) = absurd (cc (g, quiet))
  effect mv = inside refl

  pub reach-Open : {ints : ℕ → ℕ} {s : System} → Reach u ints s → Open s.shared s.pc
  reach-Open start = wr_free refl
  reach-Open (later {s} r (moves k mv)) = effect-Open s.pc k (effect mv) (reach-Open r)

  quiet-Ready :
      {s : System} (k : ℕ)
      → Only u s k
      → is_inside (s.pc k) ≡ false
      → Open s.shared s.pc
      → Quiet u s.shared s.written s.taken
      → Ready u s
  quiet-Ready k o f a (empty w r e) = to_write w e
  quiet-Ready k o f a (full msg w r e l c) = to_read msg r e
  quiet-Ready k o f (wr_free e) (stuck w r b) = absurd (omega (arith, e, w))
  quiet-Ready k o f (rd_free e) (stuck w r b) = absurd (omega (arith, e, r))
  quiet-Ready {s} k o f (within i g) (stuck w r b) = elim (Bool-cases (k == i)) [
    | inl same ↦ let a : k ≡ i = ground arith in absurd (cc (rw a at f, g))
    | inr other ↦ absurd (cc (o.others i (ground arith), g))
  ]

  -- However many processes write and read messages of one size on an entry, in any order of their
  -- accesses, if a message ends inside the mapping, none attaches meanwhile and none finds errno to be
  -- EINTR: the write futex is free
  -- and every message was read, or the read futex is free and one message waits, or a process is
  -- inside a lock and has a step to make.
  pub reach-Ready :
      4 * rounds u.size ≤ u.room → {ints : ℕ → ℕ} {s : System} → Reach u ints s → Ready u s
  reach-Ready fits {s} r =
      let (k, o) = reach-Only u r in
      elim (Bool-cases (is_inside (s.pc k))) [
        | inl h ↦ to_go_on k h (inside_moves u fits s.shared (s.pc k) h)
        | inr f ↦
            quiet-Ready k o f (reach-Open r)
              (Holds-Quiet u s.shared s.written s.taken (s.pc k) f o.holds)
      ]
