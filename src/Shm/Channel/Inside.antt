-- ===== src/Shm/Channel/Inside.antt =====
-- What the process that is inside an entry may rely on, and how its steps keep that.
use libcando.Base.{
  ℕ, suc, ◌*◌, ◌<◌, ◌≤◌, ◌≡◌, Bool, true, false, List, [], ◌∷◌, ◌++◌, length, get_or, take,
}
use libcando.Futex.{locked, unlocked}
use libcando.Shm.Transfer.Calls.{rounds}
use libcando.Shm.Channel.{
  Use, Message, Shared, Pc, out, want_wr, storing, stored, want_rd, loading, clearing, emptied,
}

-- The process holds one of the two locks.
abbrev pub is_inside : Pc → Bool
is_inside out = false
is_inside (want_wr msg) = false
is_inside want_rd = false
is_inside p = true

module _ (u : Use) where
  -- The segment has the ints of a message from `i` on, or before `i`.
  abbrev pub From : ℕ → Message → Shared → Type 0
  From i msg m = (j : ℕ) → i ≤ j → j < rounds u.size → m.ints (4 * j) ≡ get_or msg j 0

  abbrev pub UpTo : ℕ → Message → Shared → Type 0
  UpTo i msg m = (j : ℕ) → j < i → m.ints (4 * j) ≡ get_or msg j 0

  -- All that was written was read, or all but one message.
  pub data Behind (ws rs : List Message) : Type 0 where
    none : ws ≡ rs → Behind ws rs
    one : (msg : Message) → ws ≡ rs ++ (msg ∷ []) → Behind ws rs

  -- What holds while nobody is inside
  pub data Quiet (m : Shared) (ws rs : List Message) : Type 0 where
    empty : m.wr_fux ≡ unlocked → m.rd_fux ≡ locked → ws ≡ rs → Quiet m ws rs
    full :
        (msg : Message)
        → m.wr_fux ≡ locked
        → m.rd_fux ≡ unlocked
        → ws ≡ rs ++ (msg ∷ [])
        → length msg ≡ rounds u.size
        → From 0 msg m
        → Quiet m ws rs
    stuck : m.wr_fux ≡ locked → m.rd_fux ≡ locked → Behind ws rs → Quiet m ws rs

  abbrev pub Both : Shared → Type 0
  Both m = (m.wr_fux ≡ locked) × (m.rd_fux ≡ locked)

  -- What holds while the process at this place is the only one that may be inside
  unfoldable pub Holds : Shared → List Message → List Message → Pc → Type 0
  Holds m ws rs (storing i msg) =
      Both m × (ws ≡ rs) × (length msg ≡ rounds u.size) × (i ≤ rounds u.size) × UpTo i msg m
  Holds m ws rs (stored msg) =
      Both m × (ws ≡ rs) × (length msg ≡ rounds u.size) × UpTo (rounds u.size) msg m
  Holds m ws rs (loading i got) =
      Both m
      × ((msg : Message) × (ws ≡ rs ++ (msg ∷ []))
          × (length msg ≡ rounds u.size)
          × (i ≤ rounds u.size)
          × From i msg m
          × (got ≡ take i msg))
  Holds m ws rs (clearing i got) =
      Both m
      × ((msg : Message) × (ws ≡ rs ++ (msg ∷ []))
          × (length msg ≡ rounds u.size)
          × (suc i ≤ rounds u.size)
          × From i msg m
          × (got ≡ take (suc i) msg))
  Holds m ws rs (emptied got) = Both m × (ws ≡ rs ++ (got ∷ []))
  Holds m ws rs p = Quiet m ws rs

  pub Holds-Both :
      (m : Shared) (ws rs : List Message) (p : Pc) → is_inside p ≡ true → Holds m ws rs p → Both m
  unfolding Holds
  Holds-Both m ws rs (storing i msg) o h = h.0
  Holds-Both m ws rs (stored msg) o h = h.0
  Holds-Both m ws rs (loading i got) o h = h.0
  Holds-Both m ws rs (clearing i got) o h = h.0
  Holds-Both m ws rs (emptied got) o h = h.0
  Holds-Both m ws rs p o h = absurd (cc o)

  pub Holds-Quiet :
      (m : Shared) (ws rs : List Message) (p : Pc)
      → is_inside p ≡ false
      → Holds m ws rs p
      → Quiet m ws rs
  unfolding Holds
  Holds-Quiet m ws rs out o h = h
  Holds-Quiet m ws rs (want_wr msg) o h = h
  Holds-Quiet m ws rs want_rd o h = h
  Holds-Quiet m ws rs p o h = absurd (cc o)

  pub Quiet-Holds :
      (m : Shared) (ws rs : List Message) (p : Pc)
      → is_inside p ≡ false
      → Quiet m ws rs
      → Holds m ws rs p
  unfolding Holds
  Quiet-Holds m ws rs out o h = h
  Quiet-Holds m ws rs (want_wr msg) o h = h
  Quiet-Holds m ws rs want_rd o h = h
  Quiet-Holds m ws rs p o h = absurd (cc o)

  Quiet-Behind : {m : Shared} {ws rs : List Message} → Quiet m ws rs → Behind ws rs
  Quiet-Behind (empty w r e) = none e
  Quiet-Behind (full msg w r e l c) = one msg e
  Quiet-Behind (stuck w r b) = b

  pub Holds-Behind : (m : Shared) (ws rs : List Message) (p : Pc) → Holds m ws rs p → Behind ws rs
  unfolding Holds
  Holds-Behind m ws rs (storing i msg) h = none h.1
  Holds-Behind m ws rs (stored msg) h = none h.1
  Holds-Behind m ws rs (loading i got) h = one h.1.0 h.1.1
  Holds-Behind m ws rs (clearing i got) h = one h.1.0 h.1.1
  Holds-Behind m ws rs (emptied got) h = one got h.1
  Holds-Behind m ws rs p h = Quiet-Behind h
