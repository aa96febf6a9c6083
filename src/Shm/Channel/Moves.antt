-- ===== src/Shm/Channel/Moves.antt =====
-- How the steps of a process keep what the one that is inside may rely on.
use mathlib.Core.List.{append-nil}
use native.Mathlib.Numerals.{add-one}
use libcando.Base.{
  ℕ, zero, suc, ◌+◌, ◌*◌, ◌<◌, ◌≡◌, refl, sym, ap, inl, inr, arith, false, Bool-cases, List, [],
  ◌∷◌, ◌++◌, length, get_or, take, ◌==◌, if◌then◌else◌,
}
use libcando.Futex.{locked, unlocked}
use libcando.Shm.Transfer.Calls.{rounds}
use libcando.Shm.Channel.{
  Use, Message, Shared, Pc, want_wr, Move, write, lock_wr, give_up_wr, store, end_store, unlock_rd,
  read, lock_rd, give_up_rd, load, clear, end_load, unlock_wr, attach, store_int, clear_int,
}
use libcando.Shm.Channel.Inside.{
  is_inside, From, UpTo, none, one, Quiet, empty, full, stuck, Both, Holds,
}

take-suc :
    (i : ℕ) (xs : List ℕ) → i < length xs → take (suc i) xs ≡ take i xs ++ (get_or xs i 0 ∷ [])
take-suc i [] h = absurd (omega arith)
take-suc zero (x ∷ xs) h = refl
take-suc (suc i) (x ∷ xs) h = ap (λ l. x ∷ l) (take-suc i xs (omega arith))

take-all : (i : ℕ) (xs : List ℕ) → length xs ≡ i → take i xs ≡ xs
take-all zero [] h = refl
take-all zero (x ∷ xs) h = absurd (omega arith)
take-all (suc i) [] h = refl
take-all (suc i) (x ∷ xs) h = ap (λ l. x ∷ l) (take-all i xs (omega arith))

module _ (u : Use) where
  -- A message that waits for its lock has the size of the call.
  abbrev pub Sized : Pc → Type 0
  Sized (want_wr msg) = length msg ≡ rounds u.size
  Sized p = Unit {0}

  pub Move-Sized :
      {m m' : Shared} {p p' : Pc} {js ks : List Message} → Move u m p m' p' js ks → Sized p'
  Move-Sized (write msg e) = e
  Move-Sized mv = tt

  UpTo-store :
      (i : ℕ) (msg : Message) (m : Shared)
      → UpTo u i msg m
      → UpTo u (i + 1) msg (store_int m (4 * i) (get_or msg i 0))
  UpTo-store i msg m h j lt = elim (Bool-cases (i == j)) [
    | inl same ↦ let e : i ≡ j = ground arith in ground (arith, e)
    | inr other ↦ ground (arith, h j)
  ]

  From-clear :
      (i : ℕ) (msg : Message) (m : Shared)
      → From u i msg m
      → From u (i + 1) msg (clear_int m (4 * i))
  From-clear i msg m h j le lt = ground (arith, h j)

  free_wr :
      {m : Shared} {ws rs : List Message}
      → Quiet u m ws rs
      → m.wr_fux ≡ unlocked
      → (m.rd_fux ≡ locked) × (ws ≡ rs)
  free_wr (empty w r e) f = (r, e)
  free_wr (full msg w r e l c) f = absurd (omega (arith, w, f))
  free_wr (stuck w r b) f = absurd (omega (arith, w, f))

  -- A message waits to be read.
  abbrev Waits : Shared → List Message → List Message → Type 0
  Waits m ws rs =
      (msg : Message) × (ws ≡ rs ++ (msg ∷ [])) × (length msg ≡ rounds u.size) × From u 0 msg m

  free_rd :
      {m : Shared} {ws rs : List Message}
      → Quiet u m ws rs
      → m.rd_fux ≡ unlocked
      → (m.wr_fux ≡ locked) × Waits m ws rs
  free_rd (empty w r e) f = absurd (omega (arith, r, f))
  free_rd (full msg w r e l c) f = (w, (msg, e, l, c))
  free_rd (stuck w r b) f = absurd (omega (arith, r, f))

  attached :
      {m : Shared} {ws rs : List Message}
      → Quiet u m ws rs
      → Quiet u (record m { rd_fux = if m.rd_fux == unlocked then locked else m.rd_fux }) ws rs
  attached (empty w r e) = empty w (rw r refl) e
  attached (full msg w r e l c) = stuck w (rw r refl) (one msg e)
  attached (stuck w r b) = stuck w (rw r refl) b

  pub kept :
      (m : Shared) (p : Pc) (ws rs : List Message)
      → Holds u m ws rs p
      → Holds u m (ws ++ []) (rs ++ []) p
  kept m p ws rs h = rw (append-nil ws, append-nil rs) h

  -- The one process that may be inside makes a step.
  pub Move-Holds :
      {m m' : Shared} {p p' : Pc} {js ks : List Message} (ws rs : List Message)
      → Move u m p m' p' js ks
      → Sized p
      → Holds u m ws rs p
      → Holds u m' (ws ++ js) (rs ++ ks) p'
  unfolding Holds rounds
  Move-Holds {m} {p'} ws rs (write msg e) z h = kept m p' ws rs h
  Move-Holds {m'} {p'} ws rs (lock_wr {msg} e) z h =
      let (locks, eq) = free_wr h e in
      kept m' p' ws rs ((refl, locks), eq, z, omega arith, λ j lt. absurd (omega arith))
  Move-Holds {m'} {p'} ws rs (give_up_wr g e) z h =
      let (locks, eq) = free_wr h e in kept m' p' ws rs (stuck refl locks (none eq))
  Move-Holds {m} {m'} {p'} ws rs (store {i} {msg} lt fits) z (both, eq, len, le, up) =
      kept m' p' ws rs (both, eq, len, omega arith, UpTo-store i msg m up)
  Move-Holds {m'} {p'} ws rs (end_store {i} {msg} le) z (both, eq, len, le', up) =
      kept m' p' ws rs (both, eq, len, λ j lt. up j (omega arith))
  Move-Holds ws rs (unlock_rd {msg}) z (both, eq, len, up) =
      rw (append-nil rs) (full msg both.0 refl (ap (λ l. l ++ (msg ∷ [])) eq) len (λ j a b. up j b))
  Move-Holds {m'} {p'} ws rs read z h = kept m' p' ws rs h
  Move-Holds {m'} {p'} ws rs (lock_rd e) z h =
      let (locks, (msg, eq, len, from)) = free_rd h e in
      kept m' p' ws rs ((locks, refl), (msg, eq, len, omega arith, from, refl))
  Move-Holds {m'} {p'} ws rs (give_up_rd g e) z h =
      let (locks, (msg, eq, len, from)) = free_rd h e in
      kept m' p' ws rs (stuck locks refl (one msg eq))
  Move-Holds {m} {m'} {p'} ws rs (load {i} {got} lt fits) z (both, (msg, eq, len, le, from, e)) =
      kept m' p' ws rs (
        both,
        (
          msg,
          eq,
          len,
          omega arith,
          from,
          rw (e, from i (omega arith) (omega arith)) (sym (take-suc i msg (omega arith))),
        ),
      )
  Move-Holds {m} {m'} {p'} ws rs (clear {i} {got}) z (both, (msg, eq, len, le, from, e)) =
      kept m' p' ws rs
        (both, (msg, eq, len, omega arith, From-clear i msg m from, rw (add-one i) e))
  Move-Holds {m'} {p'} ws rs (end_load {i} {got} le) z (both, (msg, eq, len, le', from, e)) =
      kept m' p' ws rs (both, rw (e, take-all i msg (omega arith)) eq)
  Move-Holds ws rs (unlock_wr {got}) z (both, eq) = rw (append-nil ws) (empty refl both.1 eq)
  Move-Holds {m'} {p'} ws rs (attach g) z h = kept m' p' ws rs (attached h)

  -- A process outside cannot get in while both locks are taken.
  pub blocked :
      {m m' : Shared} {p p' : Pc} {js ks : List Message}
      → Move u m p m' p' js ks
      → is_inside p ≡ false
      → Both u m
      → (m' ≡ m) × (is_inside p' ≡ false) × (js ≡ []) × (ks ≡ [])
  blocked (write msg e) o b = (refl, refl, refl, refl)
  blocked (lock_wr e) o b = absurd (omega arith)
  blocked (give_up_wr g e) o b = absurd (omega arith)
  blocked read o b = (refl, refl, refl, refl)
  blocked (lock_rd e) o b = absurd (omega arith)
  blocked (give_up_rd g e) o b = absurd (omega arith)
  blocked {m} (attach g) o b = (ap (λ v. record m { rd_fux = v }) (ground arith), refl, refl, refl)
  blocked mv o b = absurd (cc o)
