-- ===== src/Shm/Channel/Loads.antt =====
-- `udo_shm_data_read` as a whole call and as steps of one process, while no other moves
use native.Mathlib.Decide.{dec_lt}
use libcando.Base.{
  ℕ, zero, suc, ◌+◌, ◌*◌, ◌<◌, ◌≤◌, ◌≡◌, refl, ◌∙◌, ◌≢◌, inl, inr, arith, Bool-cases, true,
  if◌then◌else◌, some, [], ◌∷◌, ◌++◌, length, length-append, get_or, ok, ◌==◌,
}
use libcando.Base.Memory.{Mem, memcpy, memset, load32}
use libcando.Futex.{unlocked}
use libcando.Shm.{Proc, Segment, eintr}
use libcando.Shm.Transfer.{read_loop, done, receive}
use libcando.Shm.Transfer.Calls.{rounds, receive_free}
use libcando.Shm.Transfer.Copies.{read_loop-step, read_loop-stop}
use libcando.Shm.Transfer.Bytes.{AllBytes, memset-AllBytes}
use libcando.Shm.Channel.{
  Use, Message, Pc, out, loading, clearing, emptied, clear_int, read, lock_rd, load, clear,
  end_load, unlock_wr, System,
}
use libcando.Shm.Channel.Ints.{Ints, clear_int-Ints, load32-memcpy, load32-memcpy_out}
use libcando.Shm.Channel.Runs.{moved, Went-trans, quietly, goes}
use libcando.Shm.Channel.Stores.{ints_of, Alike, Alone, Alone-trans, steps, Called}

-- The first `n` ints of the buffer, in a list
record Carried (got : Message) (buffer : Mem) (n : ℕ) : Type 0 where
  sized : length got ≡ n
  ints_eq : (j : ℕ) → j < n → get_or got j 0 ≡ load32 buffer (4 * j)

Carried-ints_of :
    (got : Message) (buffer : Mem) (n i : ℕ)
    → length got ≡ n
    → ((j : ℕ) → j < n → get_or got j 0 ≡ load32 buffer (4 * (i + j)))
    → got ≡ ints_of n i buffer
Carried-ints_of [] buffer zero i l h = refl
Carried-ints_of [] buffer (suc n) i l h = absurd (omega arith)
Carried-ints_of (v ∷ got) buffer zero i l h = absurd (omega arith)
Carried-ints_of (v ∷ got) buffer (suc n) i l h =
    let z : i + 0 ≡ i = omega arith in
    let first : v ≡ load32 buffer (4 * i) = rw z at (h 0 (omega arith)) in
    rw
      (
        first,
        Carried-ints_of got buffer n (i + 1) (omega arith) λ j lt.
            let e : i + suc j ≡ i + 1 + j = omega arith in rw e at (h (suc j) (omega arith)),
      )
      refl

get_or-end :
    (xs : Message) (v j : ℕ)
    → j ≤ length xs
    → get_or (xs ++ (v ∷ [])) j 0 ≡ (if j == length xs then v else get_or xs j 0)
get_or-end [] v zero h = refl
get_or-end [] v (suc j) h = absurd (omega arith)
get_or-end (x ∷ xs) v zero h = ground arith
get_or-end (x ∷ xs) v (suc j) h = get_or-end xs v j (omega arith) ∙ ground arith

-- A round of the loop that loads
load-Carried :
    (got : Message) (buffer bytes : Mem) (i from : ℕ)
    → Carried got buffer i
    → Carried
        (got ++ (load32 bytes (from + 4 * i) ∷ []))
        (memcpy buffer (4 * i) bytes (from + 4 * i) 4)
        (i + 1)
load-Carried got buffer bytes i from c = record {
  sized = omega (arith, length-append got (load32 bytes (from + 4 * i) ∷ []), c.sized);
  ints_eq = λ j lt.
      get_or-end got (load32 bytes (from + 4 * i)) j (omega (arith, c.sized))
      ∙ rw (c.sized) (elim (Bool-cases (j == i)) [
        | inl same ↦
            let a : j ≡ i = ground arith in
            let t : (i == i) ≡ true = ground arith in
            rw (a, t, load32-memcpy buffer bytes (4 * i) (from + 4 * i)) refl
        | inr other ↦
            rw (other, load32-memcpy_out buffer bytes (4 * i) (from + 4 * i) (4 * j) (ground arith))
              (c.ints_eq j (ground arith))
      ]);
}

whole : (got : Message) (buffer : Mem) {n : ℕ} → Carried got buffer n → got ≡ ints_of n 0 buffer
whole got buffer {n} c =
    Carried-ints_of got buffer n 0 (c.sized)
      λ j lt. let z : 0 + j ≡ j = omega arith in rw z (c.ints_eq j lt)

module _ (u : Use) where
  -- What the loop leads to, with the bytes and the buffer that it leaves
  record Loaded (k from : ℕ) (s : System) (left : Mem × Mem) : Type 0 where
    after : System
    got : Message
    alone : Alone u k (emptied got) s after
    ints : Ints from left.0 after.shared
    carried : Carried got left.1 (rounds u.size)

  loading-over :
      (s : System) (k i from : ℕ) (got : Message) (bytes buffer : Mem)
      → u.size ≤ 4 * i
      → i ≤ rounds u.size
      → s.pc k ≡ loading i got
      → Ints from bytes s.shared
      → Carried got buffer i
      → Loaded k from s (bytes, buffer)
  unfolding rounds
  loading-over s k i from got bytes buffer le most e h c = record {
    after = _;
    got = got;
    alone = steps u s k e (end_load le);
    ints = h;
    carried = let all : rounds u.size ≡ i = omega arith in rw all c;
  }

  moved-Loaded :
      {k from : ℕ} {p : Pc} {s t : System} (left : Mem × Mem)
      → Alone u k p s t
      → Loaded k from t left
      → Loaded k from s left
  moved-Loaded left a d = record {
    after = d.after;
    got = d.got;
    alone = Alone-trans u a d.alone;
    ints = d.ints;
    carried = d.carried;
  }

  -- The loop, within `n` more rounds
  loading-Loaded :
      (n : ℕ) (s : System) (k i from : ℕ) (got : Message) (bytes buffer : Mem)
      → 4 * rounds u.size ≤ u.room
      → rounds u.size ≤ i + n
      → i ≤ rounds u.size
      → s.pc k ≡ loading i got
      → Ints from bytes s.shared
      → AllBytes bytes
      → Carried got buffer i
      → Loaded k from s (read_loop n (4 * i) u.size from bytes buffer)
  unfolding rounds
  loading-Loaded zero s k i from got bytes buffer fits le most e h all c =
      rw (read_loop-stop zero (4 * i) u.size from bytes buffer (omega arith))
        (loading-over s k i from got bytes buffer (omega arith) most e h c)
  loading-Loaded (suc n) s k i from got bytes buffer fits le most e h all c =
      elim (dec_lt (4 * i) u.size) [
        | no no_more ↦
            rw (read_loop-stop (suc n) (4 * i) u.size from bytes buffer (omega arith))
              (loading-over s k i from got bytes buffer (omega arith) most e h c)
        | yes lt ↦
            let enough : rounds u.size ≤ i + 1 + n = omega arith in
            let more : i + 1 ≤ rounds u.size = omega arith in
            let next : 4 * (i + 1) ≡ 4 * i + 4 = omega arith in
            let a = steps u s k e (load lt (omega arith)) in
            let got' = got ++ (s.shared.ints (4 * i) ∷ []) in
            let s1 = moved u s k s.shared (clearing i got') in
            let b = steps u s1 k a.went.own clear in
            let s2 = moved u s1 k (clear_int s.shared (4 * i)) (loading (i + 1) got') in
            let d =
              loading-Loaded n s2 k (i + 1) from got' (memset bytes (from + 4 * i) 0 1)
                (memcpy buffer (4 * i) bytes (from + 4 * i) 4) fits enough more b.went.own
                (clear_int-Ints from i bytes s.shared h (all (from + 4 * i)))
                (memset-AllBytes bytes (from + 4 * i) 1 all)
                (rw (h i) (load-Carried got buffer bytes i from c)) in
            rw (read_loop-step n (4 * i) u.size from bytes buffer lt)
              (moved-Loaded _ (Alone-trans u a b) (rw next at d))
      ]

  -- A read that finds its futex free
  pub receive-Called :
      (limit : ℕ) (s : System) (k : ℕ) (p : Proc) (seg : Segment) (errno : ℕ) (buffer : Mem)
      → 4 * rounds u.size ≤ u.room
      → p.data_off + u.room ≡ limit
      → s.pc k ≡ out
      → Alike p seg s.shared
      → AllBytes seg.bytes
      → seg.words p.rd_fux ≡ unlocked
      → p.rd_fux ≢ p.wr_fux
      → errno ≢ eintr
      → (seg' : Segment) × (got : Mem) × (receive limit (some p) seg errno u.size buffer
          ≡ ok (done seg' got))
        × Called u s k p seg' [] (ints_of (rounds u.size) 0 got ∷ [])
  unfolding rounds
  receive-Called limit s k p seg errno buffer fits end e a all free ne steady =
      let within : p.data_off + 4 * rounds u.size ≤ limit = omega arith in
      let enough : rounds u.size ≤ 0 + u.size = omega arith in
      let some_left : 0 ≤ rounds u.size = omega arith in
      let nothing : Carried [] buffer 0 = record {
        sized = refl;
        ints_eq = λ j lt. absurd (omega arith);
      } in
      let w = quietly u s k e read in
      let l = quietly u _ k w.own (lock_rd (a.rd_eq ∙ free)) in
      let d =
        loading-Loaded u.size _ k 0 p.data_off [] seg.bytes buffer fits enough some_left l.own
          a.ints all nothing in
      let b = d.alone in
      let g = goes u b.went.own unlock_wr in
      let msg = whole d.got _ d.carried in
      (
        _,
        _,
        receive_free limit p seg errno u.size buffer within free steady,
        record {
          after = _;
          went = Went-trans u (Went-trans u w l) (Went-trans u b.went g);
          alike = record { wr_eq = ground arith; rd_eq = b.rd_eq ∙ ground arith; ints = d.ints };
          written_eq = rw b.written_eq refl;
          taken_eq = rw (b.taken_eq, msg) refl;
        },
      )
