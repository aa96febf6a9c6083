-- ===== src/Shm/Channel/Whole.antt =====
-- A message by whole calls and by the steps of the same calls
use libcando.Base.{
  ◌+◌, ap, ◌*◌, ◌≤◌, ℕ, ◌≡◌, ◌≢◌, ◌∙◌, inl, inr, arith, Bool-cases, some, [], ◌∷◌, ◌++◌, ok, ◌==◌,
}
use mathlib.Core.List.{append-nil}
use libcando.Base.Memory.{Mem}
use libcando.Futex.{unlocked}
use libcando.Shm.{Proc, Segment, eintr}
use libcando.Shm.Transfer.{done, send, receive}
use libcando.Shm.Transfer.Calls.{rounds}
use libcando.Shm.Transfer.Bytes.{AllBytes}
use libcando.Shm.Channel.{Use, Message, out, System}
use libcando.Shm.Channel.Runs.{Later, Later-trans, Went}
use libcando.Shm.Channel.Stores.{ints_of, Alike, send-Called}
use libcando.Shm.Channel.Loads.{receive-Called}

module _ (u : Use) where
  abbrev message : Mem → Message
  message buffer = ints_of (rounds u.size) 0 buffer

  -- Where further steps lead that write and read a message
  pub record Passed (s : System) (p : Proc) (seg : Segment) (sent got : Mem) : Type 0 where
    pub after : System
    pub run : Later u s after
    pub alike : Alike p seg after.shared
    pub written_eq : after.written ≡ s.written ++ (message sent ∷ [])
    pub taken_eq : after.taken ≡ s.taken ++ (message got ∷ [])

  -- The caller of the read is outside after the write, be it the one that wrote or another.
  still_out : {s t : System} (k j : ℕ) → Went u k out s t → s.pc j ≡ out → t.pc j ≡ out
  still_out k j w e = elim (Bool-cases (k == j)) [
    | inl same ↦ let a : k ≡ j = ground arith in rw a at w.own
    | inr other ↦ w.others j other ∙ e
  ]

  -- Two processes, or one, outside the calls, a message that in whole `int`s ends inside the mapping
  -- of `limit` bytes, and an entry whose write futex is free and whose
  -- segment has bytes, like the buffer: `udo_shm_data_write` as a whole and then `udo_shm_data_read`
  -- as a whole, with no errno that is EINTR, return 0, and the steps of these two calls, one after
  -- the other, lead to a state with the same futexes and the same ints in the segment; there the ints
  -- of the writer's buffer are the message that was written, and those of the reader's buffer the one
  -- that was read.
  pub write_read-Passed :
      (limit : ℕ) (s : System) (k j : ℕ) (p : Proc) (seg : Segment) (errno errno' : ℕ)
      (sent into : Mem)
      → 4 * rounds u.size ≤ u.room
      → p.data_off + u.room ≡ limit
      → s.pc k ≡ out
      → s.pc j ≡ out
      → Alike p seg s.shared
      → AllBytes seg.bytes
      → AllBytes sent
      → seg.words p.wr_fux ≡ unlocked
      → p.rd_fux ≢ p.wr_fux
      → errno ≢ eintr
      → errno' ≢ eintr
      → (full after : Segment) × (got : Mem) × (send limit (some p) seg errno u.size sent
          ≡ ok (done full sent))
        × (receive limit (some p) full errno' u.size into ≡ ok (done after got))
        × Passed s p after sent got
  write_read-Passed limit s k j p seg errno errno' sent into fits end ek ej a small small' free ne
        steady steady' =
      let (full, o, unread, small1, c) =
        send-Called u limit s k p seg errno sent fits end ek a free ne steady small small' in
      let (after, got, o', d) =
        receive-Called u limit c.after j p full errno' into fits end (still_out k j c.went ej)
          c.alike small1 unread ne steady' in
      (
        full,
        after,
        got,
        o,
        o',
        record {
          after = d.after;
          run = Later-trans u c.went.run d.went.run;
          alike = d.alike;
          written_eq = d.written_eq ∙ append-nil c.after.written ∙ c.written_eq;
          taken_eq =
              d.taken_eq ∙ ap (λ l. l ++ (message got ∷ [])) (c.taken_eq ∙ append-nil s.taken);
        },
      )
