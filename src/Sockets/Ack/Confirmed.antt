-- ===== src/Sockets/Ack/Confirmed.antt =====
-- What a sender may conclude from a confirmed message.
use libcando.Base.{ℕ, suc, ◌+◌, ◌≤◌, true, false, none, some, [], ◌∷◌, length, ◌≡◌, refl, arith}
use libcando.Sockets.System.{has}
use libcando.Sockets.Ack.{
  Network, Link, idle, sending, confirming, Step, send, receive, confirm, lose_message, lose_word,
  interrupt, Steps, stop, go,
}

count_step :
    (n : Network) (l k : Link)
    → length l.confirmed + l.words ≤ length l.received
    → Step n l k
    → length k.confirmed + k.words ≤ length k.received
count_step n l k h (send e) = h
count_step n l k h (receive m rest e) = omega arith
count_step n l k h (confirm m rest e w) = omega (arith, w)
count_step n l k h (lose_message m rest x e) = h
count_step n l k h (lose_word rest x w) = omega (arith, w)
count_step n l k h (interrupt m x e) = h

-- On any network, interruptions included: what was confirmed, with the words that are on their way
-- back, is no more than what was received.
pub confirmed_le :
    (n : Network) (l : Link) → Steps n idle l → length l.confirmed + l.words ≤ length l.received
confirmed_le n l stop = omega arith
confirmed_le n k (go {m} s t) = count_step n m k (confirmed_le n m s) t

-- Without interruptions at most one message, or one word, is on its way, and only while its sender
-- waits.
pub data Phase (l : Link) : Type 0 where
  resting : l.waiting ≡ none → l.messages ≡ [] → l.words ≡ 0 → Phase l
  travelling : (m : ℕ) → l.waiting ≡ some m → l.messages ≡ m ∷ [] → l.words ≡ 0 → Phase l
  answered :
      (m : ℕ)
      → l.waiting ≡ some m
      → l.messages ≡ []
      → l.words ≡ 1
      → has m l.received ≡ true
      → Phase l
  lost : (m : ℕ) → l.waiting ≡ some m → l.messages ≡ [] → l.words ≡ 0 → Phase l

pub Covered : Link → Type 0
Covered l = (m : ℕ) → has m l.confirmed ≡ true → has m l.received ≡ true

Phase-step : (n : Network) (l k : Link) → n.interrupts ≡ false → Phase l → Step n l k → Phase k
Phase-step n l k i (resting w m v) (send e) = travelling l.sent refl (rw (m) refl) v
Phase-step n l k i (resting w m v) (receive a rest e) = absurd (ground (arith, m, e))
Phase-step n l k i (resting w m v) (confirm a rest e x) = absurd (ground (arith, w, e))
Phase-step n l k i (resting w m v) (lose_message a rest x e) = absurd (ground (arith, m, e))
Phase-step n l k i (resting w m v) (lose_word rest x e) = absurd (ground (arith, v, e))
Phase-step n l k i (resting w m v) (interrupt a x e) = absurd (ground (arith, i, x))
Phase-step n l k i (travelling m w ms v) (send e) = absurd (ground (arith, w, e))
Phase-step n l k i (travelling m w ms v) (receive a rest e) =
    answered m w (ground (arith, ms, e)) (omega (arith, v)) (ground (arith, ms, e))
Phase-step n l k i (travelling m w ms v) (confirm a rest e x) = absurd (omega (arith, v, x))
Phase-step n l k i (travelling m w ms v) (lose_message a rest x e) =
    lost m w (ground (arith, ms, e)) v
Phase-step n l k i (travelling m w ms v) (lose_word rest x e) = absurd (omega (arith, v, e))
Phase-step n l k i (travelling m w ms v) (interrupt a x e) = absurd (ground (arith, i, x))
Phase-step n l k i (answered m w ms v h) (send e) = absurd (ground (arith, w, e))
Phase-step n l k i (answered m w ms v h) (receive a rest e) = absurd (ground (arith, ms, e))
Phase-step n l k i (answered m w ms v h) (confirm a rest e x) =
    resting refl ms (omega (arith, v, x))
Phase-step n l k i (answered m w ms v h) (lose_message a rest x e) = absurd (ground (arith, ms, e))
Phase-step n l k i (answered m w ms v h) (lose_word rest x e) = lost m w ms (omega (arith, v, e))
Phase-step n l k i (answered m w ms v h) (interrupt a x e) = absurd (ground (arith, i, x))
Phase-step n l k i (lost m w ms v) (send e) = absurd (ground (arith, w, e))
Phase-step n l k i (lost m w ms v) (receive a rest e) = absurd (ground (arith, ms, e))
Phase-step n l k i (lost m w ms v) (confirm a rest e x) = absurd (omega (arith, v, x))
Phase-step n l k i (lost m w ms v) (lose_message a rest x e) = absurd (ground (arith, ms, e))
Phase-step n l k i (lost m w ms v) (lose_word rest x e) = absurd (omega (arith, v, e))
Phase-step n l k i (lost m w ms v) (interrupt a x e) = absurd (ground (arith, i, x))

pub Phase-of : (n : Network) (l : Link) → n.interrupts ≡ false → Steps n idle l → Phase l
Phase-of n l i stop = resting refl refl refl
Phase-of n k i (go {m} s t) = Phase-step n m k i (Phase-of n m i s) t

-- With interruptions that is lost: a word that was left behind by an interrupted sender confirms
-- the next message, whether or not it is received.
pub stale-confirms :
    (n : Network) (l : Link) (words : ℕ)
    → n.loses ≡ true
    → l.waiting ≡ none
    → l.messages ≡ []
    → l.words ≡ suc words
    → has l.sent l.received ≡ false
    → (k : Link) × Steps n l k × (has l.sent k.confirmed ≡ true) × (has l.sent k.received ≡ false)
stale-confirms n l words x w ms v r = (
  confirming l.sent words (record (sending l) { messages = [] }),
  go (go (go stop (send w)) (lose_message l.sent [] x (rw (ms) refl)))
      (confirm l.sent words refl v),
  ground arith,
  r,
)
