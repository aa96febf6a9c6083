-- ===== src/Jpool/Layout/Placement.antt =====
-- The queues of a pool lie in its mapping, apart from one another, and are chosen in turn.
use libcando.Base.{
  ◌||◌, ℕ, ap, ◌∙◌, zero, suc, ◌+◌, ◌-◌, ◌*◌, ◌%◌, ◌^◌, ◌≤◌, ◌<◌, ◌≡◌, refl, ◌≢◌, arith, Option,
  none, some, Bool, true, false, List, [], ◌∷◌, leb, ◌==◌, fault, u32, add32, sub32, add64, mul64,
  length, Bool-cases, inl, inr,
}
use native.Mathlib.Nat.{div-add-mod, le-div_iff_mul-le, mod-add-mod, mod-lt}
use native.Mathlib.Decide.{ℕ_discrete}
use libcando.Macros.{page_size}
use libcando.Macros.Align.{byte_align-least}
use libcando.Jpool.{Job, Queue, threads_max, is_full}
use libcando.Jpool.Layout.{
  CreateInfo, Region, Pool, Answers, data_offset, mapping_size, segment_size, place, destroy,
  create, choose, queued, refused, finish_create,
}

-- Queues with segments of `sz` bytes, their words from `words` on below `first`, and their
-- segments one behind the other from `base` on, below `stop`
abbrev pub Placed : (sz first stop words base : ℕ) → List Region → Type 0
Placed sz first stop words base [] = base ≤ stop
Placed sz first stop words base (r ∷ rs) =
    (r.size ≡ sz)
    × (r.base ≡ base)
    × (r.job_free ≡ words)
    × (r.job_count ≡ words + 4)
    × (r.front ≡ words + 8)
    × (r.rear ≡ words + 12)
    × (words + 16 ≤ first)
    × Placed sz first stop (words + 16) (base + sz) rs

place-Placed :
    (starts : ℕ → Bool) (n t sz words base stop first : ℕ)
    → words + 16 * n ≤ first
    → base + n * sz ≤ stop
    → stop < 2 ^ 32
    → first ≤ base
    → Placed sz first stop words base (place starts n t sz base words)
unfolding place
place-Placed starts zero t sz words base stop first fits room small low = omega arith
place-Placed starts (suc n) t sz words base stop first fits room small low =
    elim (Bool-cases (starts t)) [
      | inl runs ↦
          let next : add32 base sz ≡ base + sz = grind arith in
          let words' : add32 words 16 ≡ words + 16 = omega arith in
          let ih =
            place-Placed starts n (t + 1) sz (words + 16) (base + sz) stop first (omega arith)
              (grind arith) small (omega arith) in
          rw (runs, next, words')
            (refl, refl, refl, refl, omega arith, omega arith, omega arith, ih)
      | inr fails ↦ rw fails (grind arith)
    ]

-- The create info, as `udo_jpool_create` accepts it, whose mapping has a 32-bit size
pub record Fits (i : CreateInfo) : Type 0 where
  pub some_size : 0 < i.size
  pub some_count : 0 < i.count
  pub few : i.count < threads_max
  pub small : 4 + 16 * i.count + i.size * i.count + page_size < 2 ^ 32

mapping_size-Fits :
    (i : CreateInfo)
    → Fits i
    → (data_offset i ≡ 4 + 16 * i.count)
      × (4 + 16 * i.count + i.size * i.count ≤ mapping_size i)
      × (mapping_size i < 2 ^ 32)
unfolding mapping_size
mapping_size-Fits i f =
    let whole : data_offset i ≡ 4 + 16 * i.count = omega arith in
    let product : mul64 i.size i.count ≡ i.size * i.count = omega arith in
    let total : add64 (4 + 16 * i.count) (i.size * i.count) ≡ 4 + 16 * i.count + i.size * i.count =
      omega arith in
    let (least, most, aligned) =
      byte_align-least 12 (4 + 16 * i.count + i.size * i.count) (omega arith) (omega arith) in
    (whole, rw (whole, product, total) least, rw (whole, product, total) (omega arith))

pub segment_size-room :
    (i : CreateInfo)
    → Fits i
    → (i.size ≤ segment_size i)
      × (4 + 16 * i.count + i.count * segment_size i ≤ mapping_size i)
      × (segment_size i < 2 ^ 32)
unfolding segment_size
segment_size-room i f =
    let (whole, least, most) = mapping_size-Fits i f in
    let left : sub32 (u32 (mapping_size i)) (data_offset i) ≡ mapping_size i - (4 + 16 * i.count) =
      rw whole (omega arith) in
    rw left (
      (le-div_iff_mul-le f.some_count).1 (omega arith),
      omega (arith, div-add-mod (mapping_size i - (4 + 16 * i.count)) i.count),
      omega (arith, div-add-mod (mapping_size i - (4 + 16 * i.count)) i.count),
    )

-- For a create info that `udo_jpool_create` accepts and whose mapping has a 32-bit size, whichever
-- threads start: every queue's words lie behind the pool's own word and below the segments, four
-- to a queue; the segments follow one another behind all words, inside the mapping; and every
-- segment has at least the size that was asked for.
pub place_lem :
    (starts : ℕ → Bool) (i : CreateInfo)
    → Fits i
    → (i.size ≤ segment_size i)
      × Placed
          (segment_size i)
          (data_offset i)
          (mapping_size i)
          4
          (data_offset i)
          (place starts i.count 0 (segment_size i) (data_offset i) 4)
place_lem starts i f =
    let (whole, least, most) = mapping_size-Fits i f in
    let (asked, inside, small) = segment_size-room i f in
    (
      asked,
      place-Placed starts i.count 0 (segment_size i) 4 (data_offset i) (mapping_size i)
          (data_offset i) (omega arith) (omega arith) most (omega arith),
    )

abbrev pool_or : Option Pool → Pool → Pool
pool_or none p = p
pool_or (some q) p = q

-- The pool after `udo_jpool_add_job` has chosen a queue for each job
pub choose_each : Pool → List Job → Pool
choose_each p [] = p
choose_each p (j ∷ js) = choose_each (pool_or (choose (some p) j).0 p) js

-- Every job has a function and an argument.
abbrev pub AllGiven : List Job → Type 0
AllGiven [] = Unit {0}
AllGiven (j ∷ js) = (j.func ≢ 0) × (j.arg ≢ 0) × AllGiven js

abbrev pub moved_on : Pool → Pool
moved_on p = record p { cur_thread = (p.cur_thread + 1) % p.thread_count }

pub choose-refused :
    (p : Pool) (j : Job)
    → (j.func == 0 || j.arg == 0) ≡ true
    → choose (some p) j ≡ (some p, refused)
unfolding choose
choose-refused p j e = rw e

pub choose-taken :
    (p : Pool) (j : Job)
    → (j.func == 0 || j.arg == 0) ≡ false
    → choose (some p) j ≡ (some (moved_on p), queued p.cur_thread)
unfolding choose
choose-taken p j e = rw e

choose-given :
    (p : Pool) (j : Job)
    → j.func ≢ 0
    → j.arg ≢ 0
    → choose (some p) j ≡ (some (moved_on p), queued p.cur_thread)
unfolding choose
choose-given p j f a =
    let no_func : (j.func == 0) ≡ false = ground arith in
    let no_arg : (j.arg == 0) ≡ false = ground arith in rw (no_func, no_arg)

-- The queues take jobs in turn: after any list of jobs, each with a function and an argument, the
-- next one goes to the queue as many places on as there were jobs, counted round the pool.
pub choose_each-turn :
    (p : Pool) (js : List Job) (j : Job)
    → p.cur_thread < p.thread_count
    → AllGiven js
    → j.func ≢ 0
    → j.arg ≢ 0
    → (choose (some (choose_each p js)) j).1 ≡ queued ((p.cur_thread + length js) % p.thread_count)
unfolding choose_each
choose_each-turn p [] j lt all f a =
    let here : (p.cur_thread + 0) % p.thread_count ≡ p.cur_thread = grind arith in
    rw (choose-given p j f a, here)
choose_each-turn p (k ∷ js) j lt (kf, ka, all) f a =
    let ih = choose_each-turn (moved_on p) js j (mod-lt (p.cur_thread + 1) (omega arith)) all f a in
    let turn =
      mod-add-mod (p.cur_thread + 1) p.thread_count (length js)
      ∙ ap (λ (t : ℕ). t % p.thread_count)
          (let e : p.cur_thread + 1 + length js ≡ p.cur_thread + suc (length js) = omega arith in
            e) in
    rw (choose-given p k kf ka, ← turn) ih

length-place :
    (starts : ℕ → Bool) (n t sz base words s : ℕ)
    → t ≤ s
    → s < t + n
    → starts s ≡ false
    → length (place starts n t sz base words) < n
unfolding place
length-place starts zero t sz base words s lo hi stops = absurd (omega arith)
length-place starts (suc n) t sz base words s lo hi stops = elim (Bool-cases (starts t)) [
  | inl runs ↦ elim (ℕ_discrete t s) [
    | yes same ↦ cc (ap starts same)
    | no other ↦
        let ih =
          length-place starts n (t + 1) sz (add32 base sz) (add32 words 16) s (omega arith)
            (omega arith) stops in
        rw runs (omega (arith, ih))
  ]
  | inr fails ↦ rw fails (omega arith)
]

-- A queue that is too small for one job is never full, as long as its end is not near 2 ^ 32: the
-- subtraction in `p_queue_full` wraps.
pub is_full-tiny : (q : Queue) → q.size < 16 → q.rear + 16 < 2 ^ 32 → is_full q ≡ false
unfolding is_full
is_full-tiny q h k = ground arith

-- Unless every thread starts, `udo_jpool_create` ends in a pool that it cannot destroy: it waits
-- for queues that have no memory, or joins a thread that never ran.
pub create-fault :
    (os : Answers) (i : CreateInfo) (t : ℕ)
    → Fits i
    → os.futex_create ≡ true
    → t < i.count
    → os.pthread_create t ≡ false
    → create os true (some i) ≡ fault
unfolding create destroy finish_create
create-fault os i t f map lt stops =
    let less =
      length-place os.pthread_create i.count 0 (segment_size i) (data_offset i) 4 t (omega arith)
        (omega arith) stops in
    let some_size : (i.size == 0) ≡ false = ground (arith, f.some_size) in
    let some_count : (i.count == 0) ≡ false = ground (arith, f.some_count) in
    let few : leb threads_max i.count ≡ false = ground (arith, f.few) in
    let short : (length (place os.pthread_create i.count 0 (segment_size i) (data_offset i) 4)
          == i.count)
        ≡ false =
      ground arith in
    rw (some_size, some_count, few, map, short)
