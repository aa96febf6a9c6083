-- ===== src/Jpool/Layout/Created.antt =====
-- What a pool that `udo_jpool_create` makes looks like
use libcando.Base.{
  ℕ, zero, suc, ◌+◌, ◌<◌, ◌≡◌, refl, ap, arith, Bool, true, false, Bool-cases, inl, inr, ◌||◌, ◌==◌,
  not, some, List, [], ◌∷◌, length, ok, leb, add32, u32,
}
use libcando.Jpool.{threads_max}
use libcando.Jpool.Layout.Placement.{Fits}
use libcando.Jpool.Layout.{
  CreateInfo, Region, Pool, Answers, data_offset, mapping_size, segment_size, place, create,
  destroy, finish_create,
}

-- Every queue has this size.
abbrev pub AllSized : ℕ → List Region → Type 0
AllSized size [] = Unit {0}
AllSized size (r ∷ rs) = (r.size ≡ size) × AllSized size rs

place-AllSized :
    (starts : ℕ → Bool) (n t size data_off offset : ℕ)
    → AllSized size (place starts n t size data_off offset)
unfolding place
place-AllSized starts zero t size data_off offset = tt
place-AllSized starts (suc n) t size data_off offset =
    ground (arith, place-AllSized starts n (t + 1) size (add32 data_off size) (add32 offset 16))

pub record Created (i : CreateInfo) (p : Pool) : Type 0 where
  pub sized : AllSized (segment_size i) p.regions
  pub threads : length p.regions ≡ p.thread_count
  pub turn : p.cur_thread < p.thread_count

finish_create-eq :
    (q p : Pool) → finish_create q ≡ ok (some p) → (p ≡ q) × (length q.regions ≡ q.thread_count)
unfolding finish_create destroy
finish_create-eq q p e = ground arith

pub create-Created :
    (os : Answers) (own : Bool) (i : CreateInfo) (p : Pool)
    → create os own (some i) ≡ ok (some p)
    → Created i p
unfolding create
create-Created os own i p e =
    elim (Bool-cases (i.size == 0 || i.count == 0 || leb threads_max i.count)) [
      | inl bad ↦ absurd (cc (rw bad at e))
      | inr good ↦ elim (Bool-cases (not (own || os.calloc) || not os.futex_create)) [
        | inl fails ↦ absurd (cc (rw (good, fails) at e))
        | inr made ↦
            let (same, threads) = finish_create-eq _ p (rw (good, made) at e) in
            rw (same) (record {
              sized = place-AllSized os.pthread_create i.count 0 (segment_size i) (data_offset i) 4;
              threads = threads;
              turn = ground (arith, good);
            })
      ]
    ]

-- The system gives the pool its memory, its mapping and its threads.
pub record Gives (os : Answers) (own : Bool) : Type 0 where
  pub memory : (own || os.calloc) ≡ true
  pub mapping : os.futex_create ≡ true
  pub threads : (t : ℕ) → os.pthread_create t ≡ true

length-place :
    (starts : ℕ → Bool) (n t size data_off offset : ℕ)
    → ((k : ℕ) → starts k ≡ true)
    → length (place starts n t size data_off offset) ≡ n
unfolding place
length-place starts zero t size data_off offset all = refl
length-place starts (suc n) t size data_off offset all =
    rw (all t)
      (ap suc (length-place starts n (t + 1) size (add32 data_off size) (add32 offset 16) all))

finish_create-made : (p : Pool) → length p.regions ≡ p.thread_count → finish_create p ≡ ok (some p)
unfolding finish_create
finish_create-made p e =
    let t : (length p.regions == p.thread_count) ≡ true = ground (arith, e) in rw t refl

abbrev made_pool : Answers → Bool → CreateInfo → Pool
made_pool os own i = record {
  free = not own;
  queue_sz = u32 (mapping_size i);
  cur_thread = 0;
  thread_count = i.count;
  regions = place os.pthread_create i.count 0 (segment_size i) (data_offset i) 4;
}

pub create-made :
    (os : Answers) (own : Bool) (i : CreateInfo)
    → Fits i
    → Gives os own
    → (p : Pool) × (create os own (some i) ≡ ok (some p)) × Created i p
unfolding create
create-made os own i f g =
    let good : (i.size == 0 || i.count == 0 || leb threads_max i.count) ≡ false =
      ground (arith, f.some_size, f.some_count, f.few) in
    let made : (not (own || os.calloc) || not os.futex_create) ≡ false =
      rw (g.memory, g.mapping) refl in
    let out : create os own (some i) ≡ ok (some (made_pool os own i)) =
      rw (good, made)
        (finish_create-made (made_pool os own i) (
          length-place os.pthread_create i.count 0 (segment_size i) (data_offset i) 4 g.threads)) in
    (made_pool os own i, out, create-Created os own i (made_pool os own i) out)
