-- ===== src/Shm/Segments.antt =====
-- Where `p_shm_create` puts the processes' futexes and segments
use libcando.Base.{
  ℕ, zero, suc, ◌+◌, ◌*◌, ◌^◌, ◌<◌, ◌≡◌, refl, ◌∙◌, arith, none, some, length, get_or, ◌==◌,
  if◌then◌else◌, add64,
}
use libcando.Futex.{locked, unlocked}
use libcando.Shm.{Proc, exchange, place}

abbrev pub slot : (fux_off data_off size i : ℕ) → Proc
slot fux_off data_off size i = record {
  rd_fux = fux_off + 8 * i;
  wr_fux = fux_off + 8 * i + 4;
  data_off = data_off + size * i;
  data_sz = size;
}

-- The processes' entries follow each other, as long as the segments end below 2 ^ 64.
pub place-slot :
    (n fux_off data_off size : ℕ) (words : ℕ → ℕ) (i : ℕ)
    → i < n
    → data_off + size * n < 2 ^ 64
    → get_or ((place n fux_off data_off size words).0) i none ≡ some (slot fux_off data_off size i)
unfolding place
place-slot zero fux_off data_off size words i h small = absurd (omega arith)
place-slot (suc n) fux_off data_off size words zero h small =
    let e : fux_off + 8 * 0 ≡ fux_off = omega arith in
    let d : data_off + size * 0 ≡ data_off = omega arith in rw (e, d) refl
place-slot (suc n) fux_off data_off size words (suc i) h small =
    let e : fux_off + 8 * suc i ≡ fux_off + 8 + 8 * i = omega arith in
    let d : data_off + size * suc i ≡ data_off + size + size * i = omega arith in
    let a : add64 data_off size ≡ data_off + size = omega arith in
    rw (e, d, a)
      (place-slot n (fux_off + 8) (data_off + size) size
        (exchange (exchange words fux_off locked) (fux_off + 4) unlocked) i (omega arith)
        (omega arith))

pub length-place :
    (n fux_off data_off size : ℕ) (words : ℕ → ℕ)
    → length ((place n fux_off data_off size words).0) ≡ n
unfolding place
length-place zero fux_off data_off size words = refl
length-place (suc n) fux_off data_off size words = omega (
  arith,
  length-place n (fux_off + 8) (add64 data_off size) size
      (exchange (exchange words fux_off locked) (fux_off + 4) unlocked),
)

-- The words before the place of the loop stay.
pub place-before :
    (n fux_off data_off size : ℕ) (words : ℕ → ℕ) (w : ℕ)
    → w < fux_off
    → (place n fux_off data_off size words).1 w ≡ words w
unfolding place
place-before zero fux_off data_off size words w h = refl
place-before (suc n) fux_off data_off size words w h =
    place-before n (fux_off + 8) (add64 data_off size) size
      (exchange (exchange words fux_off locked) (fux_off + 4) unlocked) w (omega arith)
    ∙ ground arith

-- Each free read futex is locked, and each write futex stays as it is.
pub place-words :
    (n fux_off data_off size : ℕ) (words : ℕ → ℕ) (i : ℕ)
    → i < n
    → ((place n fux_off data_off size words).1 (fux_off + 8 * i)
        ≡ (if words (fux_off + 8 * i) == unlocked then locked else words (fux_off + 8 * i)))
      × ((place n fux_off data_off size words).1 (fux_off + 8 * i + 4)
          ≡ words (fux_off + 8 * i + 4))
unfolding place
place-words zero fux_off data_off size words i h = absurd (omega arith)
place-words (suc n) fux_off data_off size words zero h =
    let ready = exchange (exchange words fux_off locked) (fux_off + 4) unlocked in
    let later = place-before n (fux_off + 8) (add64 data_off size) size ready in
    let e : fux_off + 8 * 0 ≡ fux_off = omega arith in
    rw e
      (later fux_off (omega arith) ∙ ground arith, later (fux_off + 4) (omega arith) ∙ ground arith)
place-words (suc n) fux_off data_off size words (suc i) h =
    let ready = exchange (exchange words fux_off locked) (fux_off + 4) unlocked in
    let later = place-words n (fux_off + 8) (add64 data_off size) size ready i (omega arith) in
    let e : fux_off + 8 * suc i ≡ fux_off + 8 + 8 * i = omega arith in
    let f : ready (fux_off + 8 + 8 * i) ≡ words (fux_off + 8 + 8 * i) = ground arith in
    let g : ready (fux_off + 8 + 8 * i + 4) ≡ words (fux_off + 8 + 8 * i + 4) = ground arith in
    rw e (rw⁻¹ f (later.0), later.1 ∙ g)

pub place-first :
    (n fux_off data_off size : ℕ) (words : ℕ → ℕ)
    → 0 < n
    → get_or ((place n fux_off data_off size words).0) 0 none
      ≡ some
          (record { rd_fux = fux_off; wr_fux = fux_off + 4; data_off = data_off; data_sz = size })
unfolding place
place-first zero fux_off data_off size words h = absurd (omega arith)
place-first (suc n) fux_off data_off size words h = refl
