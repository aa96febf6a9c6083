-- ===== src/Jpool/Fifo/Slots.antt =====
-- The jobs in a range of a queue's slots
use libcando.Base.{ℕ, ◌+◌, ◌*◌, ◌≤◌, ◌<◌, ◌≡◌, refl, ◌≢◌, arith, List, [], ◌∷◌, ◌++◌, length, ◌∙◌}
use libcando.Jpool.{Job, job_size}
use libcando.Jpool.Fifo.{Slots}

pub Slots-end :
    (func arg : ℕ → ℕ) (off : ℕ) (js : List Job) (stop : ℕ)
    → Slots func arg off js stop
    → (off + length js ≤ stop) × (off ≤ stop)
Slots-end func arg off [] stop s = omega arith
Slots-end func arg off (j ∷ js) stop s =
    omega (arith, Slots-end func arg (off + job_size) js stop s.3)

-- A store outside the slots changes none of them.
pub Slots-frame :
    (func arg func' arg' : ℕ → ℕ) (off : ℕ) (js : List Job) (stop : ℕ)
    → ((i : ℕ) → off ≤ i → i < stop → (func' i ≡ func i) × (arg' i ≡ arg i))
    → Slots func arg off js stop
    → Slots func' arg' off js stop
Slots-frame func arg func' arg' off [] stop same s = s
Slots-frame func arg func' arg' off (j ∷ js) stop same (f, a, ne, s) =
    let stop_le = Slots-end func arg (off + job_size) js stop s in
    let here = same off (omega arith) (omega arith) in
    (
      here.0 ∙ f,
      here.1 ∙ a,
      ne,
      Slots-frame func arg func' arg' (off + job_size) js stop (λ i lo hi. same i (omega arith) hi)
          s,
    )

pub Slots-append :
    (func arg : ℕ → ℕ) (off : ℕ) (js : List Job) (j : Job) (stop : ℕ)
    → Slots func arg off js stop
    → func stop ≡ j.func
    → arg stop ≡ j.arg
    → j.func ≢ 0
    → Slots func arg off (js ++ (j ∷ [])) (stop + job_size)
Slots-append func arg off [] j stop s f a ne = rw s (f, a, ne, refl)
Slots-append func arg off (k ∷ js) j stop (fk, ak, nk, s) f a ne =
    (fk, ak, nk, Slots-append func arg (off + job_size) js j stop s f a ne)

pub Slots-length :
    (func arg : ℕ → ℕ) (off : ℕ) (js : List Job) (stop : ℕ)
    → Slots func arg off js stop
    → off + job_size * length js ≡ stop
Slots-length func arg off [] stop s = omega arith
Slots-length func arg off (j ∷ js) stop s =
    omega (arith, Slots-length func arg (off + job_size) js stop s.3)
