-- ===== src/Tests/LogTests.antt =====
-- src/log.c at concrete values
use Prim.Native.Nat.{bit_and}
use libcando.Base.{
  not, ◌&&◌, ◌==◌, ℕ, zero, suc, ◌≡◌, refl, arith, some, List, [], ◌∷◌, ◌++◌, replicate, ok,
  if◌then◌else◌,
}
use libcando.Log.{
  ErrorStruct, buffer_size, codes, initial_sink, log_time, escape, Call, error, remove_colors,
  reset_colors, get_tcolor, success,
}
use libcando.Log.ErrorText.{IsText}
use libcando.Log.Messages.{
  configure, level, plain, fd, printed, log_time-printed, Setting, last_fd, last_level,
}

abbrev context : ErrorStruct
context = record { code = 0; buffer = replicate buffer_size 0 }

abbrev prefix : List ℕ
prefix = codes "[jpool.c:434] "

IsText-replicate : (n : ℕ) → IsText (replicate n b'x')
IsText-replicate = elim [ zero ↦ tt | suc (n → ih) ↦ (omega arith, ih) ]

colors_come_back : reset_colors (remove_colors initial_sink) ≡ initial_sink
unfolding reset_colors remove_colors
colors_come_back = refl

plain_success : get_tcolor (remove_colors initial_sink) success ≡ ok (some (codes "[SUCCESS] "))
unfolding get_tcolor remove_colors
plain_success = refl

abbrev settings : List Setting
settings = level 6 ∷ plain ∷ fd 3 ∷ []

log_time-printed_example :
    (calls : List Call) × (log_time
        (configure initial_sink settings)
        error
        (codes "now ")
        (codes "oops")
      ≡ ok calls)
    × ((f : ℕ)
        → printed f calls ≡ (
            if (last_fd 1 settings == f) && not (bit_and error (last_level 0 settings) == 0)
            then codes "now " ++ (codes "oops" ++ (escape "[0m" ++ []))
            else []))
log_time-printed_example = log_time-printed settings error (codes "now ") (codes "oops")
