-- ===== src/Log/Messages.antt =====
-- The message filter, and what a message that passes it does to the log file.
use libcando.Base.{
  not, ◌&&◌, ℕ, ◌≤◌, ◌≡◌, refl, ◌≢◌, arith, set, ◌∙◌, Option, none, some, List, [], ◌∷◌, ◌++◌,
  length, length-set, get_or, get_or-set_ne, ◌==◌, if◌then◌else◌, ok, fault, ltb, true, false,
  Bool-cases, inl, inr,
}
use libcando.Log.{
  Sink, Call, print, reset, success, error, info, warning, escape, initial_sink, set_level,
  set_write_fd, remove_colors, reset_colors, is_wanted, get_tcolor, log_time, log_notime,
  set_colors, codes, stamped_calls,
}
use Prim.Native.String.{String}
use Prim.Native.Nat.{bit_and}

-- What a list of calls prints to a file, end to end.
abbrev pub printed : ℕ → List Call → List ℕ
printed fd [] = []
printed fd (print f t ∷ cs) = (if f == fd then t else []) ++ printed fd cs
printed fd (_ ∷ cs) = printed fd cs

-- A call that configures the log.
pub data Setting : Type 0 where
  level fd : ℕ → Setting
  plain colored : Setting

unfoldable pub apply : Sink → Setting → Sink
apply s (level l) = set_level s l
apply s (fd f) = set_write_fd s f
apply s plain = remove_colors s
apply s colored = reset_colors s

unfoldable pub configure : Sink → List Setting → Sink
configure s [] = s
configure s (c ∷ rest) = configure (apply s c) rest

-- The array has its 17 entries, and the last one ends every colour.
record IsSink (s : Sink) : Type 0 where
  entries : length s.tcolors ≡ 17
  last : get_or s.tcolors reset none ≡ some (escape "[0m")

set_color : List (Option (List ℕ)) → ℕ → List ℕ → List (Option (List ℕ))
set_color l i t = set l i (some t)

set_color-IsSink :
    (l : List (Option (List ℕ))) (i : ℕ) (t : List ℕ)
    → i ≢ 16
    → (length l ≡ 17) × (get_or l reset none ≡ some (escape "[0m"))
    → (length (set_color l i t) ≡ 17) × (get_or (set_color l i t) reset none ≡ some (escape "[0m"))
unfolding set_color
set_color-IsSink l i t ne (n, e) =
    (length-set l i (some t) ∙ n, get_or-set_ne l i reset (some t) none ne ∙ e)

set_colors-IsSink :
    {s : Sink} (a b c d : String) (text : String → List ℕ)
    → IsSink s
    → IsSink (set_colors s a b c d text)
unfolding set_colors set_color
set_colors-IsSink {s} a b c d text v =
    let one = set_color-IsSink s.tcolors success (text a) (omega arith) (v.entries, v.last) in
    let two = set_color-IsSink _ error (text b) (omega arith) one in
    let three = set_color-IsSink _ info (text c) (omega arith) two in
    let four = set_color-IsSink _ warning (text d) (omega arith) three in
    record { entries = four.0; last = four.1 }

apply-IsSink : {s : Sink} (c : Setting) → IsSink s → IsSink (apply s c)
unfolding apply set_level set_write_fd remove_colors reset_colors
apply-IsSink (level l) v = record { entries = v.entries; last = v.last }
apply-IsSink (fd f) v = record { entries = v.entries; last = v.last }
apply-IsSink plain v = set_colors-IsSink "[SUCCESS] " "[ERROR] " "[INFO] " "[WARN] " codes v
apply-IsSink colored v = set_colors-IsSink "[32;1m" "[31;1m" "[35;1m" "[33;1m" escape v

configure-IsSink : (cs : List Setting) {s : Sink} → IsSink s → IsSink (configure s cs)
unfolding configure
configure-IsSink [] v = v
configure-IsSink (c ∷ cs) v = configure-IsSink cs (apply-IsSink c v)

initial-IsSink : IsSink initial_sink
initial-IsSink = record { entries = refl; last = refl }

get_tcolor-reset : {s : Sink} → IsSink s → get_tcolor s reset ≡ ok (some (escape "[0m"))
unfolding get_tcolor
get_tcolor-reset {s} v = rw (v.entries, v.last)

log_time-wanted :
    (s : Sink) (type : ℕ) (stamp text : List ℕ)
    → IsSink s
    → (calls : List Call) × (log_time s type stamp text ≡ ok calls)
      × ((f : ℕ)
          → printed f calls ≡ (
              if (s.writefd == f) && not (bit_and type s.log_level == 0)
              then stamp ++ (text ++ (escape "[0m" ++ []))
              else []))
unfolding log_time
log_time-wanted s type stamp text v = elim (Bool-cases (is_wanted s type)) [
  | inl wanted ↦ (
    stamped_calls s stamp text (some (escape "[0m")),
    rw (wanted, get_tcolor-reset v) refl,
    λ f. elim (Bool-cases (s.writefd == f)) [
      | inl there ↦ rw (wanted, there) refl
      | inr other ↦ rw (wanted, other) refl
    ],
  )
  | inr quiet ↦ (
    [],
    rw quiet refl,
    λ f. elim (Bool-cases (s.writefd == f)) [
      | inl there ↦ rw (quiet, there) refl
      | inr other ↦ rw (quiet, other) refl
    ],
  )
]

-- `udo_log_notime` looks the message's own type up in the colour array: a message that passes the
-- filter with a type above the array's 17 entries, such as UDO_LOG_ALL, reads outside it.
pub log_notime-fault :
    (cs : List Setting) (type : ℕ) (text : List ℕ)
    → 17 ≤ type
    → is_wanted (configure initial_sink cs) type ≡ true
    → log_notime (configure initial_sink cs) type text ≡ fault
unfolding log_notime get_tcolor
log_notime-fault cs type text h wanted =
    let entries = (configure-IsSink cs initial-IsSink).entries in
    let outside : ltb type 17 ≡ false = ground arith in rw (wanted, entries, outside)

-- The level and the file that the last such call asked for; at first no message passes, and the
-- file is the standard output.
abbrev pub last_level : ℕ → List Setting → ℕ
last_level l [] = l
last_level l (level m ∷ cs) = last_level m cs
last_level l (c ∷ cs) = last_level l cs

abbrev pub last_fd : ℕ → List Setting → ℕ
last_fd f [] = f
last_fd f (fd g ∷ cs) = last_fd g cs
last_fd f (c ∷ cs) = last_fd f cs

configure-last :
    (cs : List Setting) (s : Sink)
    → ((configure s cs).log_level ≡ last_level s.log_level cs)
      × ((configure s cs).writefd ≡ last_fd s.writefd cs)
unfolding configure apply set_level set_write_fd remove_colors reset_colors set_colors
configure-last [] s = (refl, refl)
configure-last (level l ∷ cs) s = configure-last cs (record s { log_level = l })
configure-last (fd f ∷ cs) s = configure-last cs (record s { writefd = f })
configure-last (plain ∷ cs) s = configure-last cs (apply s plain)
configure-last (colored ∷ cs) s = configure-last cs (apply s colored)

-- After any calls that configure the log, `udo_log_time` reaches no entry outside the colour array,
-- and prints to the file of the last udo_log_set_write_fd, or to the standard output, the stamp, the
-- text and the end of the colour, if the message's type has a bit of the level of the last
-- udo_log_set_level, of which there is none at first, and otherwise nothing; to no other file does it
-- print.
pub log_time-printed :
    (cs : List Setting) (type : ℕ) (stamp text : List ℕ)
    → (calls : List Call) × (log_time (configure initial_sink cs) type stamp text ≡ ok calls)
      × ((f : ℕ)
          → printed f calls ≡ (
              if (last_fd 1 cs == f) && not (bit_and type (last_level 0 cs) == 0)
              then stamp ++ (text ++ (escape "[0m" ++ []))
              else []))
log_time-printed cs type stamp text =
    let (calls, out, shown) =
      log_time-wanted (configure initial_sink cs) type stamp text
        (configure-IsSink cs initial-IsSink) in
    let (l, w) = configure-last cs initial_sink in (calls, out, λ f. rw (← l, ← w) (shown f))
