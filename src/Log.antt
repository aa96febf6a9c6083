-- ===== src/Log.antt =====
-- src/log.c and include/log.h: the error record that every context starts with, the message filter
-- and the colours. Formatting is not under src/: a call is given the text that it formats to.
pub mod ErrorText
pub mod Messages
use Prim.Native.Char.{code}
use Prim.Native.String.{String}
use Prim.Native.Nat.{bit_and}
use libcando.Base.{
  ℕ, suc, ◌+◌, ◌-◌, ◌^◌, Option, none, some, Bool, not, List, [], ◌∷◌, ◌++◌, length, take, drop,
  replicate, set, get_or, ◌==◌, ltb, if◌then◌else◌, Outcome, ok, fault, ◌>>=◌,
}

-- The bytes of an ASCII text.
abbrev pub codes : String → List ℕ
codes String.[] = []
codes (String.◌∷◌ c s) = code c ∷ codes s

-- `sizeof(error->buffer)`
abbrev pub buffer_size : ℕ
buffer_size = 2 ^ 9

abbrev pub err_uncommon : ℕ
err_uncommon = 0x1000

abbrev pub err_incorrect_data : ℕ
err_incorrect_data = 0x1001

-- `struct udo_log_error_struct`
pub record ErrorStruct : Type 0 where
  pub code : ℕ
  pub buffer : List ℕ

abbrev pub incorrect_data : List ℕ
incorrect_data = codes "Incorrect data passed"

-- `p_get_error`
pub get_common : ℕ → Option (List ℕ)
get_common c = if c == err_incorrect_data then some incorrect_data else none

-- `vsnprintf(buffer, n, …)` where the text formats to `text`: what does not fit with its
-- terminating zero is cut off, and the bytes behind the zero stay.
pub vsnprintf : List ℕ → ℕ → List ℕ → List ℕ
vsnprintf buffer n text =
    let written = take (n - 1) text in written ++ (0 ∷ drop (length written + 1) buffer)

-- The number of bytes before the first zero, or all of them.
pub strnlen : List ℕ → ℕ
strnlen [] = 0
strnlen (c ∷ s) = let rest = suc (strnlen s) in if c == 0 then 0 else rest

-- `strncpy(buffer + offset, string, n)`: cut off at `n` with no zero, or padded with zeros to `n`.
pub strncpy : List ℕ → ℕ → List ℕ → ℕ → List ℕ
strncpy buffer offset string n =
    let copied = take n string in take offset buffer ++ (copied ++ replicate (n - length copied) 0)

-- The end of `udo_log_set_error_struct`: the common text of the code, if it has one.
append_common : ℕ → List ℕ → Option (List ℕ) → ErrorStruct
append_common code printed none = record { code = code; buffer = printed }
append_common code printed (some string) =
    let offset = strnlen printed in
    record { code = code; buffer = strncpy printed offset string (buffer_size - offset) }

-- The writes of `udo_log_set_error_struct` to a context that is not NULL.
pub set_error : ErrorStruct → ℕ → List ℕ → ErrorStruct
unfolding append_common
set_error e code text = append_common code (vsnprintf e.buffer buffer_size text) (get_common code)

-- `udo_log_set_error_struct`
pub set_error_struct : Option ErrorStruct → ℕ → List ℕ → Option ErrorStruct
unfolding set_error
set_error_struct none code text = none
set_error_struct (some e) code text = some (set_error e code text)

-- `udo_log_get_error`: the buffer, which a caller reads as a string.
pub get_error : Option ErrorStruct → Option (List ℕ)
get_error none = none
get_error (some e) = some e.buffer

-- `udo_log_get_error_code`
pub get_error_code : Option ErrorStruct → ℕ
get_error_code none = 2 ^ 32 - 1
get_error_code (some e) = e.code

-- A string read from a buffer: up to the first zero, and a fault if there is none.
pub read_string : List ℕ → Outcome (List ℕ)
read_string [] = fault
read_string (c ∷ s) =
    let rest = read_string s in
    if c == 0 then ok [] else elim rest [ ok t ↦ ok (c ∷ t) | fault ↦ fault ]

-- The file-scope variables of log.c: `writefd`, `log_level` and the 17 pointers of `tcolors`.
pub record Sink : Type 0 where
  pub writefd : ℕ
  pub log_level : ℕ
  pub tcolors : List (Option (List ℕ))

abbrev pub success : ℕ
success = 1

abbrev pub error : ℕ
error = 2

abbrev pub info : ℕ
info = 4

abbrev pub warning : ℕ
warning = 8

abbrev pub reset : ℕ
reset = 16

-- An ANSI sequence: the escape byte and a text.
abbrev pub escape : String → List ℕ
escape s = 27 ∷ codes s

abbrev pub initial_colors : List (Option (List ℕ))
initial_colors =
    some []
    ∷ some (escape "[32;1m")
    ∷ some (escape "[31;1m")
    ∷ none
    ∷ some (escape "[35;1m")
    ∷ none
    ∷ none
    ∷ none
    ∷ some (escape "[33;1m")
    ∷ none
    ∷ none
    ∷ none
    ∷ none
    ∷ none
    ∷ none
    ∷ none
    ∷ some (escape "[0m")
    ∷ []

-- STDOUT_FILENO, UDO_LOG_NONE
abbrev pub initial_sink : Sink
initial_sink = record { writefd = 1; log_level = 0; tcolors = initial_colors }

-- `udo_log_set_level`
unfoldable pub set_level : Sink → ℕ → Sink
set_level s level = record s { log_level = level }

-- `udo_log_set_write_fd`
unfoldable pub set_write_fd : Sink → ℕ → Sink
set_write_fd s fd = record s { writefd = fd }

set_colors : Sink → String → String → String → String → (String → List ℕ) → Sink
set_colors s a b c d text = record s {
  tcolors =
      set
        (set (set (set s.tcolors success (some (text a))) error (some (text b))) info
          (some (text c)))
        warning (some (text d));
}

-- `udo_log_remove_colors`
unfoldable pub remove_colors : Sink → Sink
unfolding set_colors
remove_colors s = set_colors s "[SUCCESS] " "[ERROR] " "[INFO] " "[WARN] " codes

-- `udo_log_reset_colors`
unfoldable pub reset_colors : Sink → Sink
unfolding set_colors
reset_colors s = set_colors s "[32;1m" "[31;1m" "[35;1m" "[33;1m" escape

-- `tcolors[type]`: a fault outside the array, and NULL between the named types.
unfoldable pub get_tcolor : Sink → ℕ → Outcome (Option (List ℕ))
get_tcolor s type = if ltb type (length s.tcolors) then ok (get_or s.tcolors type none) else fault

-- What a call asks of the operating system, in order.
pub data Call : Type 0 where
  lock unlock sync : ℕ → Call
  print : ℕ → List ℕ → Call

-- `dprintf(writefd, "%s", color)`; NULL prints as "(null)".
abbrev pub color_text : Option (List ℕ) → List ℕ
color_text none = codes "(null)"
color_text (some t) = t

-- `type & log_level`
abbrev pub is_wanted : Sink → ℕ → Bool
is_wanted s type = not (bit_and type s.log_level == 0)

-- The calls of `udo_log_time` for a message that passes the filter.
stamped_calls : Sink → List ℕ → List ℕ → Option (List ℕ) → List Call
stamped_calls s stamp text last =
    lock s.writefd
    ∷ print s.writefd stamp
    ∷ print s.writefd text
    ∷ print s.writefd (color_text last)
    ∷ sync s.writefd
    ∷ unlock s.writefd
    ∷ []

-- `udo_log_time`, given the time stamp and the text that the message formats to
pub log_time : Sink → ℕ → List ℕ → List ℕ → Outcome (List Call)
unfolding stamped_calls
log_time s type stamp text =
    if is_wanted s type
    then (do last ← get_tcolor s reset; ok (stamped_calls s stamp text last))
    else ok []

-- `udo_log_notime`
pub log_notime : Sink → ℕ → List ℕ → Outcome (List Call)
log_notime s type text =
    if is_wanted s type
    then (do
      color ← get_tcolor s type
      last ← get_tcolor s reset
      ok (
          print s.writefd (color_text color)
          ∷ print s.writefd text
          ∷ print s.writefd (color_text last)
          ∷ sync s.writefd
          ∷ []))
    else ok []
