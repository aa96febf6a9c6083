-- ===== src/Log/ErrorText.antt =====
-- What `udo_log_get_error` reads after `udo_log_set_error`.
use libcando.Base.{
  ℕ, zero, suc, ◌+◌, ◌-◌, ◌≤◌, ◌<◌, ◌≡◌, refl, ◌≢◌, ap, arith, Option, none, some, List, [], ◌∷◌,
  ◌++◌, length, take, drop, replicate, length-append, length-take, length-drop, length-replicate,
  inl, inr, Option-cases, Outcome, ok, fault,
}
use mathlib.Core.List.{append_assoc}
use libcando.Log.{
  ErrorStruct, buffer_size, err_incorrect_data, incorrect_data, vsnprintf, strnlen, strncpy,
  set_error_struct, get_error, get_error_code, read_string, set_error, get_common,
}

-- No byte of a formatted text is zero.
abbrev pub IsText : List ℕ → Type 0
IsText [] = Unit {0}
IsText (c ∷ s) = (c ≢ 0) × IsText s

IsText-take : (n : ℕ) (s : List ℕ) → IsText s → IsText (take n s)
IsText-take zero s t = tt
IsText-take (suc n) [] t = tt
IsText-take (suc n) (c ∷ s) t = (t.0, IsText-take n s t.1)

pub IsText-append : (s t : List ℕ) → IsText s → IsText t → IsText (s ++ t)
IsText-append [] t hs ht = ht
IsText-append (c ∷ s) t hs ht = (hs.0, IsText-append s t hs.1 ht)

read_string-text : (s rest : List ℕ) → IsText s → read_string (s ++ (0 ∷ rest)) ≡ ok s
unfolding read_string
read_string-text [] rest t = refl
read_string-text (c ∷ s) rest t = ground (arith, read_string-text s rest t.1)

read_string-fault : (s : List ℕ) → IsText s → read_string s ≡ fault
unfolding read_string
read_string-fault [] t = refl
read_string-fault (c ∷ s) t = ground (arith, read_string-fault s t.1)

strnlen-text : (s rest : List ℕ) → IsText s → strnlen (s ++ (0 ∷ rest)) ≡ length s
unfolding strnlen
strnlen-text [] rest t = refl
strnlen-text (c ∷ s) rest t = ground (arith, strnlen-text s rest t.1)

take-append : (s t : List ℕ) → take (length s) (s ++ t) ≡ s
take-append [] t = refl
take-append (c ∷ s) t = ap (λ r. c ∷ r) (take-append s t)

take_all : (n : ℕ) (s : List ℕ) → length s ≤ n → take n s ≡ s
take_all zero [] h = refl
take_all zero (c ∷ s) h = absurd (omega arith)
take_all (suc n) [] h = refl
take_all (suc n) (c ∷ s) h = ap (λ r. c ∷ r) (take_all n s (omega arith))

read_string-append :
    (s t rest : List ℕ) → IsText s → IsText t → read_string (s ++ (t ++ (0 ∷ rest))) ≡ ok (s ++ t)
read_string-append s t rest hs ht =
    rw (← append_assoc s t (0 ∷ rest)) (read_string-text (s ++ t) rest (IsText-append s t hs ht))

-- The text of a context's error, as a caller reads it: `udo_log_get_error`, then a string.
abbrev pub error_string : Option ErrorStruct → Outcome (List ℕ)
error_string e = elim (get_error e) [ none ↦ fault | some buffer ↦ read_string buffer ]

abbrev written : List ℕ → List ℕ
written text = take (buffer_size - 1) text

get_common-own : (code : ℕ) → code ≢ err_incorrect_data → get_common code ≡ none
unfolding get_common
get_common-own code ne = ground arith

get_common-incorrect_data : get_common err_incorrect_data ≡ some incorrect_data
unfolding get_common
get_common-incorrect_data = refl

set_error-common :
    (e : ErrorStruct) (text : List ℕ)
    → IsText text
    → set_error_struct (some e) err_incorrect_data text
      ≡ some (record {
        code = err_incorrect_data;
        buffer =
            let n = buffer_size - length (written text) in
            let copied = take n incorrect_data in
            written text ++ (copied ++ replicate (n - length copied) 0);
      })
unfolding set_error_struct vsnprintf strncpy
set_error-common e text t =
    let rest = drop (length (written text) + 1) e.buffer in
    rw (
      get_common-incorrect_data,
      strnlen-text (written text) rest (IsText-take 511 text t),
      take-append (written text) (0 ∷ rest),
    )

set_error-own :
    (e : ErrorStruct) (code : ℕ) (text : List ℕ)
    → code ≢ err_incorrect_data
    → set_error_struct (some e) code text
      ≡ some (record { code = code; buffer = vsnprintf e.buffer buffer_size text })
unfolding set_error_struct
set_error-own e code text ne = rw (get_common-own code ne)

-- An error with a code of its own: the context's code is that code and its text is the formatted
-- text, cut off after the 511 bytes that fit before the terminating zero.
pub get_error-set_error :
    (e : ErrorStruct) (code : ℕ) (text : List ℕ)
    → code ≢ err_incorrect_data
    → IsText text
    → (error_string (set_error_struct (some e) code text) ≡ ok (take (buffer_size - 1) text))
      × (get_error_code (set_error_struct (some e) code text) ≡ code)
unfolding vsnprintf get_error get_error_code
get_error-set_error e code text ne t =
    let rest = drop (length (written text) + 1) e.buffer in
    rw (set_error-own e code text ne)
      (read_string-text (written text) rest (IsText-take 511 text t), refl)

-- An error with the common code UDO_LOG_ERR_INCORRECT_DATA whose text, with the 21 bytes of the
-- code's own text, fits before a terminating zero: the caller reads both, one behind the other.
pub get_error-incorrect_data :
    (e : ErrorStruct) (text : List ℕ)
    → IsText text
    → length text + length incorrect_data < buffer_size
    → error_string (set_error_struct (some e) err_incorrect_data text) ≡ ok (text ++ incorrect_data)
unfolding get_error
get_error-incorrect_data e text t h =
    let whole : written text ≡ text = take_all 511 text (omega arith) in
    let room : suc (490 - length text) ≡ buffer_size - length text - length incorrect_data =
      omega arith in
    rw
      (
        set_error-common e text t,
        whole,
        take_all (buffer_size - length text) incorrect_data (omega arith),
        ← room,
      )
      (read_string-append text incorrect_data (replicate (490 - length text) 0) t (omega arith))

-- An error with the code UDO_LOG_ERR_INCORRECT_DATA behind a text of 491 bytes or more: `strncpy`
-- fills the buffer to its end and leaves no terminating zero, so that reading the error runs off
-- the buffer.
pub get_error-unterminated :
    (e : ErrorStruct) (text : List ℕ)
    → IsText text
    → buffer_size ≤ length text + length incorrect_data
    → error_string (set_error_struct (some e) err_incorrect_data text) ≡ fault
unfolding get_error
get_error-unterminated e text t h =
    let n = buffer_size - length (written text) in
    let copied = take n incorrect_data in
    let full : n - length copied ≡ 0 =
      omega (arith, length-take n incorrect_data, length-take 511 text) in
    let common = IsText-append copied [] (IsText-take n incorrect_data (omega arith)) tt in
    rw (set_error-common e text t, full)
      (read_string-fault _
        (IsText-append (written text) (copied ++ []) (IsText-take 511 text t) common))

length-vsnprintf :
    (buffer text : List ℕ)
    → length buffer ≡ buffer_size
    → length (vsnprintf buffer buffer_size text) ≡ buffer_size
unfolding vsnprintf
length-vsnprintf buffer text h =
    let k = length (written text) in
    omega (
      arith,
      length-append (written text) (0 ∷ drop (k + 1) buffer),
      length-drop (k + 1) buffer,
      length-take 511 text,
    )

length-strncpy :
    (buffer : List ℕ) (offset : ℕ) (string : List ℕ)
    → length buffer ≡ buffer_size
    → offset ≤ buffer_size
    → length (strncpy buffer offset string (buffer_size - offset)) ≡ buffer_size
unfolding strncpy
length-strncpy buffer offset string h le =
    let n = buffer_size - offset in
    let copied = take n string in
    let pad : List ℕ = replicate (n - length copied) 0 in
    omega (
      arith,
      length-append (take offset buffer) (copied ++ pad),
      length-append copied pad,
      length-take offset buffer,
      length-take n string,
      length-replicate {A = ℕ} (n - length copied) 0,
    )

strnlen-le : (s : List ℕ) → strnlen s ≤ length s
unfolding strnlen
strnlen-le [] = omega arith
strnlen-le (c ∷ s) = ground (arith, strnlen-le s)

-- `udo_log_set_error_struct` writes inside the context's buffer, whatever the code and the text:
-- the buffer has as many bytes as before.
pub length-set_error :
    (e : ErrorStruct) (code : ℕ) (text : List ℕ)
    → length e.buffer ≡ buffer_size
    → length (set_error e code text).buffer ≡ buffer_size
unfolding set_error
length-set_error e code text h =
    let printed = vsnprintf e.buffer buffer_size text in
    let size = length-vsnprintf e.buffer text h in
    elim (Option-cases (get_common code)) [
      | inl own ↦ rw own size
      | inr (string, common) ↦
          rw common (
            length-strncpy printed (strnlen printed) string size
              (omega (arith, strnlen-le printed)))
    ]

pub read-set_error :
    (e : ErrorStruct) (code : ℕ) (text : List ℕ)
    → code ≢ err_incorrect_data
    → IsText text
    → (error_string (some (set_error e code text)) ≡ ok (take (buffer_size - 1) text))
      × (get_error_code (some (set_error e code text)) ≡ code)
unfolding set_error_struct
read-set_error = get_error-set_error

pub read-incorrect_data :
    (e : ErrorStruct) (text : List ℕ)
    → IsText text
    → length text + length incorrect_data < buffer_size
    → error_string (some (set_error e err_incorrect_data text)) ≡ ok (text ++ incorrect_data)
unfolding set_error_struct
read-incorrect_data = get_error-incorrect_data
