-- ===== src/Log/Lines.antt =====
-- Which line each entry point of log.c writes.
use xylitol.Common.{
  ℕ, zero, suc, ◌+◌, ◌-◌, ◌≤◌, ◌≡◌, refl, ap, inl, inr, arith, Bool, Bool-cases, Option, none, some,
  List, [], ◌∷◌, if◌then◌else◌, ltb, ltb→lt, take, length, Bytes,
}
use xylitol.Common.Int.{ℤ, pos, negsuc}
use xylitol.Log.{
  unformattable, assertion_failed, stack_buffer_size, HeapEvent, allocated, freed, Effect,
  emit_text, format_and_emit, android_log_print, android_log_vprint, android_log_assert,
}

take-all : (n : ℕ) (xs : Bytes) → length xs ≤ n → take n xs ≡ xs
take-all zero [] h = refl
take-all zero (x ∷ xs) h = absurd (omega arith)
take-all (suc n) [] h = refl
take-all (suc n) (x ∷ xs) h = ap (λ ys. x ∷ ys) (take-all n xs (omega arith))

-- The blocks held behind a sequence of heap events, of which `n` were held before it.
abbrev pub held : ℕ → List HeapEvent → ℕ
held n [] = n
held n (allocated size ∷ events) = held (n + 1) events
held n (freed ∷ events) = held (n - 1) events

module _ {Args : Type 0} (vsnprintf : Bytes → Args → Option Bytes)
    (malloc_succeeds : ℕ → Bool) where
  -- What the line of a formatted message is: the whole text where it fits in the stack buffer or
  -- the heap has room for it, and its first 1023 bytes otherwise.
  abbrev pub line_text : Bytes → Bytes
  line_text text =
      if ltb (length text) stack_buffer_size
      then text
      else if malloc_succeeds (length text + 1)
      then text
      else take (stack_buffer_size - 1) text

  emit_text-lines :
      (priority : ℤ) (tag : Option Bytes) (text : Bytes)
      → (emit_text vsnprintf malloc_succeeds priority tag text).lines
        ≡ record { priority = priority; tag = tag; message = line_text text } ∷ []
  unfolding emit_text
  emit_text-lines priority tag text = elim (Bool-cases (ltb (length text) 1024)) [
    | inl t ↦ rw (t, take-all (1024 - 1) text (let lt = ltb→lt (length text) 1024 t in omega arith))
    | inr t ↦ elim (Bool-cases (malloc_succeeds (length text + 1))) [
      | inl m ↦ rw (t, m, take-all (length text + 1 - 1) text (omega arith))
      | inr m ↦ rw (t, m)
    ]
  ]

  emit_text-result :
      (priority : ℤ) (tag : Option Bytes) (text : Bytes)
      → (emit_text vsnprintf malloc_succeeds priority tag text).result ≡ some (pos (length text))
  unfolding emit_text
  emit_text-result priority tag text = elim (Bool-cases (ltb (length text) 1024)) [
    | inl t ↦ rw t
    | inr t ↦ elim (Bool-cases (malloc_succeeds (length text + 1))) [
      | inl m ↦ rw (t, m)
      | inr m ↦ rw (t, m)
    ]
  ]

  emit_text-held :
      (priority : ℤ) (tag : Option Bytes) (text : Bytes)
      → held 0 (emit_text vsnprintf malloc_succeeds priority tag text).heap ≡ 0
  unfolding emit_text
  emit_text-held priority tag text = elim (Bool-cases (ltb (length text) 1024)) [
    | inl t ↦ rw t
    | inr t ↦ elim (Bool-cases (malloc_succeeds (length text + 1))) [
      | inl m ↦ rw (t, m)
      | inr m ↦ rw (t, m)
    ]
  ]

  -- The formatted text, or the notice that it could not be formatted.
  abbrev pub message_of : Option Bytes → Bytes
  message_of none = unformattable
  message_of (some text) = line_text text

  -- The length of the whole text, or -1.
  abbrev pub result_of : Option Bytes → ℤ
  result_of none = negsuc 0
  result_of (some text) = pos (length text)

  -- One line with the given message, the given result, and no block of the heap left behind.
  abbrev pub Reports : ℤ → Option Bytes → Bytes → Option ℤ → Effect → Type 0
  Reports priority tag message result effect =
      (effect.lines ≡ record { priority = priority; tag = tag; message = message } ∷ [])
      × (effect.result ≡ result)
      × (held 0 effect.heap ≡ 0)

  format_and_emit-Reports :
      (priority : ℤ) (tag : Option Bytes) (fmt : Bytes) (args : Args) (formatted : Option Bytes)
      → vsnprintf fmt args ≡ formatted
      → Reports priority tag
          (message_of formatted)
          (some (result_of formatted))
          (format_and_emit vsnprintf malloc_succeeds priority tag fmt args)
  unfolding format_and_emit
  format_and_emit-Reports priority tag fmt args none e =
      (rw (format_and_emit, e), rw (format_and_emit, e), rw (format_and_emit, e))
  format_and_emit-Reports priority tag fmt args (some text) e = (
    rw (format_and_emit, e, emit_text-lines priority tag text),
    rw (format_and_emit, e, emit_text-result priority tag text),
    rw (format_and_emit, e, emit_text-held priority tag text),
  )

  -- A call of `android_log_print` writes exactly one line, with its priority and its tag. The
  -- message is the notice that the text is not formattable where `vsnprintf` fails, the whole text
  -- where that has less than 1024 bytes or `malloc` succeeds, and the first 1023 bytes of it
  -- otherwise. The result is the length of the whole text, or -1 where `vsnprintf` fails, and no
  -- block of the heap is left behind. `android_log_vprint` has the same effect.
  pub android_log_print-Reports :
      (priority : ℤ) (tag : Option Bytes) (fmt : Bytes) (args : Args)
      → Reports priority tag
          (message_of (vsnprintf fmt args))
          (some (result_of (vsnprintf fmt args)))
          (android_log_print vsnprintf malloc_succeeds priority tag fmt args)
        × (android_log_vprint vsnprintf malloc_succeeds priority tag fmt args
            ≡ android_log_print vsnprintf malloc_succeeds priority tag fmt args)
  unfolding android_log_print android_log_vprint
  android_log_print-Reports priority tag fmt args =
      (format_and_emit-Reports priority tag fmt args (vsnprintf fmt args) refl, refl)

  -- The message that an assertion gives: its formatted text, or without a format its condition, or
  -- without either a fixed text.
  abbrev pub assert_message : Option Bytes → Option Bytes → Args → Bytes
  assert_message condition (some fmt) args = message_of (vsnprintf fmt args)
  assert_message (some condition) none args = condition
  assert_message none none args = assertion_failed

  -- A call of `android_log_assert` writes exactly one line, of priority 7 and with its tag, before
  -- it aborts: it gives no result, whatever its arguments are. The message is the formatted one
  -- where there is a format, else the condition, else "assertion failed".
  android_log_assert-Reports :
      (condition tag fmt : Option Bytes) (args : Args)
      → Reports
          (pos 7)
          tag
          (assert_message condition fmt args)
          none
          (android_log_assert vsnprintf malloc_succeeds condition tag fmt args)
  unfolding android_log_assert
  android_log_assert-Reports condition tag (some fmt) args =
      let (lines, _, heap) =
        format_and_emit-Reports (pos 7) tag fmt args (vsnprintf fmt args) refl in
      (lines, refl, heap)
  android_log_assert-Reports (some condition) tag none args = (refl, refl, refl)
  android_log_assert-Reports none tag none args = (refl, refl, refl)
