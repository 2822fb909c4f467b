-- ===== src/Log.antt =====
-- crates/xylitol-shim/native/log.c: Android's logging entry points. `vsnprintf`, `malloc` and
-- `xylitol_log_line` are not this file's: the first two are parameters, and the lines that the
-- third is given are the output.
pub mod Lines
mod Tests
use xylitol.Common.{
  ℕ, ◌+◌, ◌-◌, Bool, Option, none, some, List, [], ◌∷◌, if◌then◌else◌, ltb, take, length, Bytes,
}
use xylitol.Common.Int.{ℤ, pos, negsuc}

-- A call of `xylitol_log_line`; a tag may be null.
pub record Line : Type 0 where
  pub priority : ℤ
  pub tag : Option Bytes
  pub message : Bytes

-- "<unformattable log message>"
abbrev pub unformattable : Bytes
unformattable =
    b'<' ∷ b'u' ∷ b'n' ∷ b'f' ∷ b'o' ∷ b'r' ∷ b'm' ∷ b'a' ∷ b't' ∷ b't' ∷ b'a' ∷ b'b' ∷ b'l' ∷ b'e'
    ∷ b' ' ∷ b'l' ∷ b'o' ∷ b'g' ∷ b' ' ∷ b'm' ∷ b'e' ∷ b's' ∷ b's' ∷ b'a' ∷ b'g' ∷ b'e' ∷ b'>' ∷ []

-- "assertion failed"
abbrev pub assertion_failed : Bytes
assertion_failed =
    b'a' ∷ b's' ∷ b's' ∷ b'e' ∷ b'r' ∷ b't' ∷ b'i' ∷ b'o' ∷ b'n' ∷ b' ' ∷ b'f' ∷ b'a' ∷ b'i' ∷ b'l'
    ∷ b'e' ∷ b'd' ∷ []

abbrev pub stack_buffer_size : ℕ
stack_buffer_size = 1024

-- What the heap is asked for and given back.
pub data HeapEvent : Type 0 where
  allocated : ℕ → HeapEvent
  freed : HeapEvent

-- What a call does: its result (none where it aborts), its lines, and its use of the heap.
pub record Effect : Type 0 where
  pub result : Option ℤ
  pub lines : List Line
  pub heap : List HeapEvent

-- `Args` stands for a `va_list`. `vsnprintf fmt args` is the whole text, or none for a negative
-- result; a buffer of n bytes receives the first n - 1 bytes of it.
module _ {Args : Type 0} (vsnprintf : Bytes → Args → Option Bytes)
    (malloc_succeeds : ℕ → Bool) where
  pub emit_text : ℤ → Option Bytes → Bytes → Effect
  emit_text priority tag text =
      let needed = length text in
      if ltb needed stack_buffer_size
      then record {
        result = some (pos needed);
        lines =
            record { priority = priority; tag = tag; message = take (stack_buffer_size - 1) text }
            ∷ [];
        heap = [];
      }
      else if malloc_succeeds (needed + 1)
      then record {
        result = some (pos needed);
        lines =
            record { priority = priority; tag = tag; message = take (needed + 1 - 1) text } ∷ [];
        heap = allocated (needed + 1) ∷ freed ∷ [];
      }
      else record {
        result = some (pos needed);
        lines =
            record { priority = priority; tag = tag; message = take (stack_buffer_size - 1) text }
            ∷ [];
        heap = [];
      }

  pub format_and_emit : ℤ → Option Bytes → Bytes → Args → Effect
  format_and_emit priority tag fmt args = elim (vsnprintf fmt args) [
    | none ↦ record {
      result = some (negsuc 0);
      lines = record { priority = priority; tag = tag; message = unformattable } ∷ [];
      heap = [];
    }
    | some text ↦ emit_text priority tag text
  ]

  pub android_log_print : ℤ → Option Bytes → Bytes → Args → Effect
  android_log_print priority tag fmt args = format_and_emit priority tag fmt args

  pub android_log_vprint : ℤ → Option Bytes → Bytes → Args → Effect
  android_log_vprint priority tag fmt args = format_and_emit priority tag fmt args

  -- The process aborts behind the line. A null format gives the condition, or a fixed text.
  pub android_log_assert : Option Bytes → Option Bytes → Option Bytes → Args → Effect
  android_log_assert condition tag (some fmt) args = record (format_and_emit (pos 7) tag fmt args) {
    result = none;
  }
  android_log_assert (some condition) tag none args = record {
    result = none;
    lines = record { priority = pos 7; tag = tag; message = condition } ∷ [];
    heap = [];
  }
  android_log_assert none tag none args = record {
    result = none;
    lines = record { priority = pos 7; tag = tag; message = assertion_failed } ∷ [];
    heap = [];
  }

pub android_log_write : ℤ → Option Bytes → Bytes → Effect
android_log_write priority tag text = record {
  result = some (pos 0);
  lines = record { priority = priority; tag = tag; message = text } ∷ [];
  heap = [];
}

pub android_log_buf_write : ℤ → ℤ → Option Bytes → Bytes → Effect
android_log_buf_write buf_id priority tag text = record {
  result = some (pos 0);
  lines = record { priority = priority; tag = tag; message = text } ∷ [];
  heap = [];
}
