-- ===== src/Log/Tests.antt =====
-- The entry points of log.c over a `vsnprintf` that prints its one argument, a text, and fails for
-- an empty format.
use xylitol.Common.{◌≡◌, refl, false, Option, none, some, [], ◌∷◌, Bytes}
use xylitol.Common.Int.{pos}
use xylitol.Log.{android_log_print, android_log_vprint, android_log_write, android_log_buf_write}
use xylitol.Log.Lines.{Reports, android_log_print-Reports}

abbrev percent_s : Bytes → Bytes → Option Bytes
percent_s [] text = none
percent_s (c ∷ fmt) text = some text

abbrev oh : Bytes
oh = b'o' ∷ b'h' ∷ []

android_log_print-Reports_example :
    Reports percent_s
      (λ _. false)
      (pos 3)
      none
      oh
      (some (pos 2))
      (android_log_print percent_s (λ _. false) (pos 3) none (b'%' ∷ b's' ∷ []) oh)
    × (android_log_vprint percent_s (λ _. false) (pos 3) none (b'%' ∷ b's' ∷ []) oh
        ≡ android_log_print percent_s (λ _. false) (pos 3) none (b'%' ∷ b's' ∷ []) oh)
android_log_print-Reports_example =
    android_log_print-Reports percent_s (λ _. false) (pos 3) none (b'%' ∷ b's' ∷ []) oh

android_log_write_line :
    (android_log_write (pos 4) none oh).lines
    ≡ record { priority = pos 4; tag = none; message = oh } ∷ []
unfolding android_log_write
android_log_write_line = refl

android_log_buf_write_line :
    android_log_buf_write (pos 1) (pos 4) none oh ≡ android_log_write (pos 4) none oh
unfolding android_log_buf_write android_log_write
android_log_buf_write_line = refl
