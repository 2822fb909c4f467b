-- ===== src/AnonymousFile/Outcomes.antt =====
-- What `os_create_anonymous_file` leaves behind.
use xylitol.Common.{
  ℕ, zero, suc, ◌+◌, ◌-◌, ◌<◌, ◌≡◌, refl, inl, inr, arith, true, false, Bool-cases, Option, none,
  some, ◌++◌, length, Bytes,
}
use xylitol.Common.Int.{ℤ, pos, negsuc}
use xylitol.AnonymousFile.{
  System, State, template, set_cloexec_or_close, unlink, created, create_tmpfile_cloexec, resized,
  in_directory, os_create_anonymous_file,
}

-- A process that has not opened the file.
abbrev pub start : State
start = record {
  descriptor = none;
  cloexec = false;
  size = none;
  named = false;
  held = 0;
  errno = none;
}

-- A descriptor comes with the open file of that size, which is closed on exec and has no name; an
-- error code with no open file and no name. No block of the heap is left.
abbrev pub IsAnonymous : ℤ → ℤ × State → Type 0
IsAnonymous size (pos fd, s) =
    (s.descriptor ≡ some fd)
    × (s.cloexec ≡ true)
    × (s.size ≡ some size)
    × (s.named ≡ false)
    × (s.held ≡ 0)
IsAnonymous size (negsuc n, s) = (s.descriptor ≡ none) × (s.named ≡ false) × (s.held ≡ 0)

module _ (os : System) (unlinks : os.unlink_succeeds ≡ true) (errs : 0 < os.errno_after_close) where
  -- What `create_tmpfile_cloexec` answers.
  abbrev IsUnnamed : ℤ × State → Type 0
  IsUnnamed (pos fd, s) =
      (s.descriptor ≡ some fd) × (s.cloexec ≡ true) × (s.named ≡ false) × (s.held ≡ 1)
  IsUnnamed (negsuc n, s) = (s.descriptor ≡ none) × (s.named ≡ false) × (s.held ≡ 1)

  created-IsUnnamed :
      (answer : Option ℕ) → IsUnnamed (created os answer (record start { held = 1 }))
  unfolding created unlink set_cloexec_or_close
  created-IsUnnamed none = (refl, refl, refl)
  created-IsUnnamed (some fd) = elim (Bool-cases os.have_mkostemp) [
    | inl t ↦ rw (t, unlinks) (refl, refl, refl, refl)
    | inr t ↦ elim (Bool-cases os.getfd_succeeds) [
      | inr g ↦ rw (t, g, unlinks) (refl, refl, refl)
      | inl g ↦ elim (Bool-cases os.setfd_succeeds) [
        | inl f ↦ rw (t, g, f, unlinks) (refl, refl, refl, refl)
        | inr f ↦ rw (t, g, f, unlinks) (refl, refl, refl)
      ]
    ]
  ]

  resized-IsAnonymous :
      (size : ℤ) (answer : ℤ × State)
      → IsUnnamed answer
      → IsAnonymous size
          (resized os size (answer.0, record answer.1 { held = (answer.1).held - 1 }))
  unfolding resized
  resized-IsAnonymous size (negsuc n, s) (none_open, unnamed, one) =
      (none_open, unnamed, omega (arith, one))
  resized-IsAnonymous size (pos fd, s) (opened, closes, unnamed, one) =
      elim (Bool-cases (os.ftruncate_succeeds size)) [
        | inl t ↦ rw t (opened, closes, refl, unnamed, omega (arith, one))
        | inr t ↦ rw t (failed os.errno_after_close refl)
      ]
    where
      failed :
          (errno : ℕ)
          → os.errno_after_close ≡ errno
          → IsAnonymous size (
            elim os.errno_after_close [ zero ↦ pos 0 | suc n ↦ negsuc n ],
            record s { descriptor = none; cloexec = false; held = s.held - 1 },
          )
      failed zero e = absurd (omega (arith, errs, e))
      failed (suc n) e = rw e (refl, unnamed, omega (arith, one))

  -- `os_create_anonymous_file` in a process that has not opened the file, where `unlink` succeeds
  -- and the `errno` of a failed `ftruncate` is not 0: a result from 0 on is the descriptor of the
  -- open file, which is closed on exec, has the size asked for and has no name any more; a negative
  -- result leaves no file open and no name. In both cases no block of the heap is left.
  pub os_create_anonymous_file-IsAnonymous :
      (size : ℤ) → IsAnonymous size (os_create_anonymous_file os size start)
  unfolding os_create_anonymous_file in_directory create_tmpfile_cloexec
  os_create_anonymous_file-IsAnonymous size = go os.xdg_runtime_dir
    where
      go : (directory : Option Bytes) → IsAnonymous size (in_directory os directory size start)
      go none = (refl, refl, refl)
      go (some path) =
          elim (Bool-cases (os.malloc_succeeds (length path + (length template + 1)))) [
            | inl t ↦ rw t (
                resized-IsAnonymous size
                  (created os (os.mkstemp (path ++ template)) (record start { held = 1 }))
                  (created-IsUnnamed (os.mkstemp (path ++ template))))
            | inr t ↦ rw t (refl, refl, refl)
          ]

-- Where XDG_RUNTIME_DIR is set and every call that can fail succeeds, in either build,
-- `os_create_anonymous_file` returns the descriptor of the file that was made in that directory.
pub os_create_anonymous_file-descriptor :
    (os : System) (path : Bytes) (fd : ℕ) (size : ℤ) (s : State)
    → os.xdg_runtime_dir ≡ some path
    → os.malloc_succeeds (length path + (length template + 1)) ≡ true
    → os.mkstemp (path ++ template) ≡ some fd
    → os.getfd_succeeds ≡ true
    → os.setfd_succeeds ≡ true
    → os.ftruncate_succeeds size ≡ true
    → (os_create_anonymous_file os size s).0 ≡ pos fd
unfolding os_create_anonymous_file in_directory create_tmpfile_cloexec created resized
    set_cloexec_or_close
os_create_anonymous_file-descriptor os path fd size s dir room made getfd setfd fits =
    elim (Bool-cases os.have_mkostemp) [
      | inl t ↦ rw (dir, room, made, t, fits)
      | inr t ↦ rw (dir, room, made, t, getfd, setfd, fits)
    ]
