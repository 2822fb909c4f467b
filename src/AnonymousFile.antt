-- ===== src/AnonymousFile.antt =====
-- legacy/old-shashlik/src/libs/gralloc-shashlik/bufferhandler.c: the descriptor of an anonymous file
-- for a shared buffer. What the system calls answer is a parameter, the record `System`.
pub mod Outcomes
mod Tests
use xylitol.Common.{
  ℕ, zero, suc, ◌+◌, ◌-◌, Bool, true, false, not, Option, none, some, List, [], ◌∷◌, ◌++◌,
  if◌then◌else◌, length, Bytes,
}
use xylitol.Common.Int.{ℤ, pos, negsuc}

pub record System : Type 0 where
  -- whether HAVE_MKOSTEMP is defined
  pub have_mkostemp : Bool
  -- getenv("XDG_RUNTIME_DIR")
  pub xdg_runtime_dir : Option Bytes
  pub malloc_succeeds : ℕ → Bool
  -- mkstemp(name), mkostemp(name, O_CLOEXEC): the new descriptor, or none for -1
  pub mkstemp : Bytes → Option ℕ
  -- fcntl(fd, F_GETFD) != -1; fcntl(fd, F_SETFD, …) != -1
  pub getfd_succeeds : Bool
  pub setfd_succeeds : Bool
  pub unlink_succeeds : Bool
  pub ftruncate_succeeds : ℤ → Bool
  -- `errno` behind the `close` of a file that could not be resized
  pub errno_after_close : ℕ

-- What the process holds: the descriptor of the file that is open, whether it is closed on exec,
-- the size that was set, whether the file has a name, the blocks of the heap, and `errno` where
-- the code sets it.
pub record State : Type 0 where
  pub descriptor : Option ℕ
  pub cloexec : Bool
  pub size : Option ℤ
  pub named : Bool
  pub held : ℕ
  pub errno : Option ℕ

abbrev pub enoent : ℕ
enoent = 2

-- "/kwayland-gralloc-shared-XXXXXX"
abbrev pub template : Bytes
template =
    b'/' ∷ b'k' ∷ b'w' ∷ b'a' ∷ b'y' ∷ b'l' ∷ b'a' ∷ b'n' ∷ b'd' ∷ b'-' ∷ b'g' ∷ b'r' ∷ b'a' ∷ b'l'
    ∷ b'l' ∷ b'o' ∷ b'c' ∷ b'-' ∷ b's' ∷ b'h' ∷ b'a' ∷ b'r' ∷ b'e' ∷ b'd' ∷ b'-' ∷ b'X' ∷ b'X'
    ∷ b'X' ∷ b'X' ∷ b'X' ∷ b'X' ∷ []

abbrev pub closed : State → State
closed s = record s { descriptor = none; cloexec = false }

module _ (os : System) where
  pub set_cloexec_or_close : ℤ → State → ℤ × State
  set_cloexec_or_close (negsuc n) s = (negsuc 4, s)
  set_cloexec_or_close (pos fd) s =
      if not os.getfd_succeeds
      then (negsuc 5, closed s)
      else if not os.setfd_succeeds
      then (negsuc 6, closed s)
      else (pos fd, record s { cloexec = true })

  -- A name that cannot be removed stays.
  pub unlink : State → State
  unlink s = record s { named = not os.unlink_succeeds }

  pub created : Option ℕ → State → ℤ × State
  created none s = (negsuc 0, s)
  created (some fd) s =
      if os.have_mkostemp
      then (pos fd, unlink (record s { descriptor = some fd; cloexec = true; named = true }))
      else (let (fd', s') =
            set_cloexec_or_close (pos fd)
              (record s { descriptor = some fd; cloexec = false; named = true }) in
          (fd', unlink s'))

  pub create_tmpfile_cloexec : Bytes → State → ℤ × State
  create_tmpfile_cloexec tmpname s = created (os.mkstemp tmpname) s

  -- The part behind `create_tmpfile_cloexec`.
  pub resized : ℤ → ℤ × State → ℤ × State
  resized size (negsuc n, s) = (negsuc 1, s)
  resized size (pos fd, s) =
      if os.ftruncate_succeeds size
      then (pos fd, record s { size = some size })
      else (elim os.errno_after_close [ zero ↦ pos 0 | suc n ↦ negsuc n ], closed s)

  pub in_directory : Option Bytes → ℤ → State → ℤ × State
  in_directory none size s = (negsuc 3, record s { errno = some enoent })
  in_directory (some path) size s =
      if not (os.malloc_succeeds (length path + (length template + 1)))
      then (negsuc 2, s)
      else (let (fd, s') =
            create_tmpfile_cloexec (path ++ template) (record s { held = s.held + 1 }) in
          resized size (fd, record s' { held = s'.held - 1 }))

  pub os_create_anonymous_file : ℤ → State → ℤ × State
  os_create_anonymous_file size s = in_directory os.xdg_runtime_dir size s
