-- ===== src/Socket.antt =====
-- legacy/old-shashlik/src/controller/init_util.c: `create_socket`. What the system calls answer is a
-- parameter, the record `Kernel`; the calls that change something are recorded in order, and the
-- messages are left out.
pub mod Effects
mod Tests
use xylitol.Common.{
  ℕ, Bool, true, false, Option, none, some, List, [], ◌∷◌, ◌++◌, if◌then◌else◌, take, Bytes,
}
use xylitol.Common.Int.{ℤ, pos, negsuc}

pub data Unlinked : Type 0 where
  removed : Unlinked
  missing : Unlinked
  refused : Unlinked

pub record Kernel : Type 0 where
  -- socket(PF_UNIX, type, 0): the new descriptor, or none for a negative result
  pub socket : ℤ → Option ℕ
  -- unlink(path): 0, ENOENT, or another error
  pub unlink : Bytes → Unlinked
  -- bind(fd, addr, sizeof (addr)) == 0
  pub bind : Bytes → Bool

pub data Call : Type 0 where
  socket_opened : ℕ → Call
  path_unlinked : Bytes → Call
  socket_bound : Bytes → Call
  path_chowned : Bytes → ℕ → ℕ → Call
  path_chmodded : Bytes → ℕ → Call
  socket_closed : ℕ → Call

-- sizeof(addr.sun_path)
abbrev pub sun_path_size : ℕ
sun_path_size = 108

-- ANDROID_SOCKET_DIR, "/tmp/shashlik-socket"
abbrev pub android_socket_dir : Bytes
android_socket_dir =
    b'/' ∷ b't' ∷ b'm' ∷ b'p' ∷ b'/' ∷ b's' ∷ b'h' ∷ b'a' ∷ b's' ∷ b'h' ∷ b'l' ∷ b'i' ∷ b'k' ∷ b'-'
    ∷ b's' ∷ b'o' ∷ b'c' ∷ b'k' ∷ b'e' ∷ b't' ∷ []

-- What `snprintf` leaves in `sun_path`.
pub sun_path : Bytes → Bytes
sun_path name = take 107 (android_socket_dir ++ (b'/' ∷ name))

module _ (kernel : Kernel) where
  pub bound_at : ℕ → Bytes → ℕ → ℕ → ℕ → ℤ × List Call
  bound_at fd path perm uid gid =
      if kernel.bind path
      then (pos fd, socket_bound path ∷ path_chowned path uid gid ∷ path_chmodded path perm ∷ [])
      else (negsuc 0, path_unlinked path ∷ socket_closed fd ∷ [])

  pub behind_unlink : Unlinked → ℕ → Bytes → ℕ → ℕ → ℕ → ℤ × List Call
  behind_unlink refused fd path perm uid gid = (negsuc 0, socket_closed fd ∷ [])
  behind_unlink missing fd path perm uid gid = bound_at fd path perm uid gid
  behind_unlink removed fd path perm uid gid =
      let (result, calls) = bound_at fd path perm uid gid in (result, path_unlinked path ∷ calls)

  pub with_socket : Option ℕ → Bytes → ℕ → ℕ → ℕ → ℤ × List Call
  with_socket none name perm uid gid = (negsuc 0, [])
  with_socket (some fd) name perm uid gid =
      let (result, calls) =
        behind_unlink (kernel.unlink (sun_path name)) fd (sun_path name) perm uid gid in
      (result, socket_opened fd ∷ calls)

  pub create_socket : Bytes → ℤ → ℕ → ℕ → ℕ → ℤ × List Call
  create_socket name type perm uid gid = with_socket (kernel.socket type) name perm uid gid
