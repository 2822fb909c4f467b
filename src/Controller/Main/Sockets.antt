-- ===== src/Controller/Main/Sockets.antt =====
-- main.cpp with init_util.c: the control sockets that the controller makes before anything else. The
-- kernel's answers may depend on what was done before; printing a number is a parameter.
pub mod Counts
pub mod Prepared
mod Tests
use xylitol.Common.{
  ℕ, zero, suc, ◌+◌, ◌-◌, ◌<◌, ◌≡◌, refl, sym, ap, ◌∙◌, arith, Bool, true, false, ◌||◌, Option,
  none, some, List, [], ◌∷◌, ◌++◌, if◌then◌else◌, ltb, Bytes, codes, length,
}
use xylitol.Common.Int.{ℤ, pos, negsuc}
use xylitol.Socket.{Kernel, Call, android_socket_dir, create_socket}
use xylitol.Socket.Effects.{sockets, AddsSocket, create_socket-AddsSocket}

pub data Step : Type 0 where
  called : Call → Step
  -- alloca of so many bytes, and a byte written at an index of them
  allocated : ℕ → Step
  written : ℕ → Step
  variable_set : Bytes → Bytes → Step

pub record System : Type 0 where
  -- QFile::exists
  pub exists : Bytes → Bool
  pub kernel : List Step → Kernel
  -- snprintf with "%d"
  pub decimal : ℤ → Bytes
  -- SOCK_STREAM; getuid(), getgid()
  pub sock_stream : ℤ
  pub uid : ℕ
  pub gid : ℕ

abbrev pub calls_of : List Call → List Step
calls_of [] = []
calls_of (call ∷ calls) = called call ∷ calls_of calls

-- 0666
abbrev pub permissions : ℕ
permissions = 438

abbrev pub tested_file : Bytes
tested_file = android_socket_dir ++ codes "/ANDROID_SOCKET_installd"

module _ (sys : System) where
  -- The descriptor is printed into a buffer of its length and a NUL; the write of a NUL comes first.
  abbrev pub publish : Bytes → ℤ → List Step
  publish name fd =
      let size = length (sys.decimal fd) + 1 in
      allocated size
      ∷ written size
      ∷ variable_set (codes "ANDROID_SOCKET_" ++ name) (sys.decimal fd)
      ∷ []

  -- What follows a call of create_socket. The steps are in order.
  unfoldable pub publish_if :
      Bytes → List Step → ℤ × List Call → (List Step → Option ℤ × List Step) → Option ℤ × List Step
  publish_if name before (negsuc n, calls) next = (some (negsuc n), before ++ calls_of calls)
  publish_if name before (pos fd, calls) next =
      next (before ++ (calls_of calls ++ publish name (pos fd)))

  unfoldable pub make_socket :
      Bytes → (List Step → Option ℤ × List Step) → List Step → Option ℤ × List Step
  make_socket name next before =
      publish_if name before
        (create_socket (sys.kernel before) name sys.sock_stream permissions sys.uid sys.gid) next

  -- What main returns, where it does, and the steps: nothing is made where the file that is tested
  -- is there, or with --stop.
  unfoldable pub make_sockets : Bool → Option ℤ × List Step
  make_sockets is_stop =
      if sys.exists tested_file || is_stop
      then (none, [])
      else make_socket (codes "installd")
          (make_socket (codes "zygote") (make_socket (codes "adbd") (λ steps. (none, steps)))) []

-- The calls of the kernel.
abbrev pub only_calls : List Step → List Call
only_calls [] = []
only_calls (called call ∷ steps) = call ∷ only_calls steps
only_calls (allocated size ∷ steps) = only_calls steps
only_calls (written index ∷ steps) = only_calls steps
only_calls (variable_set name value ∷ steps) = only_calls steps

-- The writes outside of the buffer that was allocated last, which had so many bytes.
abbrev pub outside : ℕ → List Step → ℕ
outside size [] = 0
outside size (called call ∷ steps) = outside size steps
outside size (allocated n ∷ steps) = outside n steps
outside size (written index ∷ steps) = (if ltb index size then 0 else 1) + outside size steps
outside size (variable_set name value ∷ steps) = outside size steps
