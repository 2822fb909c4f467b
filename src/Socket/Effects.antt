-- ===== src/Socket/Effects.antt =====
-- Which system calls `create_socket` leaves in force.
use xylitol.Common.{
  codes, ℕ, zero, suc, ◌+◌, ◌-◌, ◌≤◌, ◌≡◌, refl, inl, inr, arith, Bool-cases, ◌⊎◌, true, false,
  Option, none, some, List, [], ◌∷◌, ◌++◌, take, length, Bytes,
}
use xylitol.Common.Int.{ℤ, pos, negsuc}
use xylitol.Socket.{
  Kernel, Unlinked, removed, missing, refused, Call, socket_opened, path_unlinked, socket_bound,
  path_chowned, path_chmodded, socket_closed, sun_path_size, android_socket_dir, sun_path, bound_at,
  behind_unlink, with_socket, create_socket,
}

-- The sockets that are open behind a sequence of calls, of which `n` were open before.
abbrev pub sockets : ℕ → List Call → ℕ
sockets n [] = n
sockets n (socket_opened fd ∷ calls) = sockets (n + 1) calls
sockets n (socket_closed fd ∷ calls) = sockets (n - 1) calls
sockets n (path_unlinked path ∷ calls) = sockets n calls
sockets n (socket_bound path ∷ calls) = sockets n calls
sockets n (path_chowned path uid gid ∷ calls) = sockets n calls
sockets n (path_chmodded path perm ∷ calls) = sockets n calls

-- The calls that give a bound name its owner and its permissions.
abbrev pub named : Bytes → ℕ → ℕ → ℕ → List Call
named path perm uid gid =
    socket_bound path ∷ path_chowned path uid gid ∷ path_chmodded path perm ∷ []

-- A path is unlinked so many times before `calls`.
abbrev pub unlinks : ℕ → Bytes → List Call → List Call
unlinks zero path calls = calls
unlinks (suc n) path calls = path_unlinked path ∷ unlinks n path calls

-- A descriptor is that which the kernel gave for the socket, which is bound to the path
-- and stays open; nothing but the old file of that path is removed. Any other result is -1: either
-- the kernel gave no descriptor and nothing was done, or the descriptor that it gave is closed
-- again, and no name was bound, since the old file could not be removed or the name not be bound.
abbrev pub IsCreatedAt :
    (kernel : Kernel) (path : Bytes) (type : ℤ) (perm uid gid : ℕ) → ℤ × List Call → Type 0
IsCreatedAt kernel path type perm uid gid (pos fd, calls) =
    (kernel.socket type ≡ some fd)
    × (kernel.bind path ≡ true)
    × (((kernel.unlink path ≡ missing) × (calls ≡ socket_opened fd ∷ named path perm uid gid))
        ⊎ ((kernel.unlink path ≡ removed)
            × (calls ≡ socket_opened fd ∷ path_unlinked path ∷ named path perm uid gid)))
IsCreatedAt kernel path type perm uid gid (negsuc n, calls) =
    (n ≡ 0)
    × (((kernel.socket type ≡ none) × (calls ≡ []))
        ⊎ ((fd : ℕ) × (k : ℕ) × (kernel.socket type ≡ some fd)
            × ((kernel.unlink path ≡ refused) ⊎ (kernel.bind path ≡ false))
            × (calls ≡ socket_opened fd ∷ unlinks k path (socket_closed fd ∷ []))))

-- The path of a name, as far as it fits in front of a NUL.
abbrev pub socket_path : Bytes → Bytes
socket_path name = take 107 (codes "/tmp/shashlik-socket/" ++ name)

abbrev pub IsCreated :
    (kernel : Kernel) (name : Bytes) (type : ℤ) (perm uid gid : ℕ) → ℤ × List Call → Type 0
IsCreated kernel name type perm uid gid r =
    IsCreatedAt kernel (socket_path name) type perm uid gid r

-- The first `n` bytes of a text are at most `n`.
length-take : (n : ℕ) (xs : Bytes) → length (take n xs) ≤ n
length-take zero xs = omega arith
length-take (suc n) [] = omega arith
length-take (suc n) (x ∷ xs) = omega (arith, length-take n xs)

-- A descriptor stands for one more open socket than the `n` that were open before; any other result
-- is -1, with as many open as before.
abbrev pub AddsSocket : ℕ → ℤ × List Call → Type 0
AddsSocket n (pos fd, calls) = sockets n calls ≡ n + 1
AddsSocket n (negsuc k, calls) = (k ≡ 0) × (sockets n calls ≡ n)

with_socket-AddsSocket :
    (kernel : Kernel) (answer : Option ℕ) (name : Bytes) (perm uid gid n : ℕ)
    → AddsSocket n (with_socket kernel answer name perm uid gid)
unfolding with_socket behind_unlink bound_at
with_socket-AddsSocket kernel none name perm uid gid n = (refl, refl)
with_socket-AddsSocket kernel (some fd) name perm uid gid n =
    go (kernel.unlink (sun_path name)) refl
  where
    go :
        (u : Unlinked)
        → kernel.unlink (sun_path name) ≡ u
        → AddsSocket n (with_socket kernel (some fd) name perm uid gid)
    go refused e = rw e (refl, omega arith)
    go missing e = elim (Bool-cases (kernel.bind (sun_path name))) [
      | inl b ↦ rw (e, b) refl
      | inr b ↦ rw (e, b) (refl, omega arith)
    ]
    go removed e = elim (Bool-cases (kernel.bind (sun_path name))) [
      | inl b ↦ rw (e, b) refl
      | inr b ↦ rw (e, b) (refl, omega arith)
    ]

pub create_socket-AddsSocket :
    (kernel : Kernel) (name : Bytes) (type : ℤ) (perm uid gid n : ℕ)
    → AddsSocket n (create_socket kernel name type perm uid gid)
unfolding create_socket
create_socket-AddsSocket kernel name type perm uid gid n =
    with_socket-AddsSocket kernel (kernel.socket type) name perm uid gid n

with_socket-IsCreatedAt :
    (kernel : Kernel) (name : Bytes) (type : ℤ) (perm uid gid : ℕ) (answer : Option ℕ)
    → kernel.socket type ≡ answer
    → IsCreatedAt kernel
        (sun_path name)
        type
        perm
        uid
        gid
        (with_socket kernel answer name perm uid gid)
unfolding with_socket behind_unlink bound_at
with_socket-IsCreatedAt kernel name type perm uid gid none opens = (refl, inl (opens, refl))
with_socket-IsCreatedAt kernel name type perm uid gid (some fd) opens =
    go (kernel.unlink (sun_path name)) refl
  where
    go :
        (u : Unlinked)
        → kernel.unlink (sun_path name) ≡ u
        → IsCreatedAt kernel
            (sun_path name)
            type
            perm
            uid
            gid
            (with_socket kernel (some fd) name perm uid gid)
    go refused e = rw e (refl, inr (fd, 0, opens, inl e, refl))
    go missing e = elim (Bool-cases (kernel.bind (sun_path name))) [
      | inl b ↦ rw (e, b) (opens, b, inl (e, refl))
      | inr b ↦ rw (e, b) (refl, inr (fd, 1, opens, inr b, refl))
    ]
    go removed e = elim (Bool-cases (kernel.bind (sun_path name))) [
      | inl b ↦ rw (e, b) (opens, b, inr (e, refl))
      | inr b ↦ rw (e, b) (refl, inr (fd, 2, opens, inr b, refl))
    ]

-- A call of `create_socket` returns the descriptor of the socket that it opened: the socket is bound
-- to the path of its name, which then gets its owner and its permissions, and the file that was
-- there before is removed. Or it returns -1: no socket was opened, or the one that was opened is
-- closed again without a name. The path has room for its NUL in `sun_path`.
pub create_socket-IsCreated :
    (kernel : Kernel) (name : Bytes) (type : ℤ) (perm uid gid : ℕ)
    → IsCreated kernel name type perm uid gid (create_socket kernel name type perm uid gid)
      × (length (sun_path name) + 1 ≤ sun_path_size)
unfolding create_socket sun_path
create_socket-IsCreated kernel name type perm uid gid = (
  with_socket-IsCreatedAt kernel name type perm uid gid (kernel.socket type) refl,
  omega (arith, length-take 107 (android_socket_dir ++ (b'/' ∷ name))),
)
