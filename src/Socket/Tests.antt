-- ===== src/Socket/Tests.antt =====
-- A socket that cannot be bound to its name, and one that can.
use xylitol.Common.{true, false, ◌≤◌, ◌+◌, some, [], ◌∷◌, length, Bytes}
use xylitol.Common.Int.{pos}
use xylitol.Socket.{Kernel, removed, missing, sun_path_size, sun_path, create_socket}
use xylitol.Socket.Effects.{IsCreated, create_socket-IsCreated}

abbrev kernel : Kernel
kernel = record { socket = λ _. some 4; unlink = λ _. removed; bind = λ _. false }

abbrev free_kernel : Kernel
free_kernel = record { socket = λ _. some 4; unlink = λ _. missing; bind = λ _. true }

-- "adbd"
abbrev adbd : Bytes
adbd = b'a' ∷ b'd' ∷ b'b' ∷ b'd' ∷ []

create_socket-IsCreated_example :
    IsCreated kernel adbd (pos 1) 438 0 0 (create_socket kernel adbd (pos 1) 438 0 0)
    × (length (sun_path adbd) + 1 ≤ sun_path_size)
create_socket-IsCreated_example = create_socket-IsCreated kernel adbd (pos 1) 438 0 0
