-- ===== src/Controller/Main/Sockets/Prepared.antt =====
-- main.cpp: which sockets, variables and writes there are when the sockets are made.
use mathlib.Core.List.{append_assoc, append-nil}
use xylitol.Common.{
  ℕ, ◌+◌, ◌≡◌, refl, sym, ap, ◌∙◌, arith, ◌⊎◌, inl, inr, Bool, false, ◌||◌, Option, none, some,
  List, [], ◌∷◌, ◌++◌, if◌then◌else◌, ltb, Bytes, codes, length, length-append,
}
use xylitol.Common.Int.{ℤ, pos, negsuc}
use xylitol.Socket.{Call, create_socket}
use xylitol.Socket.Effects.{
  sockets, IsCreated, AddsSocket, create_socket-AddsSocket, create_socket-IsCreated,
}
use xylitol.Controller.Main.Sockets.{
  Step, allocated, written, variable_set, System, calls_of, permissions, publish, publish_if,
  make_socket, tested_file, make_sockets, only_calls, outside,
}
use xylitol.Controller.Main.Sockets.Counts.{
  outside-calls, outside-allocated, only_calls-append, only_calls-calls_of, open_behind,
}

-- For each name there is one open socket, and one byte written behind a buffer.
record Made (steps : List Step) (names : List Bytes) : Type 0 where
  pub open_sockets : sockets 0 (only_calls steps) ≡ length names
  pub overrun : outside 0 steps ≡ length names

ltb_irrefl : (n : ℕ) → ltb n n ≡ false
ltb_irrefl n = grind arith

abbrev pub variable_name : Bytes → Bytes
variable_name name = codes "ANDROID_SOCKET_" ++ name

Made-failed :
    (before : List Step) (names : List Bytes) (calls : List Call)
    → Made before names
    → sockets (length names) calls ≡ length names
    → Made (before ++ calls_of calls) names
Made-failed before names calls m e = record {
  open_sockets =
      open_behind before (calls_of calls) calls _ _ (only_calls-calls_of calls) m.open_sockets e;
  overrun = outside-calls 0 before calls ∙ m.overrun;
}

abbrev pub socket_names : List Bytes
socket_names = codes "installd" ∷ codes "zygote" ∷ codes "adbd" ∷ []

-- The calls that make a socket of this name for all users, at this place in the run.
abbrev pub IsSocket : (sys : System) → List Step → Bytes → ℤ × List Call → Type 0
IsSocket sys before name r =
    IsCreated (sys.kernel before) name sys.sock_stream 438 sys.uid sys.gid r

-- The steps make one socket after the other, and set for each the variable of its name, in the order
-- of the names: its value is the descriptor of that socket, printed into a buffer of its length and
-- a NUL.
pub data Published (sys : System) : List Bytes → List Step → Type 0 where
  nothing : Published sys [] []
  published :
      {names : List Bytes} {before : List Step}
      → Published sys names before
      → (name : Bytes) (fd : ℕ) (calls : List Call) → IsSocket sys before name (pos fd, calls)
      → Published sys (names ++ (name ∷ [])) (
          before
          ++ (calls_of calls
              ++ (allocated (length (sys.decimal (pos fd)) + 1)
                  ∷ written (length (sys.decimal (pos fd)) + 1)
                  ∷ variable_set (variable_name name) (sys.decimal (pos fd))
                  ∷ [])))

-- All sockets are made and main goes on, or those before one that fails, and main returns -1.
abbrev pub IsPrepared : System → List Bytes → Option ℤ × List Step → Type 0
IsPrepared sys all r =
    (names : List Bytes) × (before : List Step) × (failing : List Call) × Published sys names before
    × (r.1 ≡ before ++ calls_of failing)
    × (sockets 0 (only_calls r.1) ≡ length names)
    × (outside 0 r.1 ≡ length names)
    × (((r.0 ≡ none) × (names ≡ all) × (failing ≡ []))
        ⊎ ((r.0 ≡ some (negsuc 0))
            × ((name : Bytes) × (rest : List Bytes) × (names ++ (name ∷ rest) ≡ all)
                × IsSocket sys before name (negsuc 0, failing))))

module _ (sys : System) where
  Made-published :
      (before : List Step) (names : List Bytes) (name : Bytes) (fd : ℕ) (calls : List Call)
      → Made before names
      → sockets (length names) calls ≡ length names + 1
      → Made (before ++ (calls_of calls ++ publish sys name (pos fd))) (names ++ (name ∷ []))
  Made-published before names name fd calls m e = record {
    open_sockets =
        open_behind before (calls_of calls ++ publish sys name (pos fd)) calls _ _
          (only_calls-append (calls_of calls) (publish sys name (pos fd))
            ∙ ap (λ l. l ++ []) (only_calls-calls_of calls)
            ∙ append-nil calls)
          m.open_sockets e
        ∙ sym (length-append names (name ∷ []));
    overrun = omega (arith, overrun, length-append names (name ∷ []));
  }
    where
      size : ℕ
      size = length (sys.decimal (pos fd)) + 1

      overrun :
          outside 0 (before ++ (calls_of calls ++ publish sys name (pos fd))) ≡ length names + 1
      overrun =
          ap (outside 0) (sym (append_assoc before (calls_of calls) (publish sys name (pos fd))))
          ∙ outside-allocated 0 size (before ++ calls_of calls) _
          ∙ ap (λ k. k + outside size (written size ∷ []))
              (outside-calls 0 before calls ∙ m.overrun)
          ∙ ap (λ b. length names + ((if b then 0 else 1) + 0)) (ltb_irrefl size)

  make_socket-IsPrepared :
      (all names rest : List Bytes) (name : Bytes) (next : List Step → Option ℤ × List Step)
      (before : List Step)
      → names ++ (name ∷ rest) ≡ all
      → Made before names
      → Published sys names before
      → ((steps : List Step)
          → Made steps (names ++ (name ∷ []))
          → Published sys (names ++ (name ∷ [])) steps
          → IsPrepared sys all (next steps))
      → IsPrepared sys all (make_socket sys name next before)
  unfolding make_socket publish_if
  make_socket-IsPrepared all names rest name next before e m p later =
      go (create_socket (sys.kernel before) name sys.sock_stream permissions sys.uid sys.gid)
        (create_socket-AddsSocket (sys.kernel before) name sys.sock_stream permissions sys.uid
          sys.gid (length names))
        (create_socket-IsCreated (sys.kernel before) name sys.sock_stream permissions sys.uid
          sys.gid).0
    where
      go :
          (r : ℤ × List Call)
          → AddsSocket (length names) r
          → IsSocket sys before name r
          → IsPrepared sys all (publish_if sys name before r next)
      go (negsuc k, calls) (minus_one, same) (_, why) =
          let m' = Made-failed before names calls m same in
          (
            names,
            before,
            calls,
            p,
            refl,
            m'.open_sockets,
            m'.overrun,
            inr (ap (λ (n : ℕ). some (negsuc n)) minus_one, (name, rest, e, (refl, why))),
          )
      go (pos fd, calls) more made =
          later (before ++ (calls_of calls ++ publish sys name (pos fd)))
            (Made-published before names name fd calls m more) (published p name fd calls made)

  all_three :
      (steps : List Step)
      → Made steps socket_names
      → Published sys socket_names steps
      → IsPrepared sys socket_names (none, steps)
  all_three steps m p = (
    socket_names,
    steps,
    [],
    p,
    sym (append-nil steps),
    m.open_sockets,
    m.overrun,
    inl (refl, refl, refl),
  )

  -- Without --stop, and where the file that is tested is not there, main makes the sockets of
  -- installd, zygote and adbd in this order, each bound to the path of its name with the permissions
  -- 0666 and the ids of the user, and sets the variable of each to its descriptor; or it returns -1
  -- at the first that fails, and those before it are made. In every case as many sockets are open as
  -- variables are set, and as many bytes were written behind the end of a buffer.
  pub make_sockets-IsPrepared :
      (is_stop : Bool)
      → (sys.exists tested_file || is_stop) ≡ false
      → IsPrepared sys socket_names (make_sockets sys is_stop)
  unfolding make_sockets
  make_sockets-IsPrepared is_stop e = rw e (
      make_socket-IsPrepared socket_names [] _ (codes "installd") _ [] refl
        (record { open_sockets = refl; overrun = refl }) nothing
        (λ steps1 m1 p1.
          make_socket-IsPrepared socket_names _ _ (codes "zygote") _ steps1 refl m1 p1
            (λ steps2 m2 p2.
              make_socket-IsPrepared socket_names _ [] (codes "adbd") _ steps2 refl m2 p2
                all_three)))
