-- ===== src/Controller/Main/Sockets/Counts.antt =====
-- main.cpp: the writes and the open sockets behind two runs of steps.
use xylitol.Common.{ℕ, ◌+◌, ◌-◌, ◌≡◌, refl, ap, ◌∙◌, arith, List, [], ◌∷◌, ◌++◌, if◌then◌else◌, ltb}
use xylitol.Socket.{
  Call, socket_opened, path_unlinked, socket_bound, path_chowned, path_chmodded, socket_closed,
}
use xylitol.Socket.Effects.{sockets}
use xylitol.Controller.Main.Sockets.{
  Step, called, allocated, written, variable_set, calls_of, only_calls, outside,
}

pub outside-calls :
    (n : ℕ) (a : List Step) (calls : List Call) → outside n (a ++ calls_of calls) ≡ outside n a
outside-calls n [] [] = refl
outside-calls n [] (call ∷ calls) = outside-calls n [] calls
outside-calls n (called call ∷ a) calls = outside-calls n a calls
outside-calls n (allocated size ∷ a) calls = outside-calls size a calls
outside-calls n (written index ∷ a) calls =
    ap (λ k. (if ltb index n then 0 else 1) + k) (outside-calls n a calls)
outside-calls n (variable_set name value ∷ a) calls = outside-calls n a calls

pub outside-allocated :
    (n size : ℕ) (a b : List Step)
    → outside n (a ++ (allocated size ∷ b)) ≡ outside n a + outside size b
outside-allocated n size [] b = omega arith
outside-allocated n size (called call ∷ a) b = outside-allocated n size a b
outside-allocated n size (allocated m ∷ a) b = outside-allocated m size a b
outside-allocated n size (written index ∷ a) b = omega (arith, outside-allocated n size a b)
outside-allocated n size (variable_set name value ∷ a) b = outside-allocated n size a b

pub only_calls-append : (a b : List Step) → only_calls (a ++ b) ≡ only_calls a ++ only_calls b
only_calls-append [] b = refl
only_calls-append (called call ∷ a) b = ap (λ l. call ∷ l) (only_calls-append a b)
only_calls-append (allocated size ∷ a) b = only_calls-append a b
only_calls-append (written index ∷ a) b = only_calls-append a b
only_calls-append (variable_set name value ∷ a) b = only_calls-append a b

pub only_calls-calls_of : (calls : List Call) → only_calls (calls_of calls) ≡ calls
only_calls-calls_of [] = refl
only_calls-calls_of (call ∷ calls) = ap (λ l. call ∷ l) (only_calls-calls_of calls)

sockets-append : (n : ℕ) (a b : List Call) → sockets n (a ++ b) ≡ sockets (sockets n a) b
sockets-append n [] b = refl
sockets-append n (socket_opened fd ∷ a) b = sockets-append (n + 1) a b
sockets-append n (socket_closed fd ∷ a) b = sockets-append (n - 1) a b
sockets-append n (path_unlinked path ∷ a) b = sockets-append n a b
sockets-append n (socket_bound path ∷ a) b = sockets-append n a b
sockets-append n (path_chowned path uid gid ∷ a) b = sockets-append n a b
sockets-append n (path_chmodded path perm ∷ a) b = sockets-append n a b

pub open_behind :
    (a b : List Step) (calls : List Call) (n k : ℕ)
    → only_calls b ≡ calls
    → sockets 0 (only_calls a) ≡ n
    → sockets n calls ≡ k
    → sockets 0 (only_calls (a ++ b)) ≡ k
open_behind a b calls n k e open_ more =
    ap (sockets 0) (only_calls-append a b)
    ∙ sockets-append 0 (only_calls a) (only_calls b)
    ∙ ap (λ m. sockets m (only_calls b)) open_
    ∙ ap (sockets n) e
    ∙ more
