-- ===== src/Controller/Main/Sockets/Tests.antt =====
-- A kernel that makes the first two sockets and refuses the name of the third.
use xylitol.Common.{◌/◌, ◌%◌, [], ◌∷◌, if◌then◌else◌, ◌+◌, refl, false, some, length, ltb}
use xylitol.Common.Int.{pos, pos_part}
use xylitol.Socket.{missing}
use xylitol.Controller.Main.Sockets.{System, make_sockets}
use xylitol.Controller.Main.Sockets.Prepared.{IsPrepared, socket_names, make_sockets-IsPrepared}

abbrev sys : System
sys = record {
  exists = λ path. false;
  kernel = λ steps. record {
    socket = λ _. some (length steps + 3);
    unlink = λ _. missing;
    bind = λ _. ltb (length steps) 10;
  };
  decimal = λ n.
      let k = pos_part n in if ltb k 10 then (48 + k) ∷ [] else (48 + k / 10) ∷ (48 + k % 10) ∷ [];
  sock_stream = pos 1;
  uid = 1000;
  gid = 1000;
}

make_sockets-IsPrepared_example : IsPrepared sys socket_names (make_sockets sys false)
make_sockets-IsPrepared_example = make_sockets-IsPrepared sys false refl
