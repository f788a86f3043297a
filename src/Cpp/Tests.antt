-- ===== src/Cpp/Tests.antt =====
-- The classes on the system of Os/Demo.
use fossil_network.Base.{◌+◌, ◌≡◌, ◌⊎◌, refl, arith, [], ◌∷◌, true, some, length, pos}
use fossil_network.Client.{Client}
use fossil_network.Cpp.Client.{Args, Method, Answer, client_class}
use fossil_network.Cpp.Client.Accounts.{client_scope_closes}
use fossil_network.Cpp.Owner.{
  State, Class, start, construct, move_construct, move_assign, end_scope,
}
use fossil_network.Cpp.Owner.Run.{
  Reaches, here, step, constructs, moves, assigns, IsSafe, Empty, construct-alive, Reaches-IsSafe,
  end_scope-Empty,
}
use fossil_network.Cpp.Owner.Safe.{start-IsOwned}
use fossil_network.Cpp.Owner.Values.{Reaches-Shows, Shows, run_values}
use fossil_network.Cpp.Owner.View.{view}
use fossil_network.Cpp.Request.{constructed as constructed_request, set_header, set_body, post}
use fossil_network.Cpp.Request.Made.{
  constructed_lem, Keeps, Reaches-Keeps, makes, sets_header, sets_body, posts,
}
use fossil_network.Cpp.Server.{Args as ServerArgs, server_class}
use fossil_network.Cpp.Server.Accounts.{server_scope_closes}
use fossil_network.Cpp.Socket.{constructed, destructed, socket_create}
use fossil_network.Cpp.Socket.Use.{Use, creates, use_socket}
use fossil_network.Cpp.Socket.Program.{
  end_scope as sockets_end, all_lost, all_copied, end_scope_closes, Reaches as SocketReaches,
  here as socket_here, step as socket_step, constructs as socket_constructs, uses as socket_uses,
  copies as socket_copies,
}
use fossil_network.Cstr.{codes, c_string}
use fossil_network.Os.Demo.{World, world, demo}
use fossil_network.Os.Ledger.{Ledger, ledger, recording, count_fd}
use fossil_network.Request.{Request, zero_request, valid_methods}
use fossil_network.Request.Build.{OneOf, IsInitial}
use fossil_network.Server.{Server}
use fossil_network.Socket.{Socket, close, create}

abbrev tcp : Args
tcp = record { available = true; type = codes "tcp"; family = codes "ipv4" }

-- Two clients.
abbrev one : State Client World
one = construct (client_class demo) tcp (start world)

abbrev two : State Client World
two = construct (client_class demo) tcp one

two-alive : length two.objects ≡ 2
two-alive = omega (
  arith,
  construct-alive (client_class demo) tcp one,
  construct-alive (client_class demo) tcp (start world),
)

-- The second is assigned to the first.
assigned : Reaches (client_class demo) (start world) (move_assign (client_class demo) 1 0 two)
assigned =
    step (step (step here (constructs tcp)) (constructs tcp))
      (assigns 1 0 (omega (arith, two-alive)) (omega (arith, two-alive)))

Reaches-IsSafe_example : IsSafe (client_class demo) (move_assign (client_class demo) 1 0 two)
Reaches-IsSafe_example = Reaches-IsSafe (client_class demo) (start-IsOwned world) assigned

-- The second is moved to a third.
moved : Reaches (client_class demo) (start world) (some (move_construct 0 two))
moved =
    step (step (step here (constructs tcp)) (constructs tcp)) (moves 0 (omega (arith, two-alive)))

end_scope-Empty_example :
    (u : State Client World) × (end_scope (client_class demo) (move_construct 0 two) ≡ some u)
    × Empty (client_class demo) u
end_scope-Empty_example = end_scope-Empty (client_class demo) world moved

Reaches-Shows_example :
    Shows
      (client_class demo)
      (move_assign (client_class demo) 1 0 two)
      (run_values (client_class demo) assigned (view (start world)))
Reaches-Shows_example = Reaches-Shows (client_class demo) (start-IsOwned world) assigned

-- The same on a system that keeps a ledger.
abbrev recorded : Class Client (Ledger World) Args Method Answer
recorded = client_class (recording demo)

abbrev two_recorded : State Client (Ledger World)
two_recorded = construct recorded tcp (construct recorded tcp (start (ledger world)))

moved_recorded : Reaches recorded (start (ledger world)) (some (move_construct 0 two_recorded))
moved_recorded = step (step (step here (constructs tcp)) (constructs tcp)) (
    moves 0 (
      omega (
        arith,
        construct-alive recorded tcp (construct recorded tcp (start (ledger world))),
        construct-alive recorded tcp (start (ledger world)),
      )))

client_scope_closes_example :
    (u : State Client (Ledger World)) × (end_scope recorded (move_construct 0 two_recorded)
      ≡ some u)
    × (count_fd 3 u.world.closed ≡ count_fd 3 u.world.opened)
client_scope_closes_example = client_scope_closes demo world 3 (omega arith) moved_recorded

abbrev here_80 : ServerArgs
here_80 = record {
  available = true;
  type = codes "tcp";
  family = codes "ipv4";
  addr = [];
  port = 80;
}

abbrev serving : State Server (Ledger World)
serving = construct (server_class (recording demo)) here_80 (start (ledger world))

server_scope_closes_example :
    (u : State Server (Ledger World)) × (end_scope (server_class (recording demo)) serving ≡ some u)
    × (count_fd 3 u.world.closed ≡ count_fd 3 u.world.opened)
server_scope_closes_example =
    server_scope_closes demo world 3 (omega arith) (step here (constructs here_80))

-- A socket that is opened and then copied.
abbrev opens : Use
opens = creates (codes "tcp") (codes "ipv4")

abbrev opened_socket : Socket × Ledger World
opened_socket = use_socket (recording demo) opens constructed (ledger world)

copied :
    SocketReaches
      (recording demo)
      []
      (ledger world)
      (opened_socket.0 ∷ opened_socket.0 ∷ [])
      opened_socket.1
copied =
    socket_step
      (socket_step (socket_step socket_here socket_constructs) (socket_uses opens 0 (omega arith)))
      (socket_copies 0 (omega arith))

end_scope_closes_example :
    count_fd 3
        (sockets_end
          (recording demo)
          (opened_socket.0 ∷ opened_socket.0 ∷ [])
          opened_socket.1).closed
      + all_lost (recording demo) 3 copied
    ≡ count_fd 3
        (sockets_end
          (recording demo)
          (opened_socket.0 ∷ opened_socket.0 ∷ [])
          opened_socket.1).opened
      + count_fd 3
          (sockets_end
            (recording demo)
            (opened_socket.0 ∷ opened_socket.0 ∷ [])
            opened_socket.1).accepted
      + all_copied (recording demo) 3 copied
end_scope_closes_example = end_scope_closes demo 3 (omega arith) world copied

-- The copy closes the descriptor a second time.
closed_twice :
    (sockets_end (recording demo) (opened_socket.0 ∷ opened_socket.0 ∷ []) opened_socket.1).closed
    ≡ pos 3 ∷ pos 3 ∷ []
unfolding sockets_end use_socket destructed socket_create create close
closed_twice = refl

-- A method in capital letters is no method that the constructor knows.
constructed_lem_example :
    (OneOf (c_string (codes "GET")) valid_methods
      × IsInitial
          (constructed_request (codes "GET") (codes "/"))
          (c_string (codes "GET"))
          (c_string (codes "/")))
    ⊎ ((¬ OneOf (c_string (codes "GET")) valid_methods)
        × (constructed_request (codes "GET") (codes "/") ≡ zero_request))
constructed_lem_example = constructed_lem (codes "GET") (codes "/")

abbrev with_header : Request
with_header = (set_header (codes "a") (codes "b") (post (codes "/"))).1

Reaches-Keeps_example :
    Keeps posts (codes "/") (set_body (some (codes "{}")) 2 (codes "text/html") with_header).1
Reaches-Keeps_example = Reaches-Keeps (
    sets_body (some (codes "{}")) 2 (codes "text/html") (sets_header (codes "a") (codes "b") makes))
