-- ===== src/Client/Tests.antt =====
-- A client on the system of Os/Demo, and on one whose connect fails.
use fossil_network.Address.{zero_address}
use fossil_network.Base.{List, [], ◌∷◌, ◌≡◌, ◌⊎◌, refl, some, pos, negsuc, success, failure}
use fossil_network.Client.{
  Client, zero_client, get_remote_address, connect, connected_to, disconnect, send,
}
use fossil_network.Client.Errors.{code, call-recorded}
use fossil_network.Client.Life.{Call, connects, disconnects, sends, call}
use fossil_network.Client.Session.{session_of, run, follow, trace, run_refines_session}
use fossil_network.Cstr.{codes, c_string, str_eq}
use fossil_network.Os.{Os}
use fossil_network.Os.Ledger.{Ledger, ledger, recording}
use fossil_network.Os.Demo.{World, world, demo}
use fossil_network.Socket.{
  zero_socket, socket_address, connect as socket_connect, connect_to as socket_connect_to,
  send as socket_send, close as socket_close,
}

abbrev client : Client
client = record zero_client { sock = record zero_socket { handle = pos 3 } }

-- The calls are refused by a system that has no peer.
abbrev down : Os World
down = record demo { connect = λ fd sa w. (negsuc 0, w); send = λ fd bytes w. (negsuc 0, w) }

call-recorded_example :
    (code down (sends (codes "hi") 2) (client, world) ≡ success)
    ⊎ ((code down (sends (codes "hi") 2) (client, world) ≡ failure)
        × ((call down (sends (codes "hi") 2) (client, world)).0 ≡ record client {
          last_error = down.errno (call down (sends (codes "hi") 2) (client, world)).1;
        }))
call-recorded_example = call-recorded down (sends (codes "hi") 2) client world

-- The address of the connection outlives it.
abbrev session_calls : List Call
session_calls = connects zero_address ∷ sends (codes "hi") 2 ∷ disconnects ∷ []

abbrev start : Client × Ledger World
start = (client, ledger world)

-- The handle was closed once.
session_closed : (session_of (run (recording demo) session_calls start)).closed ≡ pos 3 ∷ []
unfolding run call connect connected_to disconnect send socket_connect socket_connect_to
    socket_address socket_send socket_close str_eq c_string
session_closed = refl

run_refines_session_example :
    (session_of (run (recording demo) session_calls start)
      ≡ follow (trace (recording demo) session_calls start) (session_of start))
    × (get_remote_address (some (run (recording demo) session_calls start).0) (some zero_address)
        ≡ (
          success,
          some (follow (trace (recording demo) session_calls start) (session_of start)).remote,
        ))
run_refines_session_example =
    run_refines_session demo session_calls client zero_address (ledger world)
