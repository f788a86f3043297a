-- ===== src/Windows/Tests.antt =====
-- A Winsock with one socket, whose mode is kept in the flags of Os/Demo.

use fossil_network.Base.{
  ℕ, ◌≡◌, refl, sym, ap, Bool, true, false, Option, none, some, ℤ, pos, ◌==◌, ◌∷◌,
}
use fossil_network.Cstr.{codes}
use fossil_network.Os.Demo.{World, world, demo, peer}
use fossil_network.Socket.{Socket, zero_socket, new_socket}
use fossil_network.Windows.{
  Winsock, mode_of, create, set_blocking, keep_socket, keep_accepted, accept,
}
use fossil_network.Windows.Mode.{ModeLaws, Reaches, creates, sets, accept-restores}

abbrev winsock : Winsock World
winsock = record {
  calls = demo;
  last_error = λ w. pos 10061;
  startup = λ w. (pos 0, w);
  cleanup = λ w. w;
  socket = λ af type w. (some 3, record w { flags = pos 0 });
  closesocket = λ h w. record w { closed = h ∷ w.closed };
  ioctlsocket = λ h mode w. record w { flags = pos mode };
  accept = λ h w. ((some 7, peer), w);
  sleep_ms = λ ms w. w;
}

abbrev is_blocking : ℤ → Bool
is_blocking (pos n) = n == 0
is_blocking _ = false

mode-kept : (b : Bool) → is_blocking (pos (mode_of b)) ≡ b
mode-kept true = refl
mode-kept false = refl

winsock-ModeLaws : ModeLaws winsock
winsock-ModeLaws = record {
  blocks = λ h w. is_blocking w.flags;
  socket_blocks =
      λ af type w w' fd e. sym (ap (λ (r : Option ℕ × World). is_blocking (r.1).flags) e);
  ioctl_sets = λ h b w. mode-kept b;
}

abbrev server : Socket
server = record (new_socket (pos 3) (codes "tcp") (codes "ipv4")) { blocking = false }

server-Reaches : Reaches winsock server (record world { flags = pos 1 })
unfolding create keep_socket set_blocking
server-Reaches = sets false (
    creates {s = new_socket (pos 3) (codes "tcp") (codes "ipv4")} zero_socket (codes "tcp")
      (codes "ipv4") world refl)

accept-restores_example :
    (w1 w2 : World) × (accept winsock
        (some server)
        (some zero_socket)
        none
        (record world { flags = pos 1 })
      ≡ (keep_accepted winsock (winsock.accept server.handle w1).0 zero_socket none, w2))
    × (winsock-ModeLaws.blocks server.handle w1 ≡ false)
    × (winsock-ModeLaws.blocks server.handle w2
        ≡ winsock-ModeLaws.blocks server.handle (record world { flags = pos 1 }))
accept-restores_example = accept-restores winsock winsock-ModeLaws zero_socket none server-Reaches
