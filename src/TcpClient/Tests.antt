-- ===== src/TcpClient/Tests.antt =====
-- A run of tcp-client.c, and the theorem at it.
use ukgoll_github_io.Prelude.{◌*◌, ◌≡◌, refl, true, false, none, some, List, [], ◌∷◌}
use ukgoll_github_io.TcpClient.Client.{line_size, got, sent, Selected, ready, run, initial}
use ukgoll_github_io.TcpClient.Sending.{lines, written, client_of, sends_whole_array}

-- A line of two bytes is read, and the server answers and closes.
abbrev session : List Selected
session =
    ready (record {
      socket_set = false;
      stdin_set = true;
      read = got [];
      fgets = some (7 ∷ 10 ∷ []);
      write = sent;
    })
    ∷ ready
        (record { socket_set = true; stdin_set = false; read = got []; fgets = none; write = sent })
    ∷ []

one_line_read : lines (client_of (run false session initial)).calls ≡ 1
unfolding run
one_line_read = refl

sends_whole_array_example :
    written (client_of (run false session initial)).calls
    ≡ line_size * lines (client_of (run false session initial)).calls
sends_whole_array_example = sends_whole_array false session
