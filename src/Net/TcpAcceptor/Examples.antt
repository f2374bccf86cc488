-- ===== src/Net/TcpAcceptor/Examples.antt =====
-- Tests of src/net/TCPAcceptor.cpp, and an instance of its theorem.
use hohnor.Prelude.{◌≡◌, true, List, [], ◌∷◌, Option, none, some}
use hohnor.Net.TcpAcceptor.{AcceptResult, accepted, refused, aborted, TcpAcceptor, serve}
use hohnor.Net.TcpAcceptor.Accepting.{Serves, serve-accepts}

-- A client that gives up before it is accepted ends the server.
abbrev results : List AcceptResult
results = accepted 7 ∷ accepted 8 ∷ refused aborted ∷ accepted 9 ∷ []

gives_up : (m : Option TcpAcceptor) → Serves 4 results m → m ≡ none
gives_up m (a, c, e, _, _, _) = e

abbrev clients : List AcceptResult
clients = accepted 7 ∷ accepted 8 ∷ accepted 9 ∷ []

serve-accepts_example : Serves 4 clients (serve true (some 4) clients)
serve-accepts_example = serve-accepts 4 clients
