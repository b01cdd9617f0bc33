-- ===== src/Forwarding/Examples.antt =====
-- Two streams of one peer, one of them closed, and two listeners, one of them closed.
use kubo.Common.{◌≡◌, refl, some, String, string_eq, [], ◌∷◌, ◌==◌, get, ℕ_eq, arith, err}
use kubo.Forwarding.Streams.{
  Stream, tag_peer, close_local, close_remote, StreamRegistry, register, deregister, drop_conn,
  close_stream,
}
use kubo.Forwarding.Peers.{IsCounted}
use kubo.Forwarding.Running.{IsRunning, new_registry, registered, closed, running-IsCounted}
use kubo.Forwarding.Listeners.{
  register_listener, already_registered, register_call, close_call, after,
  close_listeners-unmatched,
}

abbrev stream : Stream String
stream = record { id = 0; protocol = "/x/ssh"; peer = "12D3KooW" }

abbrev no_streams : StreamRegistry String
no_streams = record { streams = []; conns = []; next_id = 0; calls = [] }

abbrev one_left : StreamRegistry String
one_left = record {
  streams = (1, record stream { id = 1 }) ∷ [];
  conns = ("12D3KooW", 1) ∷ [];
  next_id = 2;
  calls = close_remote 0 ∷ close_local 0 ∷ tag_peer "12D3KooW" ∷ tag_peer "12D3KooW" ∷ [];
}

one_left-IsRunning : IsRunning 10 one_left
unfolding register close_stream deregister drop_conn
one_left-IsRunning = closed stream (register stream (register stream no_streams)) (
    registered stream (register stream no_streams)
      (registered stream no_streams new_registry (omega arith)) (omega arith))

running-IsCounted_example : IsCounted one_left
running-IsCounted_example = running-IsCounted 10 one_left (omega arith) one_left-IsRunning

-- A listener is its key and the address that it listens on.
abbrev key_of : String × String → String
key_of listener = listener.0

abbrev ssh : String × String
ssh = ("/x/ssh", "/ip4/127.0.0.1/tcp/22")

abbrev web : String × String
web = ("/x/web", "/ip4/127.0.0.1/tcp/80")

registered_twice :
    (register_listener key_of ssh (after key_of (register_call ssh ∷ register_call web ∷ []))).0
    ≡ err already_registered
unfolding register_listener
registered_twice = refl

close_listeners-unmatched_example :
    get
      (after key_of
        (close_call (λ l. l.0 == "/x/web") ∷ register_call ssh ∷ register_call web ∷ [])).listeners
      "/x/ssh"
    ≡ some ssh
unfolding register_listener
close_listeners-unmatched_example =
    close_listeners-unmatched key_of (register_call ssh ∷ register_call web ∷ [])
      (λ l. l.0 == "/x/web") "/x/ssh"
