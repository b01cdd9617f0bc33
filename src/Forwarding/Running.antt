-- ===== src/Forwarding/Running.antt =====
-- The registry of p2p/stream.go over any order of its calls, repeated ones included.
use kubo.Common.{ℕ, ◌<◌, ◌^◌, refl, [], ◌∷◌, Eq, arith}
use kubo.Forwarding.Streams.{
  Stream, close_local, close_remote, reset_remote, StreamRegistry, register, close_stream,
  reset_stream,
}
use kubo.Forwarding.Peers.{
  stream_count, is_tagged, HasKeysOnce, IsCounted, register-IsCounted, deregister-IsCounted,
}

module _ {Peer : Type 0} ⦃e : Eq Peer⦄ where
  -- A registry after calls in any order. A stream may be closed and reset more than once, as the
  -- two copies of startStreaming do; no more than `limit` streams are registered in all.
  pub data IsRunning (limit : ℕ) : StreamRegistry Peer → Type 0 where
    new_registry : IsRunning limit (record { streams = []; conns = []; next_id = 0; calls = [] })
    registered :
        (s : Stream Peer) (r : StreamRegistry Peer)
        → IsRunning limit r
        → r.next_id < limit
        → IsRunning limit (register s r)
    closed :
        (s : Stream Peer) (r : StreamRegistry Peer)
        → IsRunning limit r
        → IsRunning limit (close_stream s r)
    reset :
        (s : Stream Peer) (r : StreamRegistry Peer)
        → IsRunning limit r
        → IsRunning limit (reset_stream s r)

  endpoints-IsCounted :
      (id id' : ℕ) (r : StreamRegistry Peer)
      → IsCounted r
      → IsCounted (record r { calls = close_remote id ∷ close_local id' ∷ r.calls })
        × IsCounted (record r { calls = reset_remote id ∷ close_local id' ∷ r.calls })
  unfolding is_tagged
  endpoints-IsCounted id id' r sound = (
    record {
      once = sound.once;
      own_id = sound.own_id;
      fresh = sound.fresh;
      counted = sound.counted;
      tagged = sound.tagged;
    },
    record {
      once = sound.once;
      own_id = sound.own_id;
      fresh = sound.fresh;
      counted = sound.counted;
      tagged = sound.tagged;
    },
  )

  -- After calls in any order, with fewer than 2^64 streams registered in all: the streams stand
  -- under their own IDs, no ID twice; conns holds the number of streams of each peer that has one
  -- and nothing of others; and the last call to the connection manager about a peer tagged it
  -- exactly if it has a stream.
  pub running-IsCounted :
      (limit : ℕ) (r : StreamRegistry Peer) → limit < 2 ^ 64 → IsRunning limit r → IsCounted r
  unfolding stream_count is_tagged HasKeysOnce close_stream reset_stream
  running-IsCounted limit r small new_registry = record {
    once = tt;
    own_id = λ id s. cc;
    fresh = λ id high. refl;
    counted = λ p. refl;
    tagged = λ p. refl;
  }
  running-IsCounted limit r small (registered s before running below) =
      register-IsCounted s before (running-IsCounted limit before small running) (omega arith)
  running-IsCounted limit r small (closed s before running) =
      let sound = running-IsCounted limit before small running in
      deregister-IsCounted s.id
        (record before { calls = close_remote s.id ∷ close_local s.id ∷ before.calls })
        (endpoints-IsCounted s.id s.id before sound).0
  running-IsCounted limit r small (reset s before running) =
      let sound = running-IsCounted limit before small running in
      deregister-IsCounted s.id
        (record before { calls = reset_remote s.id ∷ close_local s.id ∷ before.calls })
        (endpoints-IsCounted s.id s.id before sound).1
