-- ===== src/Forwarding/Streams.antt =====
-- p2p/stream.go: the registry of the streams that are forwarded. A stream is the object behind its
-- pointer: what the registry reads of it does not change after Register, which gives it its ID. The
-- connection manager and the endpoints of a stream belong to other packages; the registry only
-- calls them, and the calls are listed, newest first.
use kubo.Common.{
  ℕ, ◌+◌, ◌-◌, ◌%◌, ◌^◌, String, none, some, List, ◌∷◌, if◌then◌else◌, ltb, ℕ_eq, Eq, Map, get, put,
  delete,
}

pub record Stream (Peer : Type 0) : Type 0 where
  pub id : ℕ
  pub protocol : String
  pub peer : Peer

pub data OutsideCall (Peer : Type 0) : Type 0 where
  tag_peer untag_peer : Peer → OutsideCall Peer
  close_local close_remote reset_remote : ℕ → OutsideCall Peer

pub record StreamRegistry (Peer : Type 0) : Type 0 where
  pub streams : Map ℕ (Stream Peer)
  pub conns : Map Peer ℕ
  pub next_id : ℕ
  pub calls : List (OutsideCall Peer)

module _ {Peer : Type 0} ⦃e : Eq Peer⦄ where
  -- r.conns[p]
  abbrev pub conns_of : Map Peer ℕ → Peer → ℕ
  conns_of conns p = elim (get conns p) [ none ↦ 0 | some n ↦ n ]

  unfoldable pub register : Stream Peer → StreamRegistry Peer → StreamRegistry Peer
  register stream_info r = record r {
    streams = put r.streams r.next_id (record stream_info { id = r.next_id });
    conns = put r.conns stream_info.peer (conns_of r.conns stream_info.peer + 1);
    next_id = (r.next_id + 1) % 2 ^ 64;
    calls = tag_peer stream_info.peer ∷ r.calls;
  }

  -- The count of a peer without one stream. A count of 0 would become -1 in the source, which is
  -- below 1 like the 0 here, and is deleted.
  unfoldable pub drop_conn : Peer → StreamRegistry Peer → StreamRegistry Peer
  drop_conn p r =
      let n = conns_of r.conns p - 1 in
      if ltb n 1
      then record r { conns = delete r.conns p; calls = untag_peer p ∷ r.calls }
      else record r { conns = put r.conns p n }

  unfoldable pub deregister : ℕ → StreamRegistry Peer → StreamRegistry Peer
  deregister stream_id r = elim (get r.streams stream_id) [
    | none ↦ r
    | some s ↦
        let dropped = drop_conn s.peer r in
        record dropped { streams = delete dropped.streams stream_id }
  ]

  unfoldable pub close_stream : Stream Peer → StreamRegistry Peer → StreamRegistry Peer
  close_stream s r =
      deregister s.id (record r { calls = close_remote s.id ∷ close_local s.id ∷ r.calls })

  unfoldable pub reset_stream : Stream Peer → StreamRegistry Peer → StreamRegistry Peer
  reset_stream s r =
      deregister s.id (record r { calls = reset_remote s.id ∷ close_local s.id ∷ r.calls })
