-- ===== src/Forwarding/Peers.antt =====
-- The registry of p2p/stream.go keeps a count of the streams of each peer, and protects the peers
-- that have one.
use kubo.Common.{
  ℕ, suc, ◌+◌, ◌-◌, ◌%◌, ◌^◌, ◌<◌, ◌≤◌, ◌≡◌, sym, ◌∙◌, ap, Bool, true, false, not, Option, none,
  some, List, [], ◌∷◌, if◌then◌else◌, ltb, nat_eq, ℕ_eq, Eq, ◌==◌, ==→≡, Map, get, put, delete,
  get-put, get-delete, delete_absent, arith, Bool-cases, Option-cases, inl, inr,
}
use kubo.Forwarding.Streams.{
  Stream, OutsideCall, tag_peer, untag_peer, close_local, close_remote, reset_remote,
  StreamRegistry, conns_of, register, drop_conn, deregister,
}

-- What conns holds for a number of streams: nothing for none.
abbrev pub count_entry : ℕ → Option ℕ
count_entry n = if nat_eq n 0 then none else some n

entry_count :
    (n : ℕ) (entry : Option ℕ) → entry ≡ count_entry n → (elim entry [ none ↦ 0 | some m ↦ m ]) ≡ n
entry_count n none e = ground arith
entry_count n (some m) e = ground arith

module _ {Peer : Type 0} ⦃e : Eq Peer⦄ where
  -- The streams of a peer.
  unfoldable pub stream_count : Map ℕ (Stream Peer) → Peer → ℕ
  stream_count [] p = 0
  stream_count ((id, s) ∷ streams) p =
      let rest = stream_count streams p in if s.peer == p then suc rest else rest

  -- The last call for a peer tagged it.
  unfoldable pub is_tagged : List (OutsideCall Peer) → Peer → Bool
  is_tagged [] p = false
  is_tagged (tag_peer q ∷ calls) p = let rest = is_tagged calls p in if q == p then true else rest
  is_tagged (untag_peer q ∷ calls) p =
      let rest = is_tagged calls p in if q == p then false else rest
  is_tagged (close_local id ∷ calls) p = is_tagged calls p
  is_tagged (close_remote id ∷ calls) p = is_tagged calls p
  is_tagged (reset_remote id ∷ calls) p = is_tagged calls p

  unfoldable pub HasKeysOnce : Map ℕ (Stream Peer) → Type 0
  HasKeysOnce [] = Unit
  HasKeysOnce ((id, s) ∷ streams) = (get streams id ≡ none) × HasKeysOnce streams

  stream_count-delete :
      (streams : Map ℕ (Stream Peer)) (id : ℕ) (s : Stream Peer) (p : Peer)
      → HasKeysOnce streams
      → get streams id ≡ some s
      → stream_count streams p ≡ (if s.peer == p then 1 else 0) + stream_count (delete streams id) p
  unfolding stream_count HasKeysOnce
  stream_count-delete [] id s p once found = cc
  stream_count-delete ((i, t) ∷ streams) id s p once found = elim (Bool-cases (nat_eq i id)) [
    | inl same ↦
        let found' = rw same at found in
        let equal : t ≡ s = cc in
        let absent = rw (==→≡ i id same) at (once.0) in
        rw (same, equal, delete_absent streams id absent) (ground arith)
    | inr other ↦
        let rest = stream_count-delete streams id s p once.1 (rw other at found) in
        rw other (ground arith)
  ]

  HasKeysOnce-delete :
      (streams : Map ℕ (Stream Peer)) (id : ℕ)
      → HasKeysOnce streams
      → HasKeysOnce (delete streams id)
  unfolding HasKeysOnce
  HasKeysOnce-delete [] id once = tt
  HasKeysOnce-delete ((i, t) ∷ streams) id once = elim (Bool-cases (nat_eq i id)) [
    | inl same ↦ rw same (HasKeysOnce-delete streams id once.1)
    | inr other ↦ rw other (
      get-delete streams id i ∙ (let absent = once.0 in ground arith),
      HasKeysOnce-delete streams id once.1,
    )
  ]

  -- The streams stand under their IDs, which are below the next; conns counts them for each peer,
  -- and the peers with a stream are tagged.
  pub record IsCounted (r : StreamRegistry Peer) : Type 0 where
    pub once : HasKeysOnce r.streams
    pub own_id : (id : ℕ) (s : Stream Peer) → get r.streams id ≡ some s → s.id ≡ id
    pub fresh : (id : ℕ) → r.next_id ≤ id → get r.streams id ≡ none
    pub counted : (p : Peer) → get r.conns p ≡ count_entry (stream_count r.streams p)
    pub tagged : (p : Peer) → is_tagged r.calls p ≡ not (nat_eq (stream_count r.streams p) 0)

  counted_conns :
      (r : StreamRegistry Peer) (p : Peer)
      → IsCounted r
      → conns_of r.conns p ≡ stream_count r.streams p
  counted_conns r p sound = entry_count (stream_count r.streams p) (get r.conns p) (sound.counted p)

  pub register-IsCounted :
      (s : Stream Peer) (r : StreamRegistry Peer)
      → IsCounted r
      → r.next_id < 2 ^ 64 - 1
      → IsCounted (register s r)
  unfolding register stream_count is_tagged HasKeysOnce
  register-IsCounted s r sound small =
      let new : Stream Peer = record s { id = r.next_id } in
      let absent = sound.fresh r.next_id (omega arith) in
      let same = delete_absent r.streams r.next_id absent in
      let next : (r.next_id + 1) % 2 ^ 64 ≡ suc r.next_id = omega arith in
      let count = counted_conns r s.peer sound in
      rw (next, same)
        (record {
          once = (absent, sound.once);
          own_id = λ id t found. elim (Bool-cases (nat_eq r.next_id id)) [
            | inl here ↦
                let found' = rw here at found in
                let ids : r.next_id ≡ t.id = cc in sym ids ∙ ==→≡ r.next_id id here
            | inr other ↦ sound.own_id id t (rw other at found)
          ];
          fresh = λ id high. let old = sound.fresh id (omega arith) in ground arith;
          counted = λ p.
              get-put r.conns s.peer p (conns_of r.conns s.peer + 1)
              ∙ elim (Bool-cases (s.peer == p)) [
                | inl mine ↦ let peer = ==→≡ s.peer p mine in rw (mine, count, peer) (ground arith)
                | inr other ↦ rw other (sound.counted p)
              ];
          tagged = λ p. let was = sound.tagged p in ground arith;
        })

  removed-IsCounted :
      (id : ℕ) (r : StreamRegistry Peer) (conns : Map Peer ℕ) (calls : List (OutsideCall Peer))
      → IsCounted r
      → ((p : Peer) → get conns p ≡ count_entry (stream_count (delete r.streams id) p))
      → ((p : Peer) → is_tagged calls p ≡ not (nat_eq (stream_count (delete r.streams id) p) 0))
      → IsCounted (record r { streams = delete r.streams id; conns = conns; calls = calls })
  removed-IsCounted id r conns calls sound counted tagged =
      let look = get-delete r.streams id in
      record {
        once = HasKeysOnce-delete r.streams id sound.once;
        own_id = λ i t found.
            let found' = rw (look i) at found in
            elim (Bool-cases (nat_eq id i)) [
              | inl same ↦ let bad = rw same at found' in cc
              | inr other ↦ sound.own_id i t (rw other at found')
            ];
        fresh = λ i high. let old = sound.fresh i high in look i ∙ ground arith;
        counted = counted;
        tagged = tagged;
      }

  pub deregister-IsCounted :
      (id : ℕ) (r : StreamRegistry Peer) → IsCounted r → IsCounted (deregister id r)
  unfolding deregister drop_conn is_tagged
  deregister-IsCounted id r sound = elim (Option-cases (get r.streams id)) [
    | inl absent ↦ rw (deregister, absent) sound
    | inr (s, found) ↦
        let fewer = λ (p : Peer). stream_count-delete r.streams id s p sound.once found in
        let count = counted_conns r s.peer sound in
        elim (Bool-cases (ltb (stream_count r.streams s.peer - 1) 1)) [
          | inl last ↦
              rw (deregister, found, drop_conn, count, last)
                (removed-IsCounted id r (delete r.conns s.peer) (untag_peer s.peer ∷ r.calls) sound
                  (λ p. get-delete r.conns s.peer p ∙ elim (Bool-cases (s.peer == p)) [
                    | inl mine ↦
                        let peer = ==→≡ s.peer p mine in
                        let one = rw mine at (fewer p) in
                        let last' = rw peer at last in rw mine (ground arith)
                    | inr other ↦
                        let same = rw other at (fewer p) in
                        rw other (sound.counted p ∙ ap count_entry (same ∙ omega arith))
                  ])
                  (λ p. elim (Bool-cases (s.peer == p)) [
                    | inl mine ↦
                        let peer = ==→≡ s.peer p mine in
                        let one = rw mine at (fewer p) in
                        let last' = rw peer at last in rw mine (ground arith)
                    | inr other ↦
                        let same = rw other at (fewer p) in
                        let was = sound.tagged p in rw other (ground arith)
                  ]))
          | inr more ↦
              rw (deregister, found, drop_conn, count, more)
                (removed-IsCounted id r (put r.conns s.peer (stream_count r.streams s.peer - 1))
                  r.calls sound
                  (λ p.
                    get-put r.conns s.peer p (stream_count r.streams s.peer - 1)
                    ∙ elim (Bool-cases (s.peer == p)) [
                      | inl mine ↦
                          let peer = ==→≡ s.peer p mine in
                          let one = rw mine at (fewer p) in
                          let more' = rw peer at more in rw (mine, peer) (ground arith)
                      | inr other ↦
                          let same = rw other at (fewer p) in
                          rw other (sound.counted p ∙ ap count_entry (same ∙ omega arith))
                    ])
                  (λ p. elim (Bool-cases (s.peer == p)) [
                    | inl mine ↦
                        let peer = ==→≡ s.peer p mine in
                        let one = rw mine at (fewer p) in
                        let more' = rw peer at more in let was = sound.tagged p in ground arith
                    | inr other ↦
                        let same = rw other at (fewer p) in let was = sound.tagged p in ground arith
                  ]))
        ]
  ]
