-- ===== src/Collective/Peers/Exchanged.antt =====
-- Direct collectives: every pair of ranks exchanges the messages that it is to exchange.
use lci.Base.{
  ℕ, zero, suc, ◌+◌, ◌-◌, ◌%◌, ◌<◌, ◌≡◌, refl, ap, ◌∙◌, List, [], ◌∷◌, ◌++◌, if◌then◌else◌, ◌==◌,
  ◌&&◌, not, map, arith, length, length-append,
}
use lci.Collective.{Action, send_to, recv_from, idle}
use lci.Collective.Peers.{
  range, peers, others, around, broadcast_direct, alltoall, allgather, allgather_threshold,
}
use lci.Collective.Peers.Counted.{
  sends_count, receives_count, once, count-peers, count-others, count-around, sends_count-sends,
  sends_count-receives, sends_count-exchange, receives_count-sends, receives_count-receives,
  receives_count-exchange,
}

sends_count-append :
    (b : ℕ) (xs ys : List Action) → sends_count b (xs ++ ys) ≡ sends_count b xs + sends_count b ys
sends_count-append b [] ys = omega arith
sends_count-append b (send_to peer ∷ xs) ys = ground (arith, sends_count-append b xs ys)
sends_count-append b (recv_from peer ∷ xs) ys = sends_count-append b xs ys
sends_count-append b (idle ∷ xs) ys = sends_count-append b xs ys

receives_count-append :
    (a : ℕ) (xs ys : List Action)
    → receives_count a (xs ++ ys) ≡ receives_count a xs + receives_count a ys
receives_count-append a [] ys = omega arith
receives_count-append a (recv_from peer ∷ xs) ys = ground (arith, receives_count-append a xs ys)
receives_count-append a (send_to peer ∷ xs) ys = receives_count-append a xs ys
receives_count-append a (idle ∷ xs) ys = receives_count-append a xs ys

length-map {ℓ} : {B : Type ℓ} (f : ℕ → B) (xs : List ℕ) → length (map f xs) ≡ length xs
length-map f [] = refl
length-map f (x ∷ xs) = ap suc (length-map f xs)

length-range : (m i : ℕ) → length (range m i) ≡ m
unfolding range
length-range zero i = refl
length-range (suc m) i = ap suc (length-range m (i + 1))

length-posted : (f : ℕ → Action) (n rank : ℕ) → length (map f (peers n rank)) ≡ n - 1
unfolding peers
length-posted f n rank =
    length-map f (peers n rank)
    ∙ length-map (λ i. (rank + i) % n) (range (n - 1) 1)
    ∙ length-range (n - 1) 1

-- In a direct broadcast the root sends one message to every other rank and no other rank sends; a
-- rank that is not the root receives one message, from the root, and the root none.
pub broadcast_direct_lem :
    (nranks root a b : ℕ)
    → root < nranks
    → a < nranks
    → b < nranks
    → (sends_count b (broadcast_direct nranks root a)
        ≡ (if (a == root) && not (b == root) then 1 else 0))
      × (receives_count a (broadcast_direct nranks root b)
          ≡ (if (a == root) && not (b == root) then 1 else 0))
unfolding broadcast_direct
broadcast_direct_lem n root a b r ha hb = ground (
  arith,
  sends_count-sends b (around n a),
  receives_count-sends a (around n b),
  count-around n a b ha hb,
)

-- With `alltoall` and with `allgather` every rank sends one message to each other rank and receives
-- one from it, and none to itself; the synchronizer of `allgather` expects as many signals as
-- operations are posted.
pub exchanges_lem :
    (nranks a b : ℕ)
    → a < nranks
    → b < nranks
    → (sends_count b (alltoall nranks a) ≡ once a b)
      × (receives_count b (alltoall nranks a) ≡ once a b)
      × (sends_count b (allgather nranks a) ≡ once a b)
      × (receives_count b (allgather nranks a) ≡ once a b)
      × (length (allgather nranks a) ≡ allgather_threshold nranks)
unfolding alltoall allgather allgather_threshold
exchanges_lem n a b ha hb = (
  sends_count-exchange b (others n a) ∙ count-others n a b hb,
  receives_count-exchange b (others n a) ∙ count-others n a b hb,
  omega (
    arith,
    sends_count-append b (map recv_from (peers n a)) (map send_to (peers n a)),
    sends_count-receives b (peers n a),
    sends_count-sends b (peers n a),
    count-peers n a b ha hb,
  ),
  omega (
    arith,
    receives_count-append b (map recv_from (peers n a)) (map send_to (peers n a)),
    receives_count-receives b (peers n a),
    receives_count-sends b (peers n a),
    count-peers n a b ha hb,
  ),
  omega (
    arith,
    length-append (map recv_from (peers n a)) (map send_to (peers n a)),
    length-posted recv_from n a,
    length-posted send_to n a,
  ),
)
