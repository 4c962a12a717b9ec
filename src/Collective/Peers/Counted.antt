-- ===== src/Collective/Peers/Counted.antt =====
-- Every loop over the other ranks meets each of them once, and what is sent is received.
use lci.Base.{
  ℕ, zero, suc, ◌+◌, ◌-◌, ◌%◌, ◌≤◌, ◌<◌, ◌≡◌, refl, ap, ◌∙◌, List, [], ◌∷◌, if◌then◌else◌, ◌==◌,
  ltb, leb, ◌&&◌, map, arith,
}
use lci.Collective.{Action, send_to, recv_from}
use lci.Collective.Ranks.{distance, distance_cases, distance_self, send_shift}
use lci.Collective.Peers.{range, peers, skip, others, around, exchange}

abbrev pub count : ℕ → List ℕ → ℕ
count b [] = 0
count b (a ∷ ranks) = if a == b then suc (count b ranks) else count b ranks

abbrev pub sends_count : ℕ → List Action → ℕ
sends_count b [] = 0
sends_count b (send_to peer ∷ actions) =
    if peer == b then suc (sends_count b actions) else sends_count b actions
sends_count b (action ∷ actions) = sends_count b actions

abbrev pub receives_count : ℕ → List Action → ℕ
receives_count a [] = 0
receives_count a (recv_from peer ∷ actions) =
    if peer == a then suc (receives_count a actions) else receives_count a actions
receives_count a (action ∷ actions) = receives_count a actions

-- One value of the loop variable leads to each rank.
count_shifted :
    (n rank b m i : ℕ)
    → rank < n
    → b < n
    → i + m ≤ n
    → count b (map (λ i. (rank + i) % n) (range m i))
      ≡ (if leb i (distance n rank b) && ltb (distance n rank b) (i + m) then 1 else 0)
unfolding range
count_shifted n rank b zero i r h le = ground arith
count_shifted n rank b (suc m) i r h le = ground (
  arith,
  count_shifted n rank b m (i + 1) r h (omega arith),
  send_shift n rank rank b i r r h (omega (arith, distance_self n rank r)),
  distance_self n rank r,
)

count-skip :
    (rank b : ℕ) (xs : List ℕ) → count b (skip rank xs) ≡ (if b == rank then 0 else count b xs)
count-skip rank b [] = ground arith
count-skip rank b (x ∷ xs) = ground (arith, count-skip rank b xs)

count-range : (b m i : ℕ) → count b (range m i) ≡ (if leb i b && ltb b (i + m) then 1 else 0)
unfolding range
count-range b zero i = ground arith
count-range b (suc m) i = ground (arith, count-range b m (i + 1))

turned : (n rank : ℕ) (xs : List ℕ) → map (λ i. (i + rank) % n) xs ≡ map (λ i. (rank + i) % n) xs
turned n rank [] = refl
turned n rank (x ∷ xs) =
    ap (λ k. k % n ∷ map (λ i. (i + rank) % n) xs) {x = x + rank} {y = rank + x} (omega arith)
    ∙ ap (λ ys. (rank + x) % n ∷ ys) (turned n rank xs)

-- The rank itself is left out, every other one is met once.
abbrev pub once : ℕ → ℕ → ℕ
once rank b = if b == rank then 0 else 1

pub count-peers : (n rank b : ℕ) → rank < n → b < n → count b (peers n rank) ≡ once rank b
unfolding peers
count-peers n rank b r h =
    ground (arith, count_shifted n rank b (n - 1) 1 r h (omega arith), distance_cases n rank b r h)

pub count-others : (n rank b : ℕ) → b < n → count b (others n rank) ≡ once rank b
unfolding others
count-others n rank b h = ground (arith, count-skip rank b (range n 0), count-range b n 0)

pub count-around : (n rank b : ℕ) → rank < n → b < n → count b (around n rank) ≡ once rank b
unfolding around
count-around n rank b r h =
    ap (λ xs. count b (skip rank xs)) (turned n rank (range n 0))
    ∙ ground (
      arith,
      count-skip rank b (map (λ i. (rank + i) % n) (range n 0)),
      count_shifted n rank b n 0 r h (omega arith),
      distance_cases n rank b r h,
    )

pub sends_count-sends : (b : ℕ) (xs : List ℕ) → sends_count b (map send_to xs) ≡ count b xs
sends_count-sends b [] = refl
sends_count-sends b (x ∷ xs) = ground (arith, sends_count-sends b xs)

pub sends_count-receives : (b : ℕ) (xs : List ℕ) → sends_count b (map recv_from xs) ≡ 0
sends_count-receives b [] = refl
sends_count-receives b (x ∷ xs) = sends_count-receives b xs

pub receives_count-receives :
    (a : ℕ) (xs : List ℕ) → receives_count a (map recv_from xs) ≡ count a xs
receives_count-receives a [] = refl
receives_count-receives a (x ∷ xs) = ground (arith, receives_count-receives a xs)

pub receives_count-sends : (a : ℕ) (xs : List ℕ) → receives_count a (map send_to xs) ≡ 0
receives_count-sends a [] = refl
receives_count-sends a (x ∷ xs) = receives_count-sends a xs

pub sends_count-exchange : (b : ℕ) (xs : List ℕ) → sends_count b (exchange xs) ≡ count b xs
sends_count-exchange b [] = refl
sends_count-exchange b (x ∷ xs) = ground (arith, sends_count-exchange b xs)

pub receives_count-exchange : (a : ℕ) (xs : List ℕ) → receives_count a (exchange xs) ≡ count a xs
receives_count-exchange a [] = refl
receives_count-exchange a (x ∷ xs) = ground (arith, receives_count-exchange a xs)
