-- ===== src/Collective/Reduce/Result.antt =====
-- What the root of a reduction has in its output buffer.
use lci.Base.{
  ℕ, zero, suc, ◌+◌, ◌-◌, ◌%◌, ◌<◌, ◌≡◌, ◌≢◌, refl, sym, ap, subst, ◌∙◌, Bool, true, false, some,
  ◌==◌, ==_refl, ==_ne, Bool-cases, inl, inr, arith, if◌then◌else◌, ℕ_discrete,
}
use lci.Collective.Tree.{tree, start, rounds, jumps, half}
use lci.Collective.Ranks.{distance_cases, wrap_cases, distances_sum, distance_self, distance_ne}
use lci.Collective.Tree.Places.{action-sends}
use lci.Collective.Tree.Split.{start-IsSplit}
use lci.Collective.Tree.Spread.{tree-spread, spread}
use lci.Collective.Reduce.{
  Buffer, Memory, read, reduce, replay, fresh, output, choose_buffers, nchildren,
}
use lci.Collective.Reduce.Replay.{IsFit, total, source, replay-IsHeld, replay_sends}
use lci.Collective.Reduce.Segments.{segment, jumps-IsTotal}

choose_buffers-IsFit :
    (is_root in_place : Bool) (children : ℕ)
    → IsFit (choose_buffers is_root in_place children) children
unfolding IsFit choose_buffers
choose_buffers-IsFit true true k = elim (Bool-cases (k == 1)) [
  | inl one ↦ rw one (inl refl)
  | inr more ↦ rw more (inl refl)
]
choose_buffers-IsFit true false k = elim (Bool-cases (k == 1)) [
  | inl one ↦ rw one (inr (inr (inr (ground arith, inl refl))))
  | inr more ↦ rw more (inr (inl refl))
]
choose_buffers-IsFit false in_place k = elim (Bool-cases (k == 1)) [
  | inl one ↦ rw one (inr (inr (inr (ground arith, inr refl))))
  | inr more ↦ rw more (inr (inr (inl refl)))
]

-- The root has a child.
root_sends : (n root : ℕ) → 1 < n → root < n → 0 < nchildren (tree n root root)
unfolding tree jumps rounds
root_sends zero root h r = absurd (omega arith)
root_sends (suc m) root h r =
    let s = start-IsSplit (suc m) root r in
    rw
      (action-sends (suc m) root (start (suc m) root root) (half (suc m)) (s.placed root r)
        (omega (arith, distance_cases (suc m) root root r r))
        (omega (arith, wrap_cases (suc m) (root + suc m - 1 - root) (omega arith))))
      (omega arith)

root_buffer :
    (root : ℕ) (in_place : Bool) (children : ℕ)
    → (choose_buffers (root == root) in_place children).data_buffer ≡ output in_place
unfolding choose_buffers
root_buffer root in_place children = rw (==_refl root) refl

module _ {ℓ} {V : Type ℓ} (op : V → V → V) where
  reduce_eq :
      (inbox : ℕ → V) (n root rank : ℕ) (in_place : Bool) (memory : Memory V)
      → n ≢ 1
      → reduce op inbox n root rank in_place memory
        ≡ replay op inbox
            (choose_buffers (rank == root) in_place (nchildren (tree n root rank)))
            (tree n root rank)
            (fresh memory)
  unfolding reduce
  reduce_eq inbox n root rank in_place memory h = rw (==_ne n 1 h) refl

  spread_root : (n root : ℕ) → root < n → spread true (tree n root root) ≡ some true
  spread_root n root r = rw (==_refl root) at (tree-spread n root root r r)

  root_value :
      (inbox : ℕ → V) (n root : ℕ) (in_place : Bool) (memory : Memory V)
      → 1 < n
      → root < n
      → read (output in_place) (reduce op inbox n root root in_place memory).memory
        ≡ total op inbox memory.sendbuf (tree n root root)
  unfolding choose_buffers
  root_value inbox n root in_place memory h r =
      let actions = tree n root root in
      let buffers = choose_buffers (root == root) in_place (nchildren actions) in
      let run = replay op inbox buffers actions (fresh memory) in
      let kept =
        replay-IsHeld op inbox buffers memory actions (spread_root n root r)
          (choose_buffers-IsFit (root == root) in_place (nchildren actions)) in
      let received : run.has_received ≡ true =
        kept.received ∙ ground (arith, root_sends n root h r) in
      ap (λ x. read (output in_place) x.memory)
        (reduce_eq inbox n root root in_place memory (ground arith))
      ∙ ap (λ b. read b run.memory)
          (sym (
            ap (λ flag. if◌then◌else◌ {A = Buffer} flag buffers.data_buffer Buffer.sendbuf) received
            ∙ root_buffer root in_place (nchildren actions)))
      ∙ kept.value

  single_value :
      (inbox : ℕ → V) (root : ℕ) (in_place : Bool) (memory : Memory V)
      → read (output in_place) (reduce op inbox 1 root root in_place memory).memory ≡ memory.sendbuf
  unfolding reduce
  single_value inbox root true memory = refl
  single_value inbox root false memory = refl

  -- What is received of a rank is its total.
  sent_total :
      (inbox : ℕ → ℕ → V) (n root c : ℕ) (in_place : Bool) (memory : Memory V)
      → 1 < n
      → root < n
      → c < n
      → c ≢ root
      → ((parent : ℕ) (value : V)
          → (reduce op (inbox c) n root c in_place memory).sent ≡ some (parent, value)
          → inbox parent c ≡ value)
      → (parent : ℕ) → source (tree n root c) ≡ some parent
      → inbox parent c ≡ total op (inbox c) memory.sendbuf (tree n root c)
  sent_total inbox n root c in_place memory h r hc ne delivered parent from =
      let actions = tree n root c in
      let buffers = choose_buffers (c == root) in_place (nchildren actions) in
      let (other, from', sent) =
        replay_sends op (inbox c) buffers memory actions
          (rw (==_ne c root ne) at (tree-spread n root c r hc))
          (choose_buffers-IsFit (c == root) in_place (nchildren actions)) in
      let value = total op (inbox c) memory.sendbuf actions in
      let same : other ≡ parent = cc in
      subst (λ p. inbox p c ≡ value) same
        (delivered other value (
          ap (λ run. run.sent) (reduce_eq (inbox c) n root c in_place memory (ground arith))
          ∙ sent))

  segment_same : (v : ℕ → V) {s t k l : ℕ} → s ≡ t → k ≡ l → segment op v s k ≡ segment op v t l
  segment_same v {t = t} {k = k} e q = ap (λ s. segment op v s k) e ∙ ap (segment op v t) q

  -- When every rank runs `reduce` with an associative operation and what a rank receives is what
  -- the sender sent to it, the output buffer of the root ends with the values of all ranks, each
  -- taken once and combined from the last rank, counted from the root, down to the root. This holds
  -- whether the buffers of a rank are the same or not.
  pub reduce_lem :
      (nranks root : ℕ) (in_place : ℕ → Bool) (memories : ℕ → Memory V) (inbox : ℕ → ℕ → V)
      → ((x y z : V) → op (op x y) z ≡ op x (op y z))
      → root < nranks
      → ((rank parent : ℕ) (value : V)
          → rank < nranks
          → (reduce op (inbox rank) nranks root rank (in_place rank) (memories rank)).sent
            ≡ some (parent, value)
          → inbox parent rank ≡ value)
      → read
          (output (in_place root))
          (reduce op (inbox root) nranks root root (in_place root) (memories root)).memory
        ≡ segment op (λ i. (memories ((i + root) % nranks)).sendbuf) 0 (nranks - 1)
  unfolding tree
  reduce_lem n root in_place memories inbox assoc r delivered = elim (ℕ_discrete n 1) [
    | yes one ↦
        subst
          (λ k.
            read (output (in_place root))
              (reduce op (inbox root) k root root (in_place root) (memories root)).memory
            ≡ segment op (λ i. (memories ((i + root) % k)).sendbuf) 0 (k - 1))
          (sym one)
          (single_value (inbox root) root (in_place root) (memories root)
            ∙ ap (λ i. (memories i).sendbuf) {x = root} {y = (0 + root) % 1}
                (omega (arith, wrap_cases 1 (0 + root) (omega arith))))
    | no more ↦
        root_value (inbox root) n root (in_place root) (memories root) (ground arith) r
        ∙ jumps-IsTotal op assoc n root r (λ a. (memories a).sendbuf) inbox n (half n)
            (start n root) (omega arith) (omega arith) (start-IsSplit n root r)
            (λ a ha. omega (arith, distances_sum n root a r ha))
            (λ c hc away.
              sent_total inbox n root c (in_place c) (memories c) (ground arith) r hc
                (distance_ne n root c r away) (λ p v. delivered c p v hc))
            root r (distance_self n root r)
        ∙ segment_same (λ i. (memories ((i + root) % n)).sendbuf) (distance_self n root r)
            (omega (arith, distances_sum n root root r r, distance_self n root r))
  ]
