-- ===== src/Collective/Reduce/Replay.antt =====
-- The replay on one rank: whatever buffers are used twice, the operation is applied to what the
-- children sent and the rank's own value.
use lci.Base.{
  ℕ, suc, ◌≤◌, ◌≡◌, refl, sym, subst, ap, List, [], ◌∷◌, true, false, Option, none, some, ltb,
  arith, ◌⊎◌,
}
use lci.Collective.{Action, idle, send_to, recv_from}
use lci.Collective.Tree.Spread.{spread}
use lci.Collective.Reduce.{
  Buffer, Buffers, Memory, Run, read, held, receive, replay, nchildren, fresh, unless_sent,
}

-- The rank that a rank receives from in the tree.
abbrev pub source : List Action → Option ℕ
source [] = none
source (recv_from peer ∷ actions) = some peer
source (action ∷ actions) = source actions

-- The buffers are apart, or one is enough since there is one message.
unfoldable pub IsFit : Buffers → ℕ → Type 0
IsFit b children =
    (b ≡ record { tmp_buffer = Buffer.tmp_block; data_buffer = Buffer.sendbuf })
    ⊎ ((b ≡ record { tmp_buffer = Buffer.tmp_block; data_buffer = Buffer.recvbuf })
        ⊎ ((b ≡ record { tmp_buffer = Buffer.tmp_block; data_buffer = Buffer.data_block })
            ⊎ ((children ≤ 1)
                × ((b ≡ record { tmp_buffer = Buffer.recvbuf; data_buffer = Buffer.recvbuf })
                    ⊎ (b ≡ record {
                      tmp_buffer = Buffer.tmp_block;
                      data_buffer = Buffer.tmp_block;
                    })))))

module _ {ℓ} {V : Type ℓ} (op : V → V → V) where
  abbrev pub total : (ℕ → V) → V → List Action → V
  total inbox own [] = own
  total inbox own (send_to child ∷ actions) = op (inbox child) (total inbox own actions)
  total inbox own (action ∷ actions) = total inbox own actions

  -- A rank that has not sent holds the value of the rounds that it has replayed.
  pub record IsHeld (inbox : ℕ → V) (own : V) (b : Buffers) (actions : List Action) (run : Run V)
      : Type ℓ where
    pub unsent : run.sent ≡ none
    pub received : run.has_received ≡ ltb 0 (nchildren actions)
    pub value : read (held op inbox b run) run.memory ≡ total inbox own actions

  module _ (inbox : ℕ → V) (b : Buffers) (memory : Memory V) where
    receive-IsHeld :
        (child : ℕ) (actions : List Action) (run : Run V)
        → IsFit b (suc (nchildren actions))
        → IsHeld inbox memory.sendbuf b actions run
        → IsHeld inbox memory.sendbuf b (send_to child ∷ actions) (receive op inbox b child run)
    unfolding IsFit
    receive-IsHeld child actions run fit h = record {
      unsent = h.unsent;
      received = ground arith;
      value = ground (arith, h.value, h.received, fit);
    }

    later_sent :
        (P : Run V → Type ℓ) (run rest : Run V)
        → run.sent ≡ none
        → P rest
        → P (unless_sent run.sent run rest)
    later_sent P run rest e p = subst (λ o. P (unless_sent o run rest)) (sym e) p

    IsFit-fewer : (n : ℕ) → IsFit b (suc n) → IsFit b n
    unfolding IsFit
    IsFit-fewer n h = ground arith

    pub replay-IsHeld :
        (actions : List Action)
        → spread true actions ≡ some true
        → IsFit b (nchildren actions)
        → IsHeld inbox memory.sendbuf b actions (replay op inbox b actions (fresh memory))
    unfolding replay
    replay-IsHeld [] ok fit = record { unsent = refl; received = refl; value = refl }
    replay-IsHeld (idle ∷ actions) ok fit =
        let h = replay-IsHeld actions ok fit in
        later_sent (IsHeld inbox memory.sendbuf b (idle ∷ actions)) _ _ h.unsent
          (record { unsent = h.unsent; received = h.received; value = h.value })
    replay-IsHeld (send_to child ∷ actions) ok fit =
        let h = replay-IsHeld actions ok (IsFit-fewer _ fit) in
        later_sent (IsHeld inbox memory.sendbuf b (send_to child ∷ actions)) _ _ h.unsent
          (receive-IsHeld child actions (replay op inbox b actions (fresh memory)) fit h)
    replay-IsHeld (recv_from parent ∷ actions) ok fit = cc

    already_sent :
        (run rest : Run V) (message : ℕ × V)
        → run.sent ≡ some message
        → (unless_sent run.sent run rest).sent ≡ some message
    already_sent run rest message e =
        subst (λ o. (unless_sent o run rest).sent ≡ some message) (sym e) e

    -- A rank without the data in the tree sends its total to the rank that it has the data from.
    pub replay_sends :
        (actions : List Action)
        → spread false actions ≡ some true
        → IsFit b (nchildren actions)
        → (parent : ℕ) × (source actions ≡ some parent)
          × ((replay op inbox b actions (fresh memory)).sent
              ≡ some (parent, total inbox memory.sendbuf actions))
    unfolding replay
    replay_sends [] ok fit = cc
    replay_sends (idle ∷ actions) ok fit =
        let (parent, from, sent) = replay_sends actions ok fit in
        (parent, from, already_sent _ _ _ sent)
    replay_sends (send_to child ∷ actions) ok fit = cc
    replay_sends (recv_from parent ∷ actions) ok fit =
        let h = replay-IsHeld actions ok fit in
        (
          parent,
          refl,
          later_sent (λ run. run.sent ≡ some (parent, total inbox memory.sendbuf actions)) _ _
              h.unsent (ap (λ v. some (parent, v)) h.value),
        )
