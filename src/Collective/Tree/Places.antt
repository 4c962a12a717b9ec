-- ===== src/Collective/Tree/Places.antt =====
-- One round on one rank: what it posts, and where it stands behind it.
use lci.Base.{ℕ, ◌+◌, ◌-◌, ◌≤◌, ◌<◌, ◌≡◌, ◌&&◌, ◌==◌, arith, some, ◌%◌}
use lci.Collective.{idle, send_to, recv_from, sends_to, receives_from}
use lci.Collective.Tree.{Place, sends, action, next}

-- A rank has the data if it is no rank away from one that has.
pub record IsPlaced (p : Place) : Type 0 where
  pub flag : p.has_data ≡ (p.distance_left == 0)

pub next-IsPlaced : (p : Place) (jump : ℕ) → 0 < jump → IsPlaced p → IsPlaced (next p jump)
unfolding next sends
next-IsPlaced p jump pos h = record { flag = ground (arith, h.flag) }

pub sends_to-action :
    (n rank b : ℕ) (p : Place) (jump : ℕ)
    → sends_to b (some (action n rank p jump)) ≡ (sends p jump && ((rank + jump) % n == b))
unfolding action sends
sends_to-action n rank b p jump = ground arith

pub receives_from-action :
    (n rank a : ℕ) (p : Place) (jump : ℕ)
    → 0 < jump
    → IsPlaced p
    → receives_from a (some (action n rank p jump))
      ≡ ((p.distance_left == jump) && ((rank + n - jump) % n == a))
unfolding action sends
receives_from-action n rank a p jump pos h = ground (arith, h.flag)

pub action-sends :
    (n rank : ℕ) (p : Place) (jump : ℕ)
    → IsPlaced p
    → p.distance_left ≡ 0
    → jump ≤ p.distance_right
    → action n rank p jump ≡ send_to ((rank + jump) % n)
unfolding action sends
action-sends n rank p jump h z le = ground (arith, h.flag)

pub action-receives :
    (n rank : ℕ) (p : Place) (jump : ℕ)
    → 0 < jump
    → IsPlaced p
    → p.distance_left ≡ jump
    → action n rank p jump ≡ recv_from ((rank + n - jump) % n)
unfolding action sends
action-receives n rank p jump pos h e = ground (arith, h.flag)

pub action_full :
    (n rank : ℕ) (p : Place) (jump : ℕ)
    → 0 < jump
    → p.distance_left ≡ 0
    → p.distance_right < jump
    → action n rank p jump ≡ idle
unfolding action sends
action_full n rank p jump pos z lt = ground arith

pub action_away :
    (n rank : ℕ) (p : Place) (jump : ℕ)
    → 0 < jump
    → IsPlaced p
    → 0 < (next p jump).distance_left
    → action n rank p jump ≡ idle
unfolding action sends next
action_away n rank p jump pos h away = ground (arith, h.flag)

-- Behind a round: a rank that receives has the data, and so has one that had it, which keeps the
-- left part of its segment.
pub next_taken : (p : Place) (jump : ℕ) → p.distance_left ≡ jump → (next p jump).distance_left ≡ 0
unfolding next
next_taken p jump e = ground arith

pub next_zero :
    (p : Place) (jump : ℕ) → 0 < jump → p.distance_left ≡ 0 → (next p jump).distance_left ≡ 0
unfolding next
next_zero p jump pos z = ground arith

pub next_whole :
    (p : Place) (jump : ℕ)
    → 0 < jump
    → p.distance_left ≡ 0
    → p.distance_right < jump
    → (next p jump).distance_right ≡ p.distance_right
unfolding next
next_whole p jump pos z lt = ground arith

pub next_kept :
    (p : Place) (jump : ℕ)
    → 0 < jump
    → p.distance_left ≡ 0
    → jump ≤ p.distance_right
    → (next p jump).distance_right + 1 ≡ jump
unfolding next
next_kept p jump pos z le = ground arith

pub next_given :
    (p : Place) (jump : ℕ)
    → p.distance_left ≡ jump
    → (next p jump).distance_right ≡ p.distance_right
unfolding next
next_given p jump e = ground arith
