-- ===== src/PacketSet/Tests.antt =====
-- A deque that wraps around below slot 0, and two threads of which one steals from the other.
use mathlib.Core.List.{reverse}
use lci.Base.{
  length, min, false, ℕ, zero, suc, ◌<◌, ◌≡◌, refl, ap, true, Option, none, some, List, [], ◌∷◌,
  ◌++◌, get_or, set, drop, arith,
}
use lci.Base.Int.{pos, negsuc}
use lci.PacketSet.{
  LocalSet, add_index, next_index, get_position, all_present, push_to_bot, push_to_top,
  pop_from_top, pop_from_bot,
}
use lci.PacketSet.Window.{window}
use lci.PacketSet.Deque.{Holds}
use lci.PacketSet.Deques.{first_or_null, last_or_null, but_last, deque_refines}
use lci.PacketSet.Pools.{MpmcSet, get_n, put, no_pool, any_free}
use lci.PacketSet.Locals.{IsHeld}
use lci.PacketSet.Liveness.{get_n-gives}
use lci.PacketSet.Safety.{IsGiven, IsPut, get_n-IsGiven, put-IsPut}

-- Packets 11, 12 and 13 in three of four slots, from index -1.
abbrev wrapped : LocalSet
wrapped = record { queue = 12 ∷ 13 ∷ 0 ∷ 11 ∷ []; head = negsuc 0; tail = pos 2 }

abbrev three_packets : List ℕ
three_packets = 11 ∷ 12 ∷ 13 ∷ []

wrapped-Holds : Holds wrapped three_packets
unfolding add_index next_index get_position window all_present
wrapped-Holds = record {
  spans = refl;
  roomy = omega arith;
  wide = omega arith;
  shows = refl;
  real = refl;
}

deque_refines_example :
    ((s' : LocalSet) × (push_to_bot wrapped 14 ≡ some s') × Holds s' (three_packets ++ (14 ∷ [])))
    × ((s' : LocalSet) × (push_to_top wrapped 14 ≡ some s') × Holds s' (14 ∷ three_packets))
    × ((s' : LocalSet) × (pop_from_top wrapped ≡ some (s', first_or_null three_packets))
        × Holds s' (drop 1 three_packets))
    × ((s' : LocalSet) × (pop_from_bot wrapped ≡ some (s', last_or_null three_packets))
        × Holds s' (but_last three_packets))
deque_refines_example = deque_refines wrapped three_packets 14 wrapped-Holds (omega arith)

abbrev pool_of : ℕ → Option ℕ
pool_of zero = some 0
pool_of (suc n) = none

abbrev id_or_zero : Option ℕ → ℕ
id_or_zero none = 0
id_or_zero (some id) = id

-- Thread 0 has a pool; thread 1 has none yet.
abbrev one_pool : MpmcSet
one_pool = record { default_lpool_size = 4; pools = wrapped ∷ []; tid_to_pools = pool_of }

one_pool-IsHeld : IsHeld one_pool (three_packets ∷ [])
one_pool-IsHeld = record {
  hold = record { same_length = refl; each = each_holds };
  found = known;
  sized = omega arith;
}
  where
    each_holds :
        (i : ℕ) → i < 1 → Holds (get_or (wrapped ∷ []) i no_pool) (get_or (three_packets ∷ []) i [])
    each_holds zero h = wrapped-Holds
    each_holds (suc i) h = absurd (omega arith)

    known : (tid id : ℕ) → pool_of tid ≡ some id → id < 1
    known zero id e = omega (arith, ap id_or_zero e)
    known (suc tid) id e = omega (arith, ap id_or_zero e)

-- Thread 1 finds its own pool empty and steals.
get_n-IsGiven_example :
    IsGiven
      (get_n 1 2 (true ∷ []) (record { random = 0; lock_free = true } ∷ []) one_pool)
      2
      (three_packets ∷ [])
get_n-IsGiven_example =
    get_n-IsGiven 1 2 (true ∷ []) (record { random = 0; lock_free = true } ∷ []) one_pool
      (three_packets ∷ []) one_pool-IsHeld

put-IsPut_example : IsPut (put 1 21 (pos 0) one_pool) 21 (three_packets ∷ [])
put-IsPut_example =
    put-IsPut 1 21 (pos 0) one_pool (three_packets ∷ []) one_pool-IsHeld (omega arith)

get_n-gives_example :
    (after : MpmcSet) × (out : List ℕ) × (kept : List ℕ) × (get_n 0 2
        (false ∷ true ∷ [])
        []
        one_pool
      ≡ some (after, out))
    × (length out ≡ min 2 (length (get_or (three_packets ∷ []) 0 [])))
    × (kept ++ reverse out ≡ get_or (three_packets ∷ []) 0 [])
    × IsHeld after (set (three_packets ∷ []) 0 kept)
get_n-gives_example =
    get_n-gives 0 2 0 (false ∷ true ∷ []) [] one_pool (three_packets ∷ []) one_pool-IsHeld refl
      (unfold any_free in refl) (omega arith)
