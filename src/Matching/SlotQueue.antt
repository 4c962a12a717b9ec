-- ===== src/Matching/SlotQueue.antt =====
-- `matching_engine_map_t::queue_t` of src/matching_engine/matching_engine_map.hpp: the values of one
-- key, in two slots or in a chain of nodes of seven.
use lci.Base.{
  ℕ, zero, suc, ◌+◌, ◌-◌, ◌≤◌, ◌<◌, ◌≡◌, refl, ◌≢◌, Bool, true, false, ◌&&◌, not, List, [], ◌∷◌,
  ◌++◌, if◌then◌else◌, leb, ◌==◌, length, get_or, set, drop, replicate, arith,
}
use lci.Matching.{EntryType}
pub mod Loops
pub mod Fifo

-- `NODE_NUM_VALUES`: what fits beside a pointer in a cache line of 64 bytes.
abbrev pub node_num_values : ℕ
node_num_values = 7

abbrev pub slot_num_values : ℕ
slot_num_values = 2

-- The union: two slots, or the nodes from `list.head` to `list.tail`. 0 is `VALUE_EMPTY`.
pub data Storage : Type 0 where
  slots : (values : List ℕ) → Storage
  nodes : (chain : List (List ℕ)) → Storage

pub record Queue : Type 0 where
  pub is_empty : Bool
  pub type : EntryType
  pub key : ℕ
  pub storage : Storage

pub record Scan : Type 0 where
  pub ret : ℕ
  pub values : List ℕ
  pub nlefts : ℕ

-- The loop of `pop`: takes the first value that is there, and counts the others.
unfoldable pub scan : List ℕ → ℕ → Scan
scan [] ret = record { ret = ret; values = []; nlefts = 0 }
scan (x ∷ xs) ret =
    let rest = scan xs (if ret == 0 then x else ret) in
    if x == 0
    then record rest { values = 0 ∷ rest.values }
    else if ret == 0
    then record rest { values = 0 ∷ rest.values }
    else record rest { values = x ∷ rest.values; nlefts = suc rest.nlefts }

-- The values that are there.
unfoldable pub occupied : List ℕ → List ℕ
occupied [] = []
occupied (x ∷ xs) = let rest = occupied xs in if x == 0 then rest else x ∷ rest

-- The values of a node, put in the slots, and the slots behind them emptied.
unfoldable pub to_slots : List ℕ → Storage
unfolding occupied
to_slots values =
    slots (occupied values ++ replicate (slot_num_values - length (occupied values)) 0)

unfoldable pub no_next : List (List ℕ) → Bool
no_next [] = true
no_next (n ∷ ns) = false

unfoldable pub pop_storage : Queue → Storage → ℕ × Queue
unfolding scan to_slots no_next
pop_storage q (slots values) =
    let found = scan values 0 in
    (
      found.ret,
      record q {
        is_empty = if found.nlefts == 0 then true else q.is_empty;
        storage = slots found.values;
      },
    )
pop_storage q (nodes []) = (0, q)
pop_storage q (nodes (n ∷ ns)) =
    let found = scan n 0 in
    if found.nlefts == 0
    then (
      found.ret,
      record q { is_empty = if no_next ns then true else q.is_empty; storage = nodes ns },
    )
    else if leb found.nlefts slot_num_values && no_next ns
    then (found.ret, record q { storage = to_slots found.values })
    else (found.ret, record q { storage = nodes (found.values ∷ ns) })

unfoldable pub pop : Queue → ℕ × Queue
unfolding pop_storage
pop q = pop_storage q q.storage

-- The first empty slot takes the value.
unfoldable pub fill_first : List ℕ → ℕ → List ℕ
fill_first [] value = []
fill_first (x ∷ xs) value =
    let rest = fill_first xs value in if x == 0 then value ∷ xs else x ∷ rest

-- Down from index `i`, as long as the node is empty there.
unfoldable pub find_slot : List ℕ → ℕ → ℕ → ℕ
find_slot node zero empty_slot = empty_slot
find_slot node (suc i) empty_slot =
    let rest = find_slot node i i in if get_or node i 0 == 0 then rest else empty_slot

unfoldable pub push_tail : List (List ℕ) → ℕ → List (List ℕ)
push_tail [] value = []
push_tail (n ∷ []) value =
    if not (get_or n (node_num_values - 1) 0 == 0)
    then n ∷ (value ∷ replicate (node_num_values - 1) 0) ∷ []
    else set n (find_slot n node_num_values (node_num_values - 1)) value ∷ []
push_tail (n ∷ m ∷ ns) value = n ∷ push_tail (m ∷ ns) value

unfoldable pub push_storage : Storage → ℕ → Storage
unfolding fill_first push_tail
push_storage (slots values) value =
    if not (get_or values (slot_num_values - 1) 0 == 0)
    then nodes ((values ++ (value ∷ replicate (node_num_values - slot_num_values - 1) 0)) ∷ [])
    else slots (fill_first values value)
push_storage (nodes chain) value = nodes (push_tail chain value)

unfoldable pub push : Queue → ℕ → Queue
unfolding push_storage
push q value = record q { storage = push_storage q.storage value }

unfoldable pub setup : Queue → ℕ → EntryType → ℕ → Queue
setup q key type value = record {
  is_empty = false;
  type = type;
  key = key;
  storage = slots (value ∷ replicate (slot_num_values - 1) 0);
}

-- What waits in the queue, oldest first.
unfoldable pub all_occupied : List (List ℕ) → List ℕ
unfolding occupied
all_occupied [] = []
all_occupied (n ∷ ns) = occupied n ++ all_occupied ns

unfoldable pub contents : Storage → List ℕ
unfolding all_occupied
contents (slots values) = occupied values
contents (nodes chain) = all_occupied chain

-- Every node has its seven places and something in them.
abbrev pub AllNodes : List (List ℕ) → Type 0
AllNodes [] = ◌≡◌ {A = ℕ} 0 0
AllNodes (n ∷ ns) = ((length n ≡ 7) × (occupied n ≢ [])) × AllNodes ns

abbrev pub IsStored : Storage → Type 0
IsStored (slots values) = length values ≡ 2
IsStored (nodes chain) = AllNodes chain

-- A queue that is not marked empty holds something.
pub record IsLive (q : Queue) : Type 0 where
  pub stored : IsStored q.storage
  pub filled : contents q.storage ≢ []

abbrev pub IsConsistent : Queue → Type 0
IsConsistent q = q.is_empty ≡ false → IsLive q

unfoldable pub pending_values : Queue → List ℕ
unfolding contents
pending_values q = if q.is_empty then [] else contents q.storage
