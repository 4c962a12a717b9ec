-- ===== src/Matching/Tests.antt =====
-- The theorems of the matching engines at concrete queues and arrivals.
use lci.Base.{ℕ, ◌≡◌, refl, false, List, [], ◌∷◌, arith}
use lci.Matching.{EntryType}
use lci.Matching.Key.Injective.{make_key_injective}
use lci.Matching.Spec.{Arrival, AllReal, run, matches}
use lci.Matching.ListEngine.{list_engine, insert, Lists, queued}
use lci.Matching.SlotQueue.{Queue, Storage, IsConsistent, contents, all_occupied, occupied}
use lci.Matching.Chain.{insert_chain}
use lci.Matching.Chain.Alone.{flat, waiting}
use lci.Matching.Insert
use lci.Matching.Insert.{IsInserted, fresh_alone}
use lci.Matching.MapEngine.{map_engine, fresh_table, fresh_table-IsValid, held}
use lci.Matching.Agreement
use lci.Matching.Agreement.{IsMatched, left_by}

abbrev arrival : ℕ → ℕ → EntryType → Arrival
arrival key value type = record { key = key; value = value; type = type }

-- Three sends under one key, a receive that matches the first, and a receive under another key.
abbrev traffic : List Arrival
traffic =
    arrival 5 11 EntryType.send
    ∷ arrival 5 12 EntryType.send
    ∷ arrival 5 13 EntryType.send
    ∷ arrival 5 21 EntryType.recv
    ∷ arrival 9 22 EntryType.recv
    ∷ arrival 5 23 EntryType.recv
    ∷ []

traffic-AllReal : AllReal traffic
traffic-AllReal = (
  ground arith,
  (ground arith, (ground arith, (ground arith, (ground arith, (ground arith, refl))))),
)

abbrev empty_lists : Lists
empty_lists = record { send_queue = []; recv_queue = [] }

list_results : run list_engine empty_lists traffic ≡ 0 ∷ 0 ∷ 0 ∷ 11 ∷ 0 ∷ 12 ∷ []
unfolding run insert
list_results = refl

engines_agree_example : run map_engine fresh_table traffic ≡ run list_engine empty_lists traffic
engines_agree_example = Agreement.engines_agree traffic traffic-AllReal

run-matches_example :
    (run map_engine fresh_table traffic ≡ matches (held fresh_table) traffic)
    × (run list_engine empty_lists traffic ≡ matches (queued empty_lists) traffic)
run-matches_example =
    Agreement.run-matches fresh_table empty_lists traffic fresh_table-IsValid (refl, refl)
      traffic-AllReal

insert-IsMatched_example :
    IsMatched (held (left_by map_engine fresh_table traffic))
    × IsMatched (queued (left_by list_engine empty_lists traffic))
insert-IsMatched_example = Agreement.insert-IsMatched traffic traffic-AllReal

insert_chain_lem_example :
    IsInserted
      (waiting (flat (fresh_table 0)))
      5
      11
      EntryType.send
      (insert_chain (fresh_table 0) 5 11 EntryType.send)
insert_chain_lem_example =
    Insert.insert_chain_lem (fresh_table 0) 5 11 EntryType.send (unfold flat in fresh_alone 3)
      (ground arith)

-- Four values, in one node.
abbrev in_node : Queue
in_node = record {
  is_empty = false;
  type = EntryType.recv;
  key = 3;
  storage = Storage.nodes ((0 ∷ 5 ∷ 6 ∷ 7 ∷ 8 ∷ 0 ∷ 0 ∷ []) ∷ []);
}

in_node-IsConsistent : IsConsistent in_node
unfolding contents all_occupied occupied
in_node-IsConsistent live = record { stored = ((refl, ground arith), refl); filled = ground arith }

abbrev a_rank : ℕ
a_rank = 3

abbrev a_tag : ℕ
a_tag = 70000

make_key_injective_example : (a_rank ≡ a_rank) × (a_tag ≡ a_tag)
make_key_injective_example =
    make_key_injective a_rank a_tag a_rank a_tag (omega arith) (omega arith) (omega arith)
      (omega arith) refl
