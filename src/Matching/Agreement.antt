-- ===== src/Matching/Agreement.antt =====
-- Every matching engine gives the results of the specification, so the two engines agree.
use lci.Base.{ℕ, ◌≡◌, refl, sym, ap, ◌∙◌, ◌⊎◌, inl, inr, List, [], ◌∷◌, arith, List-cases}
use lci.Matching.{EntryType, opposite, same_type}
use lci.Matching.Spec.{
  Pending, Arrival, Engine, match_entry, match_with, matches, run, AllReal, assign,
}
use lci.Matching.ListEngine
use lci.Matching.ListEngine.{Lists, list_engine, queued, values_of}
use lci.Matching.Chain.Alone.{flat, NoKey-waiting}
use lci.Matching.Insert.{fresh_keys}
use lci.Matching.MapEngine
use lci.Matching.MapEngine.{Table, map_engine, fresh_table, fresh_table-IsValid, held}

-- What holds of every engine by its promises.
engine_run-matches :
    (e : Engine) (s : e.State) (arrivals : List Arrival)
    → e.IsValid s
    → AllReal arrivals
    → run e s arrivals ≡ matches (e.pending s) arrivals
unfolding run matches
engine_run-matches e s [] valid real = refl
engine_run-matches e s (a ∷ rest) valid real =
    let next = (e.insert s a.key a.value a.type).1 in
    rw (sym (e.insert_result s a.key a.value a.type valid real.0)) (
      ap (λ r. (e.insert s a.key a.value a.type).0 ∷ r)
        (engine_run-matches e next rest (e.insert-IsValid s a.key a.value a.type valid real.0)
            real.1
          ∙ ap (λ p. matches p rest)
              (λ i k u. e.insert_pending s a.key a.value a.type valid real.0 k u i)))

-- From any state of the hash table in which a key has at most one queue that is not empty, and from
-- any state of the two lists without null values, a sequence of insertions of values other than null
-- returns what the specification returns: for each one the oldest waiting value of its key and of the
-- other kind, or null when there is none and the value waits.
pub run-matches :
    (table : Table) (lists : Lists) (arrivals : List Arrival)
    → MapEngine.IsValid table
    → ListEngine.IsValid lists
    → AllReal arrivals
    → (run map_engine table arrivals ≡ matches (held table) arrivals)
      × (run list_engine lists arrivals ≡ matches (queued lists) arrivals)
run-matches table lists arrivals one_key two_lists real = (
  engine_run-matches map_engine table arrivals one_key real,
  engine_run-matches list_engine lists arrivals two_lists real,
)

nothing_waits :
    (k : ℕ) (u : EntryType)
    → held fresh_table k u ≡ queued (record { send_queue = []; recv_queue = [] }) k u
unfolding held queued values_of
nothing_waits k EntryType.send =
    NoKey-waiting (flat (fresh_table 0)) k EntryType.send (unfold flat in fresh_keys 3 k)
nothing_waits k EntryType.recv =
    NoKey-waiting (flat (fresh_table 0)) k EntryType.recv (unfold flat in fresh_keys 3 k)

-- Started empty, the engine with two lists and the engine with the hash table return the same
-- results for every sequence of insertions of values other than null.
pub engines_agree :
    (arrivals : List Arrival)
    → AllReal arrivals
    → run map_engine fresh_table arrivals
      ≡ run list_engine (record { send_queue = []; recv_queue = [] }) arrivals
engines_agree arrivals real =
    engine_run-matches map_engine fresh_table arrivals fresh_table-IsValid real
    ∙ ap (λ p. matches p arrivals) (λ i k u. nothing_waits k u i)
    ∙ sym (
        engine_run-matches list_engine (record { send_queue = []; recv_queue = [] }) arrivals
          (refl, refl) real)

-- Of a send and a receive with one key, not both wait.
abbrev pub IsMatched : Pending → Type 0
IsMatched p = (k : ℕ) → (p k EntryType.send ≡ []) ⊎ (p k EntryType.recv ≡ [])

match_entry-IsMatched :
    (p : Pending) (key v : ℕ) (t : EntryType) → IsMatched p → IsMatched (match_entry p key v t).1
unfolding match_entry match_with assign opposite same_type
match_entry-IsMatched p key v EntryType.send h k = elim (List-cases (p key EntryType.recv)) [
  | inl nothing ↦ ground (arith, h k)
  | inr (w, ws, e) ↦ ground (arith, h k)
]
match_entry-IsMatched p key v EntryType.recv h k = elim (List-cases (p key EntryType.send)) [
  | inl nothing ↦ ground (arith, h k)
  | inr (w, ws, e) ↦ ground (arith, h k)
]

-- The state of an engine behind a sequence of insertions.
unfoldable pub left_by : (e : Engine) → e.State → List Arrival → e.State
left_by e s [] = s
left_by e s (a ∷ rest) = left_by e (e.insert s a.key a.value a.type).1 rest

left_by-IsMatched :
    (e : Engine) (s : e.State) (arrivals : List Arrival)
    → e.IsValid s
    → AllReal arrivals
    → IsMatched (e.pending s)
    → IsMatched (e.pending (left_by e s arrivals))
unfolding left_by
left_by-IsMatched e s [] valid real h = h
left_by-IsMatched e s (a ∷ rest) valid real h =
    left_by-IsMatched e (e.insert s a.key a.value a.type).1 rest
      (e.insert-IsValid s a.key a.value a.type valid real.0) real.1
      (λ k.
        rw
          (
            e.insert_pending s a.key a.value a.type valid real.0 k EntryType.send,
            e.insert_pending s a.key a.value a.type valid real.0 k EntryType.recv,
          )
          (match_entry-IsMatched (e.pending s) a.key a.value a.type h k))

-- Behind any sequence of insertions of values other than null into an empty engine, with the hash
-- table or with the two lists, no key has both a send and a receive that wait.
pub insert-IsMatched :
    (arrivals : List Arrival)
    → AllReal arrivals
    → IsMatched (held (left_by map_engine fresh_table arrivals))
      × IsMatched
          (queued (left_by list_engine (record { send_queue = []; recv_queue = [] }) arrivals))
insert-IsMatched arrivals real = (
  left_by-IsMatched map_engine fresh_table arrivals fresh_table-IsValid real
      (λ k. inl (nothing_waits k EntryType.send ∙ unfold queued in unfold values_of in refl)),
  left_by-IsMatched list_engine (record { send_queue = []; recv_queue = [] }) arrivals (refl, refl)
      real (λ k. inl (unfold queued in unfold values_of in refl)),
)
