-- ===== src/Matching/ListEngine.antt =====
-- src/matching_engine/matching_engine_queue.hpp: one list for each kind of entry.
use lci.Base.{
  ℕ, ◌≡◌, refl, ◌≢◌, List, [], ◌∷◌, ◌++◌, if◌then◌else◌, ◌==◌, arith, inl, inr, List-cases,
}
use lci.Matching.{EntryType, opposite, same_type}
use lci.Matching.Spec.{Pending, Engine, match_entry, match_with, assign}

pub record Entry : Type 0 where
  pub key : ℕ
  pub value : ℕ

pub record Lists : Type 0 where
  pub send_queue : List Entry
  pub recv_queue : List Entry

-- The first entry with the key is erased, and its value returned; 0 is `nullptr`.
unfoldable pub search : List Entry → ℕ → ℕ × List Entry
search [] key = (0, [])
search (e ∷ es) key =
    let rest = search es key in if e.key == key then (e.value, es) else (rest.0, e ∷ rest.1)

unfoldable pub insert : Lists → ℕ → ℕ → EntryType → ℕ × Lists
unfolding search
insert s key value EntryType.send =
    let found = search s.recv_queue key in
    if found.0 == 0
    then (
      found.0,
      record s {
        send_queue = s.send_queue ++ (record { key = key; value = value } ∷ []);
        recv_queue = found.1;
      },
    )
    else (found.0, record s { recv_queue = found.1 })
insert s key value EntryType.recv =
    let found = search s.send_queue key in
    if found.0 == 0
    then (
      found.0,
      record s {
        recv_queue = s.recv_queue ++ (record { key = key; value = value } ∷ []);
        send_queue = found.1;
      },
    )
    else (found.0, record s { send_queue = found.1 })

unfoldable pub values_of : List Entry → ℕ → List ℕ
values_of [] key = []
values_of (e ∷ es) key =
    let rest = values_of es key in if key == e.key then e.value ∷ rest else rest

unfoldable pub queued : Lists → Pending
unfolding values_of
queued s key EntryType.send = values_of s.send_queue key
queued s key EntryType.recv = values_of s.recv_queue key

abbrev pub AllStored : List Entry → Type 0
AllStored [] = ◌≡◌ {A = ℕ} 0 0
AllStored (e ∷ es) = (e.value ≢ 0) × AllStored es

search_absent : (es : List Entry) (key : ℕ) → values_of es key ≡ [] → search es key ≡ (0, es)
unfolding search values_of
search_absent [] key h = refl
search_absent (e ∷ es) key h = ground (arith, search_absent es key)

-- The search takes the oldest value of the key, and leaves the others.
search_found :
    (es : List Entry) (key w : ℕ) (ws : List ℕ)
    → AllStored es
    → values_of es key ≡ w ∷ ws
    → ((search es key).0 ≡ w)
      × (w ≢ 0)
      × (values_of (search es key).1 key ≡ ws)
      × AllStored (search es key).1
unfolding search values_of
search_found [] key w ws stored h = ground arith
search_found (e ∷ es) key w ws stored h =
    ground (arith, search_found es key w ws stored.1, stored.0)

search_others :
    (es : List Entry) (key k : ℕ) → k ≢ key → values_of (search es key).1 k ≡ values_of es k
unfolding search values_of
search_others [] key k ne = refl
search_others (e ∷ es) key k ne = ground (arith, search_others es key k ne)

values_of-append :
    (es : List Entry) (e : Entry) (k : ℕ)
    → values_of (es ++ (e ∷ [])) k
      ≡ (if k == e.key then values_of es k ++ (e.value ∷ []) else values_of es k)
unfolding values_of
values_of-append [] e k = ground arith
values_of-append (x ∷ es) e k = ground (arith, values_of-append es e k)

append-AllStored :
    (es : List Entry) (e : Entry) → AllStored es → e.value ≢ 0 → AllStored (es ++ (e ∷ []))
append-AllStored [] e h ne = (ne, refl)
append-AllStored (x ∷ es) e h ne = (h.0, append-AllStored es e h.1 ne)

abbrev pub IsValid : Lists → Type 0
IsValid s = AllStored s.send_queue × AllStored s.recv_queue

pub insert-IsValid :
    (s : Lists) (key v : ℕ) (t : EntryType) → IsValid s → v ≢ 0 → IsValid (insert s key v t).1
unfolding insert
insert-IsValid s key v EntryType.send valid ne = elim (List-cases (values_of s.recv_queue key)) [
  | inl none_left ↦
      rw (search_absent s.recv_queue key none_left)
        (append-AllStored s.send_queue (record { key = key; value = v }) valid.0 ne, valid.1)
  | inr (w, ws, e) ↦ ground (arith, search_found s.recv_queue key w ws valid.1 e)
]
insert-IsValid s key v EntryType.recv valid ne = elim (List-cases (values_of s.send_queue key)) [
  | inl none_left ↦
      rw (search_absent s.send_queue key none_left)
        (valid.0, append-AllStored s.recv_queue (record { key = key; value = v }) valid.1 ne)
  | inr (w, ws, e) ↦ ground (arith, search_found s.send_queue key w ws valid.0 e)
]

pub insert_result :
    (s : Lists) (key v : ℕ) (t : EntryType)
    → IsValid s
    → v ≢ 0
    → (insert s key v t).0 ≡ (match_entry (queued s) key v t).0
unfolding insert match_entry match_with opposite queued
insert_result s key v EntryType.send valid ne = elim (List-cases (values_of s.recv_queue key)) [
  | inl none_left ↦ rw (search_absent s.recv_queue key none_left, none_left) refl
  | inr (w, ws, e) ↦ ground (arith, search_found s.recv_queue key w ws valid.1 e)
]
insert_result s key v EntryType.recv valid ne = elim (List-cases (values_of s.send_queue key)) [
  | inl none_left ↦ rw (search_absent s.send_queue key none_left, none_left) refl
  | inr (w, ws, e) ↦ ground (arith, search_found s.send_queue key w ws valid.0 e)
]

pub insert_queued :
    (s : Lists) (key v : ℕ) (t : EntryType)
    → IsValid s
    → v ≢ 0
    → (k : ℕ) (u : EntryType)
    → queued (insert s key v t).1 k u ≡ (match_entry (queued s) key v t).1 k u
unfolding insert match_entry match_with opposite queued assign same_type
insert_queued s key v EntryType.send valid ne k EntryType.send =
    elim (List-cases (values_of s.recv_queue key)) [
      | inl none_left ↦
          rw (search_absent s.recv_queue key none_left, none_left)
            (ground (arith, values_of-append s.send_queue (record { key = key; value = v }) k))
      | inr (w, ws, e) ↦ ground (arith, search_found s.recv_queue key w ws valid.1 e)
    ]
insert_queued s key v EntryType.send valid ne k EntryType.recv =
    elim (List-cases (values_of s.recv_queue key)) [
      | inl none_left ↦ rw (search_absent s.recv_queue key none_left, none_left) (ground arith)
      | inr (w, ws, e) ↦
          ground
            (arith, search_found s.recv_queue key w ws valid.1 e, search_others s.recv_queue key k)
    ]
insert_queued s key v EntryType.recv valid ne k EntryType.send =
    elim (List-cases (values_of s.send_queue key)) [
      | inl none_left ↦ rw (search_absent s.send_queue key none_left, none_left) (ground arith)
      | inr (w, ws, e) ↦
          ground
            (arith, search_found s.send_queue key w ws valid.0 e, search_others s.send_queue key k)
    ]
insert_queued s key v EntryType.recv valid ne k EntryType.recv =
    elim (List-cases (values_of s.send_queue key)) [
      | inl none_left ↦
          rw (search_absent s.send_queue key none_left, none_left)
            (ground (arith, values_of-append s.recv_queue (record { key = key; value = v }) k))
      | inr (w, ws, e) ↦ ground (arith, search_found s.send_queue key w ws valid.0 e)
    ]

-- `matching_engine_queue_t` keeps the promise.
abbrev pub list_engine : Engine
list_engine = record {
  State = Lists;
  insert = insert;
  pending = queued;
  IsValid = IsValid;
  insert-IsValid = insert-IsValid;
  insert_result = insert_result;
  insert_pending = insert_queued;
}
