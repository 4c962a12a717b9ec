-- ===== src/Matching/SlotQueue/Fifo.antt =====
-- `pop`, `push` and `setup` of `queue_t` keep the values in the order in which they came.
use lci.Base.{
  ℕ, ◌-◌, ◌≤◌, ◌≡◌, refl, ◌≢◌, false, List, [], ◌∷◌, ◌++◌, ◌==◌, length, get_or, set, replicate,
  arith, length-append, length-replicate, length-set, ◌∙◌, sym, ap, Bool-cases, inl, inr, dec_le,
  List-cases,
}
use mathlib.Core.List.{append-nil, append_assoc}
use lci.Matching.{EntryType}
use lci.Matching.SlotQueue.{
  Queue, Storage, pop, pop_storage, push, push_storage, push_tail, setup, contents, all_occupied,
  occupied, to_slots, no_next, IsStored, IsConsistent, AllNodes, pending_values, scan, find_slot,
}
use lci.Matching.SlotQueue.Loops.{
  scan_first, occupied-append, occupied-replicate, occupied_idempotent, append_in_node,
  fill_first_lem,
}

-- What a storage holds after a pop, in a queue that kept its key and type.
pub record IsPopped (q : Queue) (w : ℕ) (ws : List ℕ) (after : ℕ × Queue) : Type 0 where
  pub value : after.0 ≡ w
  pub rest : pending_values after.1 ≡ ws
  pub consistent : IsConsistent after.1
  pub same_key : after.1.key ≡ q.key
  pub same_type : after.1.type ≡ q.type

pop_slots :
    (q : Queue) (values : List ℕ) (w : ℕ) (ws : List ℕ)
    → q.is_empty ≡ false
    → length values ≡ 2
    → occupied values ≡ w ∷ ws
    → IsPopped q w ws (pop_storage q (Storage.slots values))
unfolding pop_storage pending_values contents
pop_slots q values w ws live len h = record {
  value = ground (arith, scan_first values w ws h);
  rest = ground (arith, scan_first values w ws h);
  consistent = λ e. record {
    stored = ground (arith, scan_first values w ws h);
    filled = ground (arith, scan_first values w ws h);
  };
  same_key = refl;
  same_type = refl;
}

to_slots_lem :
    (values : List ℕ)
    → length (occupied values) ≤ 2
    → (contents (to_slots values) ≡ occupied values) × IsStored (to_slots values)
unfolding to_slots contents
to_slots_lem values le = (
  occupied-append (occupied values) (replicate (2 - length (occupied values)) 0)
      ∙ rw (occupied-replicate (2 - length (occupied values)), occupied_idempotent values)
          (append-nil (occupied values)),
  length-append (occupied values) (replicate (2 - length (occupied values)) 0)
      ∙ rw (length-replicate {A = ℕ} (2 - length (occupied values)) 0) (omega arith),
)

pop_last_node :
    (q : Queue) (n : List ℕ) (w : ℕ) (ws : List ℕ)
    → q.is_empty ≡ false
    → length n ≡ 7
    → occupied n ≡ w ∷ ws
    → IsPopped q w ws (pop_storage q (Storage.nodes (n ∷ [])))
unfolding pop_storage pending_values contents all_occupied no_next
pop_last_node q n w [] live len h = record {
  value = ground (arith, scan_first n w [] h);
  rest = ground (arith, scan_first n w [] h);
  consistent = λ e. ground (arith, scan_first n w [] h);
  same_key = ground (arith, scan_first n w [] h);
  same_type = ground (arith, scan_first n w [] h);
}
pop_last_node q n w (u ∷ us) live len h = elim (dec_le (length us) 1) [
  | yes le ↦ record {
    value = ground (arith, scan_first n w (u ∷ us) h);
    rest = ground (arith, scan_first n w (u ∷ us) h, to_slots_lem (scan n 0).values);
    consistent = λ e. record {
      stored = ground (arith, scan_first n w (u ∷ us) h, to_slots_lem (scan n 0).values);
      filled = ground (arith, scan_first n w (u ∷ us) h, to_slots_lem (scan n 0).values);
    };
    same_key = ground (arith, scan_first n w (u ∷ us) h);
    same_type = ground (arith, scan_first n w (u ∷ us) h);
  }
  | no gt ↦ record {
    value = ground (arith, scan_first n w (u ∷ us) h);
    rest = ground (arith, scan_first n w (u ∷ us) h, append-nil (u ∷ us));
    consistent = λ e. record {
      stored = ground (arith, scan_first n w (u ∷ us) h);
      filled = ground (arith, scan_first n w (u ∷ us) h);
    };
    same_key = ground (arith, scan_first n w (u ∷ us) h);
    same_type = ground (arith, scan_first n w (u ∷ us) h);
  }
]

pop_first_node :
    (q : Queue) (n m : List ℕ) (ms : List (List ℕ)) (w : ℕ) (us : List ℕ)
    → q.is_empty ≡ false
    → AllNodes (n ∷ m ∷ ms)
    → occupied n ≡ w ∷ us
    → IsPopped q w (us ++ all_occupied (m ∷ ms)) (pop_storage q (Storage.nodes (n ∷ m ∷ ms)))
unfolding pop_storage pending_values contents all_occupied no_next
pop_first_node q n m ms w [] live valid h = record {
  value = ground (arith, scan_first n w [] h);
  rest = ground (arith, scan_first n w [] h);
  consistent = λ e. record {
    stored = ground (arith, scan_first n w [] h, valid.1);
    filled = ground (arith, scan_first n w [] h, valid.1);
  };
  same_key = ground (arith, scan_first n w [] h);
  same_type = ground (arith, scan_first n w [] h);
}
pop_first_node q n m ms w (u ∷ us) live valid h = record {
  value = ground (arith, scan_first n w (u ∷ us) h);
  rest = ground (arith, scan_first n w (u ∷ us) h);
  consistent = λ e. record {
    stored = ground (arith, scan_first n w (u ∷ us) h, valid.1, valid.0);
    filled = ground (arith, scan_first n w (u ∷ us) h);
  };
  same_key = ground (arith, scan_first n w (u ∷ us) h);
  same_type = ground (arith, scan_first n w (u ∷ us) h);
}

pop_stored :
    (q : Queue) (storage : Storage) (w : ℕ) (ws : List ℕ)
    → q.is_empty ≡ false
    → IsStored storage
    → contents storage ≡ w ∷ ws
    → IsPopped q w ws (pop_storage q storage)
unfolding contents all_occupied
pop_stored q (Storage.slots values) w ws live valid h = pop_slots q values w ws live valid h
pop_stored q (Storage.nodes []) w ws live valid h = absurd (ground arith)
pop_stored q (Storage.nodes (n ∷ [])) w ws live valid h =
    pop_last_node q n w ws live valid.0.0 (sym (append-nil (occupied n)) ∙ h)
pop_stored q (Storage.nodes (n ∷ m ∷ ms)) w ws live valid h = elim (List-cases (occupied n)) [
  | inl nothing ↦ absurd (valid.0.1 nothing)
  | inr (u, us, e) ↦
      ap_popped (ground arith) (ground arith) (pop_first_node q n m ms u us live valid e)
]
  where
    ap_popped :
        {u : ℕ} {us : List ℕ}
        → u ≡ w
        → us ≡ ws
        → IsPopped q u us (pop_storage q (Storage.nodes (n ∷ m ∷ ms)))
        → IsPopped q w ws (pop_storage q (Storage.nodes (n ∷ m ∷ ms)))
    ap_popped eu eus popped = rw (sym eu, sym eus) popped

-- A pop of a consistent queue that is not empty returns its oldest value and leaves the others in
-- order, the key, the type and a consistent queue, whether the values are in slots, in one node or
-- in several, and whichever of these they are moved to.
pub pop_lem :
    (q : Queue) (w : ℕ) (ws : List ℕ)
    → q.is_empty ≡ false
    → IsConsistent q
    → pending_values q ≡ w ∷ ws
    → IsPopped q w ws (pop q)
unfolding pop pending_values
pop_lem q w ws live ok h = pop_stored q q.storage w ws live (ok live).stored (ground arith)

push_tail_lem :
    (n : List ℕ) (ns : List (List ℕ)) (v : ℕ)
    → AllNodes (n ∷ ns)
    → v ≢ 0
    → (all_occupied (push_tail (n ∷ ns) v) ≡ all_occupied (n ∷ ns) ++ (v ∷ []))
      × AllNodes (push_tail (n ∷ ns) v)
unfolding push_tail all_occupied
push_tail_lem n [] v valid ne = elim (Bool-cases (get_or n 6 0 == 0)) [
  | inl empty ↦ (
    ground (
      arith,
      append_in_node n v,
      append-nil (occupied n),
      append-nil (occupied (set n (find_slot n 7 6) v)),
    ),
    ground (arith, append_in_node n v, length-set n (find_slot n 7 6) v),
  )
  | inr full ↦ (ground (arith, append-nil (occupied n)), ground arith)
]
push_tail_lem n (m ∷ ns) v valid ne =
    let rest = push_tail_lem m ns v valid.1 ne in
    (
      ap (λ r. occupied n ++ r) rest.0
          ∙ sym (append_assoc (occupied n) (all_occupied (m ∷ ns)) (v ∷ [])),
      (valid.0, rest.1),
    )

push_full_slots :
    (values : List ℕ) (v : ℕ)
    → length values ≡ 2
    → get_or values 1 0 ≢ 0
    → v ≢ 0
    → (occupied (values ++ (v ∷ replicate 4 0)) ++ [] ≡ occupied values ++ (v ∷ []))
      × (length (values ++ (v ∷ replicate 4 0)) ≡ 7)
      × (occupied (values ++ (v ∷ replicate 4 0)) ≢ [])
unfolding occupied
push_full_slots [] v len full ne = absurd (omega arith)
push_full_slots (x ∷ []) v len full ne = absurd (omega arith)
push_full_slots (x ∷ y ∷ []) v len full ne = (ground arith, refl, ground arith)
push_full_slots (x ∷ y ∷ z ∷ xs) v len full ne = absurd (omega arith)

push_storage-IsStored :
    (storage : Storage) (v : ℕ)
    → IsStored storage
    → contents storage ≢ []
    → v ≢ 0
    → (contents (push_storage storage v) ≡ contents storage ++ (v ∷ []))
      × IsStored (push_storage storage v)
unfolding push_storage contents all_occupied
push_storage-IsStored (Storage.slots values) v valid filled ne =
    elim (Bool-cases (get_or values 1 0 == 0)) [
      | inl empty ↦ ground (arith, fill_first_lem values v ne valid)
      | inr full ↦ ground (arith, push_full_slots values v valid)
    ]
push_storage-IsStored (Storage.nodes []) v valid filled ne = absurd (filled refl)
push_storage-IsStored (Storage.nodes (n ∷ ns)) v valid filled ne = push_tail_lem n ns v valid ne

append-cons_ne : (xs : List ℕ) (v : ℕ) → xs ++ (v ∷ []) ≢ []
append-cons_ne [] v e = ground arith
append-cons_ne (x ∷ xs) v e = ground arith

-- A push of a value other than null, to a consistent queue that is not empty, puts it behind the
-- others and leaves a consistent queue, in slots, in the last node or in a new one.
pub push_lem :
    (q : Queue) (v : ℕ)
    → q.is_empty ≡ false
    → IsConsistent q
    → v ≢ 0
    → (pending_values (push q v) ≡ pending_values q ++ (v ∷ [])) × IsConsistent (push q v)
unfolding push pending_values
push_lem q v live ok ne = (
  ground (arith, done),
  λ e. record {
    stored = done.1;
    filled = λ e. append-cons_ne (contents q.storage) v (sym done.0 ∙ e);
  },
)
  where
    done :
        (contents (push_storage q.storage v) ≡ contents q.storage ++ (v ∷ []))
        × IsStored (push_storage q.storage v)
    done = push_storage-IsStored q.storage v (ok live).stored (ok live).filled ne

pub setup_lem :
    (q : Queue) (key v : ℕ) (t : EntryType)
    → v ≢ 0
    → (pending_values (setup q key t v) ≡ v ∷ []) × IsConsistent (setup q key t v)
unfolding setup pending_values contents occupied
setup_lem q key v t ne = (ground arith, λ e. record { stored = refl; filled = ground arith })
