-- ===== src/PacketSet/Locals.antt =====
-- The pool of a thread, and the packets that are popped from a pool.
use mathlib.Core.List.{append-nil, append_assoc, reverse, reverse-cons}
use lci.Base.{
  ℕ, zero, suc, ◌+◌, ◌<◌, ◌≡◌, refl, sym, ap, subst, ◌∙◌, ◌⊎◌, inl, inr, true, false, min, Option,
  none, some, Option-cases, List, [], ◌∷◌, ◌++◌, length, length-append, ltb→lt, ◌==◌, Bool-cases,
  update, arith,
}
use lci.PacketSet.{LocalSet}
use lci.PacketSet.Deque.{Holds, create-Holds}
use lci.PacketSet.Pops.{pop_empty, last_present, pop_from_bot-Holds}
use lci.PacketSet.Pools.{
  MpmcSet, with_pool, found_pool, get_local_pool, and_popped, pop_rest, pop_n,
}
use lci.PacketSet.Conservation.{
  count, occurrences, count-append, occurrences-append_nil, AllHold, AllHold-append,
}

-- The pools hold these lists, and every thread that has a pool finds it.
pub record IsHeld (s : MpmcSet) (ls : List (List ℕ)) : Type 0 where
  pub hold : AllHold s.pools ls
  pub found : (tid id : ℕ) → s.tid_to_pools tid ≡ some id → id < length s.pools
  pub sized : 0 < s.default_lpool_size

-- The pool of a thread is there, and making it moves no packet.
pub record IsAssigned (tid : ℕ) (s : MpmcSet) (ls : List (List ℕ)) : Type 0 where
  pub after : MpmcSet
  pub id : ℕ
  pub lists : List (List ℕ)
  pub runs : get_local_pool tid s ≡ some (after, id)
  pub held : IsHeld after lists
  pub inside : id < length after.pools
  pub balance : (x : ℕ) → occurrences x lists ≡ occurrences x ls

value_or : Option ℕ → ℕ → ℕ
value_or none d = d
value_or (some v) d = v

found_updated :
    (found : ℕ → Option ℕ) (tid n : ℕ)
    → ((t i : ℕ) → found t ≡ some i → i < n)
    → (t i : ℕ) → update found tid (some n) t ≡ some i
    → {m : ℕ} → m ≡ n + 1
    → i < m
unfolding value_or
found_updated found tid n below t i e grown = elim (Bool-cases (tid == t)) [
  | inl same ↦ omega (arith, ap (λ o. value_or o n) (sym (e_at same) ∙ e))
  | inr other ↦ omega (arith, below t i (sym (e_other other) ∙ e))
]
  where
    e_at : (tid == t) ≡ true → update found tid (some n) t ≡ some n
    e_at same = rw same refl

    e_other : (tid == t) ≡ false → update found tid (some n) t ≡ found t
    e_other other = rw other refl

pub get_local_pool-IsAssigned :
    (tid : ℕ) (s : MpmcSet) (ls : List (List ℕ)) → IsHeld s ls → IsAssigned tid s ls
unfolding get_local_pool found_pool with_pool
get_local_pool-IsAssigned tid s ls h = elim (Option-cases (s.tid_to_pools tid)) [
  | inl missing ↦
      let (pool, made, empty) = create-Holds s.default_lpool_size h.sized in
      record {
        after = record s {
          pools = s.pools ++ (pool ∷ []);
          tid_to_pools = update s.tid_to_pools tid (some (length s.pools));
        };
        id = length s.pools;
        lists = ls ++ ([] ∷ []);
        runs = rw (missing, made) refl;
        held = record {
          hold = AllHold-append s.pools ls pool [] h.hold empty;
          found = λ t i e.
              found_updated s.tid_to_pools tid (length s.pools) h.found t i e
                (length-append s.pools (pool ∷ []));
          sized = h.sized;
        };
        inside = omega (arith, length-append s.pools (pool ∷ []));
        balance = λ x. occurrences-append_nil x ls;
      }
  | inr (id, known) ↦ record {
    after = s;
    id = id;
    lists = ls;
    runs = rw known refl;
    held = h;
    inside = h.found tid id known;
    balance = λ x. refl;
  }
]

-- What `pop_n` takes: the last packets, from the bottom, at most `n` and all of them if there are
-- not more.
pub record IsTaken (n : ℕ) (pool : LocalSet) (xs : List ℕ) : Type 0 where
  pub after : LocalSet
  pub kept : List ℕ
  pub out : List ℕ
  pub runs : pop_n n pool ≡ some (after, out)
  pub held : Holds after kept
  pub taken : length out ≡ min n (length xs)
  pub from_bot : kept ++ reverse out ≡ xs
  pub balance : (x : ℕ) → count x kept + count x out ≡ count x xs

-- A list is empty or has a last element.
pub last_cases : (xs : List ℕ) → (xs ≡ []) ⊎ ((ys : List ℕ) × (y : ℕ) × (xs ≡ ys ++ (y ∷ [])))
last_cases [] = inl refl
last_cases (x ∷ xs) = elim (last_cases xs) [
  | inl e ↦ inr ([], x, ap (λ r. x ∷ r) e)
  | inr (ys, y, e) ↦ inr (x ∷ ys, y, ap (λ r. x ∷ r) e)
]

pop_rest_lem :
    (later : LocalSet → Option (LocalSet × List ℕ)) (pool : LocalSet) (y : ℕ)
    → 0 < y
    → pop_rest later (some (pool, y)) ≡ and_popped y (later pool)
unfolding pop_rest
pop_rest_lem later pool zero h = absurd (omega arith)
pop_rest_lem later pool (suc y) h = refl

pub pop_n-IsTaken : (n : ℕ) (pool : LocalSet) (xs : List ℕ) → Holds pool xs → IsTaken n pool xs
unfolding pop_n and_popped count pop_rest
pop_n-IsTaken zero pool xs h = record {
  after = pool;
  kept = xs;
  out = [];
  runs = refl;
  held = h;
  taken = omega arith;
  from_bot = append-nil xs;
  balance = λ x. omega arith;
}
pop_n-IsTaken (suc n) pool xs h = elim (last_cases xs) [
  | inl none_left ↦ record {
    after = pool;
    kept = xs;
    out = [];
    runs = rw ((pop_empty pool (subst (λ l. Holds pool l) none_left h)).1) refl;
    held = h;
    taken = omega (arith, ap length none_left);
    from_bot = append-nil xs;
    balance = λ x. omega arith;
  }
  | inr (ys, y, split) ↦
      let now = subst (λ l. Holds pool l) split h in
      let positive = ltb→lt 0 y (last_present ys y now.real).1 in
      let (popped, e, left) = pop_from_bot-Holds pool ys y now in
      let later = pop_n-IsTaken n popped ys left in
      record {
        after = later.after;
        kept = later.kept;
        out = y ∷ later.out;
        runs = rw (e, pop_rest_lem (pop_n n) popped y positive, later.runs) refl;
        held = later.held;
        taken = omega (arith, later.taken, ap length split, length-append ys (y ∷ []));
        from_bot =
            ap (λ l. later.kept ++ l) (reverse-cons y later.out)
            ∙ sym (append_assoc later.kept (reverse later.out) (y ∷ []))
            ∙ ap (λ l. l ++ (y ∷ [])) later.from_bot
            ∙ sym split;
        balance = λ x.
            omega (arith, later.balance x, ap (λ l. count x l) split, count-append x ys (y ∷ []));
      }
]
