-- ===== src/PacketSet/Safety.antt =====
-- No operation on the set of packets fails an assertion, loses a packet or doubles one.
use lci.Base.{
  ℕ, ◌+◌, ◌≤◌, ◌<◌, ◌≡◌, refl, sym, ap, subst, ◌∙◌, inl, inr, Bool, true, false, Option, some, List,
  [], ◌∷◌, length, length-set, get_or, set, ltb, ◌==◌, ==→eq, Bool-cases, arith,
}
use lci.Base.Int.{ℤ, is_negative}
use lci.PacketSet.{LocalSet, size}
use lci.PacketSet.Deque.{Holds, Holds-size}
use lci.PacketSet.Refine.{push_to_bot-Holds, push_to_top-Holds}
use lci.PacketSet.Pools.{
  MpmcSet, Attempt, no_pool, any_free, with_popped, pop_local, get_from, get_n, with_pushed,
  put_into, put,
}
use lci.PacketSet.Conservation.{count, occurrences, count-append, occurrences-set, AllHold-set}
use lci.PacketSet.Locals.{IsHeld, get_local_pool-IsAssigned, pop_n-IsTaken}
use lci.PacketSet.Steal.{steal_packets-IsStolen}

-- A run that gives out packets: the others stay in the pools.
pub record IsGiven (runs_as : Option (MpmcSet × List ℕ)) (n : ℕ) (ls : List (List ℕ)) : Type 0 where
  pub after : MpmcSet
  pub out : List ℕ
  pub lists : List (List ℕ)
  pub runs : runs_as ≡ some (after, out)
  pub held : IsHeld after lists
  pub at_most : length out ≤ n
  pub balance : (x : ℕ) → occurrences x lists + count x out ≡ occurrences x ls

pop_local-IsGiven :
    (n id : ℕ) (found : Bool) (s : MpmcSet) (ls : List (List ℕ))
    → IsHeld s ls
    → id < length s.pools
    → IsGiven (pop_local n id (some (s, found))) n ls
unfolding pop_local with_popped
pop_local-IsGiven n id found s ls h inside =
    let t = pop_n-IsTaken n (get_or s.pools id no_pool) (get_or ls id []) (h.hold.each id inside) in
    record {
      after = record s { pools = set s.pools id t.after };
      out = t.out;
      lists = set ls id t.kept;
      runs = rw t.runs refl;
      held = record {
        hold = AllHold-set s.pools ls id t.after t.kept h.hold inside t.held;
        found = λ tid i e. omega (arith, h.found tid i e, length-set s.pools id t.after);
        sized = h.sized;
      };
      at_most = omega (arith, t.taken);
      balance = λ x.
          omega (
            arith,
            t.balance x,
            occurrences-set x ls id t.kept (omega (arith, h.hold.same_length)),
          );
    }

no_length : (xs : List ℕ) → length xs ≡ 0 → xs ≡ []
no_length [] e = refl
no_length (x ∷ xs) e = absurd (omega arith)

get_from-IsGiven :
    (n : ℕ) (locks : List Bool) (attempts : List Attempt) (s : MpmcSet) (ls : List (List ℕ))
    (id : ℕ)
    → IsHeld s ls
    → id < length s.pools
    → IsGiven (get_from n locks attempts (some (s, id))) n ls
unfolding get_from count
get_from-IsGiven n locks attempts s ls id h inside = elim (Bool-cases (any_free locks)) [
  | inr busy ↦ record {
    after = s;
    out = [];
    lists = ls;
    runs = rw busy refl;
    held = h;
    at_most = omega arith;
    balance = λ x. omega arith;
  }
  | inl free ↦ elim (Bool-cases (size (get_or s.pools id no_pool) == 0)) [
    | inr filled ↦
        subst (λ r. IsGiven r n ls) (sym (at_once free filled))
          (pop_local-IsGiven n id false s ls h inside)
    | inl bare ↦
        let t = steal_packets-IsStolen attempts s ls id h inside (empty bare) in
        let g =
          pop_local-IsGiven n id t.found t.after t.lists t.held (omega (arith, t.same_pools)) in
        record {
          after = g.after;
          out = g.out;
          lists = g.lists;
          runs = rw (free, bare, t.runs) g.runs;
          held = g.held;
          at_most = g.at_most;
          balance = λ x. g.balance x ∙ t.balance x;
        }
  ]
]
  where
    at_once :
        any_free locks ≡ true
        → (size (get_or s.pools id no_pool) == 0) ≡ false
        → get_from n locks attempts (some (s, id)) ≡ pop_local n id (some (s, false))
    at_once free filled = rw (free, filled) refl

    empty : (size (get_or s.pools id no_pool) == 0) ≡ true → get_or ls id [] ≡ []
    empty bare = no_length (get_or ls id []) (
        sym (Holds-size (get_or s.pools id no_pool) (get_or ls id []) (h.hold.each id inside))
        ∙ ==→eq (size (get_or s.pools id no_pool)) 0 bare)

-- Whichever locks are free and whichever pools are stolen from, a thread gets at most the number of
-- packets that it asks for, no assertion fails, and each packet is afterwards as often in the pools
-- and in the hands of the thread as it was in the pools before.
pub get_n-IsGiven :
    (tid n : ℕ) (locks : List Bool) (attempts : List Attempt) (s : MpmcSet) (ls : List (List ℕ))
    → IsHeld s ls
    → IsGiven (get_n tid n locks attempts s) n ls
unfolding get_n
get_n-IsGiven tid n locks attempts s ls h =
    let l = get_local_pool-IsAssigned tid s ls h in
    let g = get_from-IsGiven n locks attempts l.after l.lists l.id l.held l.inside in
    record {
      after = g.after;
      out = g.out;
      lists = g.lists;
      runs = rw l.runs g.runs;
      held = g.held;
      at_most = g.at_most;
      balance = λ x. g.balance x ∙ l.balance x;
    }

-- A run that takes a packet back.
pub record IsPut (runs_as : Option MpmcSet) (packet : ℕ) (ls : List (List ℕ)) : Type 0 where
  pub after : MpmcSet
  pub lists : List (List ℕ)
  pub runs : runs_as ≡ some after
  pub held : IsHeld after lists
  pub balance : (x : ℕ) → occurrences x lists ≡ occurrences x ls + count x (packet ∷ [])

pushed-IsPut :
    (packet id : ℕ) (s : MpmcSet) (ls : List (List ℕ)) (pool : LocalSet) (l : List ℕ)
    → IsHeld s ls
    → id < length s.pools
    → Holds pool l
    → ((x : ℕ) → count x l ≡ count x (get_or ls id []) + count x (packet ∷ []))
    → IsPut (with_pushed id s (some pool)) packet ls
unfolding with_pushed
pushed-IsPut packet id s ls pool l h inside held more = record {
  after = record s { pools = set s.pools id pool };
  lists = set ls id l;
  runs = refl;
  held = record {
    hold = AllHold-set s.pools ls id pool l h.hold inside held;
    found = λ tid i e. omega (arith, h.found tid i e, length-set s.pools id pool);
    sized = h.sized;
  };
  balance =
      λ x. omega (arith, more x, occurrences-set x ls id l (omega (arith, h.hold.same_length)));
}

put_into-IsPut :
    (packet : ℕ) (tid : ℤ) (s : MpmcSet) (ls : List (List ℕ)) (id : ℕ)
    → IsHeld s ls
    → id < length s.pools
    → 0 < packet
    → IsPut (put_into packet tid (some (s, id))) packet ls
unfolding put_into count
put_into-IsPut packet tid s ls id h inside positive = elim (Bool-cases (is_negative tid)) [
  | inl back ↦
      let (pool, e, held) =
        push_to_bot-Holds (get_or s.pools id no_pool) (get_or ls id []) packet
          (h.hold.each id inside) positive in
      subst (λ r. IsPut r packet ls) (sym (rw (back, e) refl))
        (pushed-IsPut packet id s ls pool _ h inside held
          (λ x. count-append x (get_or ls id []) (packet ∷ [])))
  | inr front ↦
      let (pool, e, held) =
        push_to_top-Holds (get_or s.pools id no_pool) (get_or ls id []) packet
          (h.hold.each id inside) positive in
      subst (λ r. IsPut r packet ls) (sym (rw (front, e) refl))
        (pushed-IsPut packet id s ls pool _ h inside held (λ x. omega arith))
]

-- Whatever thread is named, a packet that is put back is taken without a failed assertion, and is
-- once more in the pools than before; every other packet is as often there as it was.
pub put-IsPut :
    (current packet : ℕ) (tid : ℤ) (s : MpmcSet) (ls : List (List ℕ))
    → IsHeld s ls
    → 0 < packet
    → IsPut (put current packet tid s) packet ls
unfolding put
put-IsPut current packet tid s ls h positive =
    let l = get_local_pool-IsAssigned current s ls h in
    let p = put_into-IsPut packet tid l.after l.lists l.id l.held l.inside positive in
    record {
      after = p.after;
      lists = p.lists;
      runs = rw (is_positive, l.runs) p.runs;
      held = p.held;
      balance = λ x. p.balance x ∙ ap (λ n. n + count x (packet ∷ [])) (l.balance x);
    }
  where
    is_positive : ltb 0 packet ≡ true
    is_positive = ground arith
