-- ===== src/PacketSet/Steal.antt =====
-- Stealing moves packets from one pool to another.
use lci.Base.{
  ℕ, zero, suc, ◌+◌, ◌-◌, ◌*◌, ◌/◌, ◌%◌, ◌≤◌, ◌<◌, ◌≡◌, ◌≢◌, refl, sym, ap, subst, ◌∙◌, inl, inr,
  Bool, true, false, ◌||◌, not, max, Option, none, some, List, [], ◌∷◌, ◌++◌, length, length-append,
  length-set, length-replicate, get_or, get_or-set_ne, set, take, drop, replicate, if◌then◌else◌,
  leb, ◌==◌, Bool-cases, arith,
}
use lci.Base.Int.{pos}
use native.Mathlib.Nat.{mod-lt}
use lci.PacketSet.{LocalSet, size, same_index, lower_index, copy_to_new}
use lci.PacketSet.Positions.{lower_index-add_index_back}
use lci.PacketSet.Deque.{Holds, Holds-size}
use lci.PacketSet.Moves.{IsCopied, copy_to_new_lem}
use lci.PacketSet.Pops.{empty_indices}
use lci.PacketSet.Pools.{MpmcSet, Attempt, no_pool, resized, stolen, steal_half, steal_packets}
use lci.PacketSet.Conservation.{count, occurrences, count-append, occurrences-set, AllHold-set}
use lci.PacketSet.Locals.{IsHeld}

-- An attempt to steal runs, and moves packets from one pool to another.
pub record IsStolen (runs_as : Option (MpmcSet × Bool)) (s : MpmcSet) (ls : List (List ℕ))
    : Type 0 where
  pub after : MpmcSet
  pub found : Bool
  pub lists : List (List ℕ)
  pub runs : runs_as ≡ some (after, found)
  pub held : IsHeld after lists
  pub same_pools : length after.pools ≡ length s.pools
  pub balance : (x : ℕ) → occurrences x lists ≡ occurrences x ls

module _ {ℓ} {A : Type ℓ} where
  take-drop : (n : ℕ) (xs : List A) → xs ≡ take n xs ++ drop n xs
  take-drop zero xs = refl
  take-drop (suc n) [] = refl
  take-drop (suc n) (x ∷ xs) = ap (λ r. x ∷ r) (take-drop n xs)

  length-take : (n : ℕ) (xs : List A) → n ≤ length xs → length (take n xs) ≡ n
  length-take zero xs h = refl
  length-take (suc n) [] h = absurd (omega arith)
  length-take (suc n) (x ∷ xs) h = ap suc (length-take n xs (omega arith))

  length-take_all : (n : ℕ) (xs : List A) → length (take n xs) + (length xs - n) ≡ length xs
  length-take_all zero xs = omega arith
  length-take_all (suc n) [] = omega arith
  length-take_all (suc n) (x ∷ xs) = omega (arith, length-take_all n xs)

length-resized : (queue : List ℕ) (n : ℕ) → length (resized queue n) ≡ n
unfolding resized
length-resized queue n =
    length-append (take n queue) (replicate (n - length queue) 0)
    ∙ omega (
      arith,
      length-take_all n queue,
      length-replicate {A = ℕ} (n - length queue) 0,
      takes n queue,
    )
  where
    takes : (n : ℕ) (queue : List ℕ) → length (take n queue) ≤ n
    takes zero queue = omega arith
    takes (suc n) [] = omega arith
    takes (suc n) (x ∷ queue) = omega (arith, takes n queue)

no_length : (xs : List ℕ) → length xs ≡ 0 → xs ≡ []
no_length [] e = refl
no_length (x ∷ xs) e = absurd (omega arith)

module _ (s : MpmcSet) (ls : List (List ℕ)) (h : IsHeld s ls) (local_id random_id : ℕ)
    (local_inside : local_id < length s.pools) (random_inside : random_id < length s.pools)
    (other : random_id ≢ local_id) (nothing : get_or ls local_id [] ≡ []) where
  victim : List ℕ
  victim = get_or ls random_id []

  half : ℕ
  half = (length victim + 1) / 2

  moved : List ℕ
  moved = take half victim

  victim_size : size (get_or s.pools random_id no_pool) ≡ length victim
  unfolding victim
  victim_size =
      Holds-size (get_or s.pools random_id no_pool) (get_or ls random_id [])
        (h.hold.each random_id random_inside)

  moved_size : length moved ≡ half
  unfolding moved half
  moved_size = length-take ((length victim + 1) / 2) victim (omega arith)

  room : List ℕ
  room =
      resized (get_or s.pools local_id no_pool).queue
        (max s.default_lpool_size ((length victim + 1) / 2 * 2) + 1)

  length-room : length room ≡ max s.default_lpool_size (half * 2) + 1
  unfolding room half
  length-room =
      length-resized (get_or s.pools local_id no_pool).queue
        (max s.default_lpool_size ((length victim + 1) / 2 * 2) + 1)

  copy_done :
      0 < length victim → IsCopied (get_or s.pools random_id no_pool) room moved (drop half victim)
  unfolding victim moved half
  copy_done nonempty =
      copy_to_new_lem (get_or s.pools random_id no_pool) room moved (drop half victim)
        (subst (λ l. Holds (get_or s.pools random_id no_pool) l) (take-drop half victim)
          (h.hold.each random_id random_inside))
        (omega (arith, length-room, moved_size)) (omega (arith, length-room, moved_size, h.sized))

  -- The pool of the thread with what it stole.
  filled_pool : List ℕ → LocalSet
  filled_pool queue = record { queue = queue; head = pos 0; tail = pos ((length victim + 1) / 2) }

  in_bounds :
      0 < length victim
      → (c : IsCopied (get_or s.pools random_id no_pool) room moved (drop half victim))
      → lower_index c.rest.tail c.rest.head ≡ false
  in_bounds nonempty c =
      ap (λ t. lower_index t c.rest.head) c.rest_Holds.spans
      ∙ lower_index-add_index_back c.rest.head (length (drop half victim))

  copy_runs :
      (c : IsCopied (get_or s.pools random_id no_pool) room moved (drop half victim))
      → copy_to_new
          (get_or s.pools random_id no_pool)
          (resized
            (get_or s.pools local_id no_pool).queue
            (max s.default_lpool_size ((length victim + 1) / 2 * 2) + 1))
          ((length victim + 1) / 2)
        ≡ some (c.rest, c.filled)
  unfolding room half
  copy_runs c =
      ap (λ n. copy_to_new (get_or s.pools random_id no_pool) room n) (sym moved_size) ∙ c.runs

  filled_Holds :
      (c : IsCopied (get_or s.pools random_id no_pool) room moved (drop half victim))
      → Holds (filled_pool c.filled) moved
  unfolding filled_pool half
  filled_Holds c =
      subst (λ n. Holds (record { queue = c.filled; head = pos 0; tail = pos n }) moved) moved_size
        c.filled_Holds

  moved_balance :
      (x : ℕ)
      → occurrences x (set (set ls random_id (drop half victim)) local_id moved) ≡ occurrences x ls
  unfolding victim moved count
  moved_balance x = omega (
    arith,
    occurrences-set x ls random_id (drop half victim) (omega (arith, h.hold.same_length)),
    occurrences-set x (set ls random_id (drop half victim)) local_id moved
        (omega (arith, length-set ls random_id (drop half victim), h.hold.same_length)),
    ap (λ l. count x l) (get_or-set_ne ls random_id local_id (drop half victim) [] other ∙ nothing),
    ap (λ l. count x l) (take-drop half victim),
    count-append x (take half victim) (drop half victim),
  )

  steal_half-IsStolen : 0 < length victim → IsStolen (steal_half local_id random_id s) s ls
  unfolding steal_half stolen filled_pool
  steal_half-IsStolen nonempty =
      let c = copy_done nonempty in
      record {
        after = record s {
          pools = set (set s.pools random_id c.rest) local_id (filled_pool c.filled);
        };
        found = true;
        lists = set (set ls random_id (drop half victim)) local_id moved;
        runs = rw (victim_size, enough, copy_runs c, in_bounds nonempty c) refl;
        held = record {
          hold =
              AllHold-set (set s.pools random_id c.rest) (set ls random_id (drop half victim))
                local_id (filled_pool c.filled) moved
                (AllHold-set s.pools ls random_id c.rest (drop half victim) h.hold random_inside
                  c.rest_Holds)
                (omega (arith, length-set s.pools random_id c.rest)) (filled_Holds c);
          found = λ t i e. omega (arith, h.found t i e, same_pools c);
          sized = h.sized;
        };
        same_pools = same_pools c;
        balance = moved_balance;
      }
    where
      enough : leb ((length victim + 1) / 2) (length victim) ≡ true
      enough = ground arith

      same_pools :
          (c : IsCopied (get_or s.pools random_id no_pool) room moved (drop half victim))
          → length (set (set s.pools random_id c.rest) local_id (filled_pool c.filled))
            ≡ length s.pools
      same_pools c =
          length-set (set s.pools random_id c.rest) local_id (filled_pool c.filled)
          ∙ length-set s.pools random_id c.rest

-- The loop over the attempts never fails an assertion, and moves packets at most.
pub steal_packets-IsStolen :
    (attempts : List Attempt) (s : MpmcSet) (ls : List (List ℕ)) (local_id : ℕ)
    → IsHeld s ls
    → local_id < length s.pools
    → get_or ls local_id [] ≡ []
    → IsStolen (steal_packets local_id attempts s) s ls
unfolding steal_packets victim
steal_packets-IsStolen [] s ls local_id h inside nothing = record {
  after = s;
  found = false;
  lists = ls;
  runs = refl;
  held = h;
  same_pools = refl;
  balance = λ x. refl;
}
steal_packets-IsStolen (a ∷ attempts) s ls local_id h inside nothing =
    subst (λ r. IsStolen r s ls) (sym (turn later))
      (elim (Bool-cases skipped) [
        | inl skip ↦
            subst (λ b. IsStolen (if b then later else steal_half local_id random_id s) s ls)
              (sym skip) (steal_packets-IsStolen attempts s ls local_id h inside nothing)
        | inr take_it ↦
            subst (λ b. IsStolen (if b then later else steal_half local_id random_id s) s ls)
              (sym take_it)
              (steal_half-IsStolen s ls h local_id random_id inside random_inside (others take_it)
                nothing (nonempty take_it))
      ])
  where
    random_id : ℕ
    random_id = a.random % length s.pools

    later : Option (MpmcSet × Bool)
    later = steal_packets local_id attempts s

    skipped : Bool
    skipped =
        (random_id == local_id) || (size (get_or s.pools random_id no_pool) == 0) || not a.lock_free

    random_inside : random_id < length s.pools
    random_inside = mod-lt a.random (omega arith)

    empty : Holds (get_or s.pools local_id no_pool) []
    empty =
        subst (λ l. Holds (get_or s.pools local_id no_pool) l) nothing (h.hold.each local_id inside)

    turn :
        (rest : Option (MpmcSet × Bool))
        → (if not (
              same_index
                (get_or s.pools local_id no_pool).head
                (get_or s.pools local_id no_pool).tail)
            then none
            else if skipped
            then rest
            else steal_half local_id random_id s)
          ≡ (if skipped then rest else steal_half local_id random_id s)
    turn rest = rw (empty_indices (get_or s.pools local_id no_pool) empty) refl

    others : skipped ≡ false → random_id ≢ local_id
    others e = ground arith

    nonempty : skipped ≡ false → 0 < length (get_or ls random_id [])
    nonempty e = ground (
      arith,
      Holds-size (get_or s.pools random_id no_pool) (get_or ls random_id [])
          (h.hold.each random_id random_inside),
    )
