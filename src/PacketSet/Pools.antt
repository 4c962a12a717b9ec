-- ===== src/PacketSet/Pools.antt =====
-- The deques of all threads: `mpmc_set_t` of src/data_structure/mpmc_set.hpp. The outcomes of
-- `try_lock` and of the random choice are arguments.
use lci.Base.{
  ℕ, zero, suc, ◌+◌, ◌-◌, ◌*◌, ◌/◌, ◌%◌, max, Bool, true, false, ◌||◌, not, Option, none, some,
  List, [], ◌∷◌, ◌++◌, length, get_or, set, take, replicate, if◌then◌else◌, ltb, leb, ◌==◌, update,
}
use lci.Base.Int.{ℤ, pos, is_negative}
use lci.PacketSet.{
  LocalSet, create, size, same_index, lower_index, copy_to_new, push_to_bot, push_to_top,
  pop_from_bot,
}

pub record MpmcSet : Type 0 where
  pub default_lpool_size : ℕ
  pub pools : List LocalSet
  pub tid_to_pools : ℕ → Option ℕ

-- Read where no pool is.
abbrev pub no_pool : LocalSet
no_pool = record { queue = []; head = pos 0; tail = pos 0 }

unfoldable pub with_pool : ℕ → MpmcSet → Option LocalSet → Option (MpmcSet × ℕ)
with_pool tid s none = none
with_pool tid s (some pool) = some (
  record s {
    pools = s.pools ++ (pool ∷ []);
    tid_to_pools = update s.tid_to_pools tid (some (length s.pools));
  },
  length s.pools,
)

unfoldable pub found_pool : ℕ → MpmcSet → Option ℕ → Option (MpmcSet × ℕ)
found_pool tid s (some id) = some (s, id)
found_pool tid s none = with_pool tid s (create s.default_lpool_size)

-- The pool of a thread, made when the thread has none.
unfoldable pub get_local_pool : ℕ → MpmcSet → Option (MpmcSet × ℕ)
get_local_pool tid s = found_pool tid s (s.tid_to_pools tid)

-- One attempt to steal: the number that `rand_mt` gives, and whether the lock is free.
pub record Attempt : Type 0 where
  pub random : ℕ
  pub lock_free : Bool

unfoldable pub resized : List ℕ → ℕ → List ℕ
resized queue n = take n queue ++ replicate (n - length queue) 0

unfoldable pub stolen : ℕ → ℕ → ℕ → MpmcSet → Option (LocalSet × List ℕ) → Option (MpmcSet × Bool)
stolen local_id random_id n s none = none
stolen local_id random_id n s (some (random_pool, queue)) =
    if not (lower_index random_pool.tail random_pool.head)
    then some (
      record s {
        pools =
            set (set s.pools random_id random_pool) local_id
              (record { queue = queue; head = pos 0; tail = pos n });
      },
      true,
    )
    else none

-- Half of the packets of the random pool, rounded up.
unfoldable pub steal_half : ℕ → ℕ → MpmcSet → Option (MpmcSet × Bool)
steal_half local_id random_id s =
    let random_pool = get_or s.pools random_id no_pool in
    let size_to_steal = (size random_pool + 1) / 2 in
    if leb size_to_steal (size random_pool)
    then stolen local_id random_id size_to_steal s (
        copy_to_new random_pool
          (resized (get_or s.pools local_id no_pool).queue
            (max s.default_lpool_size (size_to_steal * 2) + 1))
          size_to_steal)
    else none

-- The loop over the attempts; `none` is a failed assertion.
unfoldable pub steal_packets : ℕ → List Attempt → MpmcSet → Option (MpmcSet × Bool)
steal_packets local_id [] s = some (s, false)
steal_packets local_id (a ∷ attempts) s =
    let later = steal_packets local_id attempts s in
    let random_id = a.random % length s.pools in
    let local_pool = get_or s.pools local_id no_pool in
    let random_pool = get_or s.pools random_id no_pool in
    if not (same_index local_pool.head local_pool.tail)
    then none
    else if (random_id == local_id) || (size random_pool == 0) || not a.lock_free
    then later
    else steal_half local_id random_id s

unfoldable pub and_popped : ℕ → Option (LocalSet × List ℕ) → Option (LocalSet × List ℕ)
and_popped packet none = none
and_popped packet (some (s, packets)) = some (s, packet ∷ packets)

-- A turn of the loop of `get_n`, with the turns after it: it ends at the null pointer.
unfoldable pub pop_rest :
    (LocalSet → Option (LocalSet × List ℕ)) → Option (LocalSet × ℕ) → Option (LocalSet × List ℕ)
pop_rest later none = none
pop_rest later (some (s, zero)) = some (s, [])
pop_rest later (some (s, suc packet)) = and_popped (suc packet) (later s)

unfoldable pub pop_n : ℕ → LocalSet → Option (LocalSet × List ℕ)
pop_n zero s = some (s, [])
pop_n (suc n) s = pop_rest (pop_n n) (pop_from_bot s)

unfoldable pub any_free : List Bool → Bool
any_free [] = false
any_free (free ∷ locks) = free || any_free locks

unfoldable pub with_popped : ℕ → MpmcSet → Option (LocalSet × List ℕ) → Option (MpmcSet × List ℕ)
with_popped id s none = none
with_popped id s (some (pool, packets)) = some (record s { pools = set s.pools id pool }, packets)

unfoldable pub pop_local : ℕ → ℕ → Option (MpmcSet × Bool) → Option (MpmcSet × List ℕ)
pop_local n id none = none
pop_local n id (some (s, found)) = with_popped id s (pop_n n (get_or s.pools id no_pool))

unfoldable pub get_from :
    ℕ → List Bool → List Attempt → Option (MpmcSet × ℕ) → Option (MpmcSet × List ℕ)
get_from n locks attempts none = none
get_from n locks attempts (some (s, id)) =
    if any_free locks
    then pop_local n id (
        if size (get_or s.pools id no_pool) == 0
        then steal_packets id attempts s
        else some (s, false))
    else some (s, [])

-- The packets that a thread gets, at most `n`. Both lists have the length `max_retry_attempts`.
unfoldable pub get_n : ℕ → ℕ → List Bool → List Attempt → MpmcSet → Option (MpmcSet × List ℕ)
get_n tid n locks attempts s = get_from n locks attempts (get_local_pool tid s)

unfoldable pub with_pushed : ℕ → MpmcSet → Option LocalSet → Option MpmcSet
with_pushed id s none = none
with_pushed id s (some pool) = some (record s { pools = set s.pools id pool })

unfoldable pub put_into : ℕ → ℤ → Option (MpmcSet × ℕ) → Option MpmcSet
put_into packet tid none = none
put_into packet tid (some (s, id)) =
    let pool = get_or s.pools id no_pool in
    with_pushed id s (if is_negative tid then push_to_bot pool packet else push_to_top pool packet)

-- `current` is the thread that calls; the pool is its own whatever `tid` is.
unfoldable pub put : ℕ → ℕ → ℤ → MpmcSet → Option MpmcSet
put current packet tid s =
    if ltb 0 packet then put_into packet tid (get_local_pool current s) else none

unfoldable pub total : List LocalSet → ℕ
total [] = 0
total (pool ∷ pools) = size pool + total pools
