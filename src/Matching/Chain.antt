-- ===== src/Matching/Chain.antt =====
-- The bucket chain of `matching_engine_map_t`, and the search of `insert` through it
-- (src/matching_engine/matching_engine_map.hpp).
use lci.Base.{
  ℕ, zero, suc, ◌+◌, ◌*◌, ◌≡◌, refl, ◌≢◌, Bool, true, false, ◌&&◌, ◌||◌, not, Option, none, some,
  List, [], ◌∷◌, ◌++◌, if◌then◌else◌, ltb, ◌==◌, length, get_elem?, set, replicate, arith,
}
use lci.Matching.{EntryType, opposite, same_type}
use lci.Matching.SlotQueue.{Queue, Storage, pop, push, setup, pending_values, IsConsistent}
pub mod Search
pub mod Alone

-- `BUCKET_NUM_QUEUES_DEFAULT`.
abbrev pub bucket_num_queues_default : ℕ
bucket_num_queues_default = 3

-- A bucket is its queues, and a chain its buckets, the master first.
abbrev pub Chain : Type 0
Chain = List (List Queue)

-- Where a pointer to a queue points.
pub record Position : Type 0 where
  pub bucket : ℕ
  pub offset : ℕ

-- A queue as constructed; its key and type are not set, and not read while it is empty.
abbrev pub fresh_queue : Queue
fresh_queue = record {
  is_empty = true;
  type = EntryType.send;
  key = 0;
  storage = Storage.slots (0 ∷ 0 ∷ []);
}

abbrev pub fresh_bucket : ℕ → List Queue
fresh_bucket nqueues = replicate nqueues fresh_queue

-- `target_queue` or `same_type_queue`, once one of them is set.
pub data Found : Type 0 where
  target : (p : Position) → Found
  same : (p : Position) → Found
  nowhere : Found

pub record BucketScan : Type 0 where
  pub found : Found
  pub first_empty : Option Position
  pub nonempty : Bool

-- `first_empty_queue` when an empty queue is met.
unfoldable pub first_or : Option Position → Position → Option Position
first_or none p = some p
first_or (some p0) p = some p0

unfoldable pub is_null : Option Position → Bool
is_null none = true
is_null (some p) = false

-- The queues of one bucket from offset `j`, with `is_current_bucket_nonempty` so far.
unfoldable pub scan_bucket :
    ℕ → EntryType → ℕ → ℕ → List Queue → Option Position → Bool → BucketScan
unfolding first_or is_null same_type
scan_bucket key wanted b j [] first nonempty = record {
  found = nowhere;
  first_empty = first;
  nonempty = nonempty;
}
scan_bucket key wanted b j (q ∷ qs) first nonempty =
    let here : Position = record { bucket = b; offset = j } in
    let skip_empty =
      scan_bucket key wanted b (suc j) qs (first_or first here) (is_null first || nonempty) in
    let skip_other = scan_bucket key wanted b (suc j) qs first true in
    if q.is_empty
    then skip_empty
    else if q.key == key
    then record {
      found = if same_type q.type wanted then target here else same here;
      first_empty = first;
      nonempty = true;
    }
    else skip_other

pub record ChainSearch : Type 0 where
  pub found : Found
  pub first_empty : Option Position
  pub chain : Chain

-- What the loop does after it went through bucket `b`: stop, free the bucket, or go on.
unfoldable pub after_bucket :
    BucketScan → ℕ → List Queue → Chain → ChainSearch → ChainSearch → Found → ChainSearch
after_bucket s b bucket rest freed kept (target p) = record {
  found = target p;
  first_empty = s.first_empty;
  chain = bucket ∷ rest;
}
after_bucket s b bucket rest freed kept (same p) = record {
  found = same p;
  first_empty = s.first_empty;
  chain = bucket ∷ rest;
}
after_bucket s b bucket rest freed kept nowhere =
    if not s.nonempty && ltb 0 b then freed else record kept { chain = bucket ∷ kept.chain }

-- The search from bucket `b` on; a bucket other than the master is freed when it holds nothing.
unfoldable pub search_chain : ℕ → EntryType → ℕ → Chain → Option Position → ChainSearch
unfolding after_bucket
search_chain key wanted b [] first = record { found = nowhere; first_empty = first; chain = [] }
search_chain key wanted b (bucket ∷ rest) first =
    let s = scan_bucket key wanted b 0 bucket first false in
    let freed = search_chain key wanted b rest s.first_empty in
    let kept = search_chain key wanted (suc b) rest s.first_empty in
    after_bucket s b bucket rest freed kept s.found

unfoldable pub queue_at : Chain → ℕ → ℕ → Option Queue
queue_at [] b j = none
queue_at (bucket ∷ rest) zero j = get_elem? bucket j
queue_at (bucket ∷ rest) (suc b) j = queue_at rest b j

-- A write through a pointer.
unfoldable pub put_queue : Chain → ℕ → ℕ → Queue → Chain
put_queue [] b j q = []
put_queue (bucket ∷ rest) zero j q = set bucket j q ∷ rest
put_queue (bucket ∷ rest) (suc b) j q = bucket ∷ put_queue rest b j q

-- `nqueues` of the last bucket.
unfoldable pub last_nqueues : Chain → ℕ
last_nqueues [] = 0
last_nqueues (bucket ∷ []) = length bucket
last_nqueues (bucket ∷ next ∷ rest) = last_nqueues (next ∷ rest)

unfoldable pub grow : Chain → Queue → Chain
unfolding last_nqueues
grow chain q = chain ++ (set (fresh_bucket (last_nqueues chain * 2 + 1)) 0 q ∷ [])

unfoldable pub on_target : Chain → Position → Option Queue → ℕ × Chain
on_target chain p none = (0, chain)
on_target chain p (some q) = ((pop q).0, put_queue chain p.bucket p.offset (pop q).1)

unfoldable pub on_same : Chain → Position → Option Queue → ℕ → ℕ × Chain
on_same chain p none v = (0, chain)
on_same chain p (some q) v = (0, put_queue chain p.bucket p.offset (push q v))

unfoldable pub on_nowhere : Chain → Option Position → ℕ → ℕ → EntryType → ℕ × Chain
unfolding grow queue_at
on_nowhere chain (some p) key v t =
    (0, put_queue chain p.bucket p.offset (setup fresh_queue key t v))
on_nowhere chain none key v t = (0, grow chain (setup fresh_queue key t v))

unfoldable pub act : ChainSearch → Found → ℕ → ℕ → EntryType → ℕ × Chain
unfolding on_target on_same on_nowhere
act r (target p) key v t = on_target r.chain p (queue_at r.chain p.bucket p.offset)
act r (same p) key v t = on_same r.chain p (queue_at r.chain p.bucket p.offset) v
act r nowhere key v t = on_nowhere r.chain r.first_empty key v t

-- `insert` with the master's lock held.
unfoldable pub insert_chain : Chain → ℕ → ℕ → EntryType → ℕ × Chain
unfolding act search_chain opposite
insert_chain chain key v t =
    let r = search_chain key (opposite t) 0 chain none in act r r.found key v t
