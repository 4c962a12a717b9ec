-- ===== src/ShmRing/Invariant/Preserved.antt =====
-- The invariant of a whole system: true at the start, and kept by every step of every thread.
use native.Mathlib.Nat.{
  add-mul-mod_self_left, mod-lt, mod-eq_of_lt, div-add-mod, mul-add-mod_self_left,
}
use Prim.Native.Nat.{bit_and}
use lci.Base.{
  ℕ, zero, suc, ◌+◌, ◌-◌, ◌*◌, ◌/◌, ◌%◌, ◌^◌, ◌≤◌, ◌<◌, ◌≡◌, refl, sym, ap, ◌∙◌, ◌⊎◌, inl, inr, ◌≢◌,
  true, false, none, some, arith, if◌then◌else◌, update, ℕ_discrete, Bool-cases, length, List,
  Option-cases, ==_ne, ==_refl, leb,
}
use lci.Base.BitOps.{bit_and-mask, power_divides}
use lci.ShmRing.{Ring, View, maximum_position, initialize_at, initial_position_accepted}
use lci.ShmRing.Machine.{Request, Pc, Outcome, rejected, bytes_of, post_send, poll}
use lci.ShmRing.System.{
  System, Move, sends, polls, releases, advances, Rests, idle_rests, send_rests, recv_rests,
  BufferHolds, Step, pick, Reach, here, next, start, log_sent, no_request,
}
use lci.ShmRing.Invariant.Defs.{IsGeometry, SlotInv, RingInv, Local, writes, reads, word}
use lci.ShmRing.Invariant.Effects.{Effect-RingInv, Effect-Local, slot_count_pos}
use lci.ShmRing.Invariant.Access.{Distinct, Advance, step-Advance, quietly}

-- A 64-bit difference of slot indices, masked, is the difference modulo the number of slots.
wrapped_difference :
    (n q i m : ℕ)
    → i < n
    → m < n
    → 2 ^ 64 ≡ n * q
    → (i + 2 ^ 64 - m) % n ≡ (if leb m i then i - m else i + n - m)
wrapped_difference n zero i m hi hm e = absurd (omega arith)
wrapped_difference n (suc q) i m hi hm e = elim (Bool-cases (leb m i)) [
  | inl le ↦ rw le (
      ap (λ (t : ℕ). t % n) {x = i + 2 ^ 64 - m} {y = i - m + n * suc q} (ground arith)
      ∙ add-mul-mod_self_left (i - m) n (suc q)
      ∙ mod-eq_of_lt (omega arith))
  | inr gt ↦ rw gt (
      ap (λ (t : ℕ). t % n) {x = i + 2 ^ 64 - m} {y = i + n - m + n * q} (ground arith)
      ∙ add-mul-mod_self_left (i + n - m) n q
      ∙ mod-eq_of_lt (ground arith))
]

pub record Inv (v : View) (s : System) : Type 0 where
  pub ring : RingInv v s.ring s.sent
  pub locals : (i : ℕ) → Local v s.ring s.sent (s.pc i)
  pub writers :
      (i j position : ℕ) → writes (s.pc i) ≡ some position → writes (s.pc j) ≡ some position → i ≡ j
  pub readers :
      (i j position : ℕ) → reads (s.pc i) ≡ some position → reads (s.pc j) ≡ some position → i ≡ j

module _ {v : View} {k : ℕ} (g : IsGeometry v k) where
  -- An accepted buffer is not null, unless nothing is to be copied.
  enough :
      (req : Request)
      → BufferHolds req
      → rejected v req ≡ false
      → (req.buffer ≡ none) ⊎ ((bytes : List ℕ) × (req.buffer ≡ some bytes))
      → req.size ≤ length (bytes_of req.buffer)
  unfolding rejected bytes_of
  enough req h e (inl n) = ground arith
  enough req h e (inr (bytes, m)) = ground (arith, h bytes)

  send-Local :
      (r : Ring) (sent : ℕ → Request) (req : Request)
      → BufferHolds req
      → Local v r sent (post_send v req)
  unfolding post_send
  send-Local r sent req h = elim (Bool-cases (rejected v req)) [
    | inl e ↦ rw e (inl e)
    | inr e ↦ rw e (record { accepted = e; bytes = enough req h e (Option-cases req.buffer) })
  ]

  post_send-owns :
      (req : Request) → (writes (post_send v req) ≡ none) × (reads (post_send v req) ≡ none)
  unfolding post_send
  post_send-owns req = ground arith

  module _ {r : Ring} {sent : ℕ → Request} (inv : RingInv v r sent) where
    Rests-Advance :
        {p : Pc} (p' : Pc)
        → Rests p
        → Local v r sent p'
        → writes p' ≡ none
        → reads p' ≡ none
        → Advance v r sent (log_sent p sent) p r p'
    Rests-Advance p' idle_rests l nw nr = quietly g inv _ p' l (λ x e. cc) (λ x e. cc)
    Rests-Advance p' send_rests l nw nr = quietly g inv _ p' l (λ x e. cc) (λ x e. cc)
    Rests-Advance p' recv_rests l nw nr = quietly g inv _ p' l (λ x e. cc) (λ x e. cc)

    pub Move-Advance :
        {p : Pc} {r' : Ring} {p' : Pc}
        → Move v r p r' p'
        → Local v r sent p
        → Advance v r sent (log_sent p sent) p r' p'
    unfolding poll
    Move-Advance (sends req h rests) l =
        Rests-Advance _ rests (send-Local r sent req h) (post_send-owns req).0
          (post_send-owns req).1
    Move-Advance (polls rests) l = Rests-Advance _ rests tt refl refl
    Move-Advance (releases position view) l = quietly g inv _ _ l.0 (λ x e. cc) (λ x e. e)
    Move-Advance (advances weak p) l = step-Advance g inv weak p l

  -- What a thread owns was reserved, or claimed, before.
  written_below :
      (r : Ring) (sent : ℕ → Request) (q : Pc) (position : ℕ)
      → Local v r sent q
      → writes q ≡ some position
      → position < r.producer_position
  written_below r sent Pc.idle position l e = cc
  written_below r sent q position l e = ground arith

  read_below :
      (r : Ring) (sent : ℕ → Request) (q : Pc) (position : ℕ)
      → Local v r sent q
      → reads q ≡ some position
      → position < r.consumer_position
  read_below r sent Pc.idle position l e = cc
  read_below r sent (Pc.recv_finished Outcome.corrupted) position l e = cc
  read_below r sent q position l e = ground arith

  module _ {s : System} (inv : Inv v s) (i : ℕ) {r : Ring} {p : Pc}
      (a : Advance v s.ring s.sent (log_sent (s.pc i) s.sent) (s.pc i) r p) where
    distinct : (j : ℕ) → i ≢ j → Distinct (s.pc i) (s.pc j)
    distinct j n position =
        (λ x y. n (inv.writers i j position x y), λ x y. n (inv.readers i j position x y))

    locals-kept : (j : ℕ) → Local v r (log_sent (s.pc i) s.sent) (update s.pc i p j)
    locals-kept j = elim (ℕ_discrete i j) [
      | yes e ↦ rw (← e, ==_refl i) a.locals
      | no n ↦ rw (==_ne i j n) (
          Effect-Local g inv.ring a.effect (s.pc j) (a.apart (s.pc j) (distinct j n))
            (inv.locals j))
    ]

    fresh_writer :
        (j position : ℕ) → i ≢ j → writes p ≡ some position → writes (s.pc j) ≡ some position → ⊥
    fresh_writer j position n x y = elim (a.fresh_write position x) [
      | inl old ↦ n (inv.writers i j position old y)
      | inr e ↦ omega (arith, written_below s.ring s.sent (s.pc j) position (inv.locals j) y)
    ]

    fresh_reader :
        (j position : ℕ) → i ≢ j → reads p ≡ some position → reads (s.pc j) ≡ some position → ⊥
    fresh_reader j position n x y = elim (a.fresh_read position x) [
      | inl old ↦ n (inv.readers i j position old y)
      | inr e ↦ omega (arith, read_below s.ring s.sent (s.pc j) position (inv.locals j) y)
    ]

    writers-kept :
        (j l position : ℕ)
        → writes (update s.pc i p j) ≡ some position
        → writes (update s.pc i p l) ≡ some position
        → j ≡ l
    writers-kept j l position x y =
        ground (arith, fresh_writer j position, fresh_writer l position, inv.writers j l position)

    readers-kept :
        (j l position : ℕ)
        → reads (update s.pc i p j) ≡ some position
        → reads (update s.pc i p l) ≡ some position
        → j ≡ l
    readers-kept j l position x y =
        ground (arith, fresh_reader j position, fresh_reader l position, inv.readers j l position)

  -- Every step of every thread keeps the invariant.
  pub Step-Inv : {s t : System} → Step v s t → Inv v s → Inv v t
  Step-Inv {s} (pick i {r} {p} m) inv = record {
    ring = Effect-RingInv g inv.ring a.effect;
    locals = locals-kept inv i a;
    writers = writers-kept inv i a;
    readers = readers-kept inv i a;
  }
    where
      a : Advance v s.ring s.sent (log_sent (s.pc i) s.sent) (s.pc i) r p
      a = Move-Advance inv.ring m (inv.locals i)

  -- The position that the slot of index `i` starts with.
  abbrev pub first_position : ℕ → ℕ → ℕ
  first_position position i =
      position
      + (if leb (position % v.slot_count) i
          then i - position % v.slot_count
          else i + v.slot_count - position % v.slot_count)

  first_position-mod :
      (position i : ℕ) → i < v.slot_count → first_position position i % v.slot_count ≡ i
  first_position-mod position i lt = elim (Bool-cases (leb (position % v.slot_count) i)) [
    | inl le ↦ rw le (
        ap (λ (t : ℕ). t % v.slot_count) {x = position + (i - position % v.slot_count)}
          {y = v.slot_count * (position / v.slot_count) + i}
          (ground (arith, div-add-mod position v.slot_count))
        ∙ mul-add-mod_self_left v.slot_count (position / v.slot_count) i
        ∙ mod-eq_of_lt lt)
    | inr gt ↦ rw gt (
        ap (λ (t : ℕ). t % v.slot_count)
          {x = position + (i + v.slot_count - position % v.slot_count)}
          {y = v.slot_count * (position / v.slot_count + 1) + i}
          (ground (arith, div-add-mod position v.slot_count))
        ∙ mul-add-mod_self_left v.slot_count (position / v.slot_count + 1) i
        ∙ mod-eq_of_lt lt)
  ]

  first_position-bounds :
      (position i : ℕ)
      → i < v.slot_count
      → (position ≤ first_position position i)
        × (first_position position i < position + v.slot_count)
  first_position-bounds position i lt = ground (arith, mod-lt position (slot_count_pos g), lt)

  pub start-word :
      (position i : ℕ)
      → position + v.slot_count ≤ maximum_position + 1
      → i < v.slot_count
      → word (initialize_at v position) i ≡ first_position position i * 2
  unfolding initialize_at
  start-word position i ok lt =
      rw (mask position, mask (i + 2 ^ 64 - position % v.slot_count), wrapped)
        (ground (arith, first_position-bounds position i lt))
    where
      mask : (x : ℕ) → bit_and x (v.slot_count - 1) ≡ x % v.slot_count
      mask x = rw (g.power) (bit_and-mask k x)

      wrapped : (i + 2 ^ 64 - position % v.slot_count) % v.slot_count ≡ (
          if leb (position % v.slot_count) i
          then i - position % v.slot_count
          else i + v.slot_count - position % v.slot_count)
      wrapped =
          let (q, e) = power_divides k (omega (arith, g.power, g.encodable)) in
          wrapped_difference v.slot_count q i (position % v.slot_count) lt
            (mod-lt position (slot_count_pos g)) (e ∙ ap (λ n. n * q) (sym g.power))

  -- The slot of index `i` starts free, at the first position from the initial one that maps to it.
  start-SlotInv :
      (position i : ℕ)
      → position + v.slot_count ≤ maximum_position + 1
      → i < v.slot_count
      → SlotInv v (initialize_at v position) (λ _. no_request) i
  unfolding initialize_at
  start-SlotInv position i ok lt = ground (
    arith,
    start-word position i ok lt,
    first_position-mod position i lt,
    first_position-bounds position i lt,
  )

  -- The freshly initialised ring satisfies the invariant.
  pub start-Inv :
      (position : ℕ) → initial_position_accepted v position ≡ true → Inv v (start v position)
  unfolding initialize_at initial_position_accepted
  start-Inv position ok = record {
    ring = record {
      ordered = omega arith;
      bounded = ground arith;
      slots = λ i lt. start-SlotInv position i room lt;
    };
    locals = λ i. tt;
    writers = λ i j x e f. cc;
    readers = λ i j x e f. cc;
  }
    where
      room : position + v.slot_count ≤ maximum_position + 1
      room = ground (arith, g.encodable, slot_count_pos g)

  pub Reach-Inv :
      (position : ℕ) {s : System}
      → initial_position_accepted v position ≡ true
      → Reach v position s
      → Inv v s
  Reach-Inv position ok here = start-Inv position ok
  Reach-Inv position ok (next r st) = Step-Inv st (Reach-Inv position ok r)
