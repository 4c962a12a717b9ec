-- ===== src/ShmRing/Tests.antt =====
-- The theorems of the ring at a ring of two slots and at reachable states of it.
use lci.Base.{
  ℕ, ◌+◌, ◌-◌, ◌*◌, ◌^◌, ◌≤◌, ◌<◌, ◌≡◌, refl, ◌≢◌, ◌⊎◌, true, false, none, some, [], ◌∷◌, arith,
  update,
}
use lci.Base.Int.{ℤ}
use mathlib.Core.Logic.{◌↔◌}
use lci.ShmRing.{
  Ring, View, maximum_position, initialize_at, initial_position_accepted, slot_index, required_size,
  is_consistent_empty, payload_capacity, encode_sequence,
}
use lci.ShmRing.Machine
use lci.ShmRing.Machine.{Request, RecvSlot, Pc, Outcome}
use lci.ShmRing.System.{
  System, pick, Reach, here, next, sends, polls, advances, idle_rests, BufferHolds,
}
use lci.ShmRing.Invariant.{IsGeometry, word, word_at, writes, reads, Reach-Inv}
use lci.ShmRing.Safety
use lci.ShmRing.Delivery
use lci.ShmRing.Delivery.{advance, now, later}
use lci.ShmRing.Solo
use lci.ShmRing.Fresh
use lci.ShmRing.Geometry

abbrev small : View
small = record {
  slot_count = 2;
  slot_size = 64;
  producer_cas_attempts = 4;
  consumer_cas_attempts = 1;
}

small-IsGeometry : IsGeometry small 1
unfolding payload_capacity
small-IsGeometry = record { power = refl; encodable = omega arith; payload_fits = omega arith }

abbrev hello : Request
hello = record {
  source_global_rank = ℤ.pos 3;
  buffer = some (104 ∷ 105 ∷ []);
  size = 2;
  imm_data = 7;
}

hello-holds : BufferHolds hello
hello-holds bytes e = ground arith

small_start : initial_position_accepted small 0 ≡ true
unfolding initial_position_accepted
small_start = refl

none_there : word_at small (initialize_at small 0) 0 ≢ 1
unfolding initialize_at slot_index encode_sequence
none_there = omega arith

-- Thread 0 sends, until its slot is filled.
step_on : (s : System) → Reach small 0 s → (i : ℕ) → (t : System) × Reach small 0 t
step_on s r i = (advance small s i false, next r (pick i (advances false (s.pc i))))

run_on : ℕ → (i : ℕ) → (t : System) × Reach small 0 t → (t : System) × Reach small 0 t
unfolding step_on
run_on ℕ.zero i s = s
run_on (ℕ.suc n) i s = run_on n i (step_on s.0 s.1 i)

abbrev sending : (t : System) × Reach small 0 t
sending = (_, next here (pick 0 (sends hello hello-holds idle_rests)))

abbrev filled_run : (t : System) × Reach small 0 t
filled_run = run_on 4 0 sending

filled_pc : filled_run.0.pc 0 ≡ Machine.filled hello 0
unfolding run_on Machine.step Machine.post_send initialize_at
filled_pc = refl

-- Thread 0 publishes, then thread 1 polls and holds a view.
published_run : (t : System) × Reach small 0 t
published_run = run_on 1 0 filled_run

polling_run : (t : System) × Reach small 0 t
unfolding published_run run_on Machine.step Machine.post_send initialize_at
polling_run = (_, next published_run.1 (pick 1 (polls idle_rests)))

held_run : (t : System) × Reach small 0 t
unfolding polling_run
held_run = run_on 4 1 polling_run

abbrev hello_view : RecvSlot
hello_view = record {
  source_global_rank = ℤ.pos 3;
  imm_data = 7;
  payload = 104 ∷ 105 ∷ [];
  size = 2;
}

held_pc : held_run.0.pc 1 ≡ Machine.holding 0 hello_view
unfolding held_run run_on Machine.step Machine.poll Machine.post_send initialize_at
held_pc = refl

never_corrupted_example :
    (held_run.0.pc 1 ≢ Machine.recv_finished Machine.corrupted)
    × ((req : Request) → held_run.0.pc 1 ≢ Machine.send_finished req Machine.corrupted)
never_corrupted_example = Safety.never_corrupted small-IsGeometry 0 small_start held_run.1 1

abbrev nobody : Request
nobody = record { source_global_rank = ℤ.negsuc 0; buffer = none; size = 0; imm_data = 0 }

nobody-holds : BufferHolds nobody
nobody-holds bytes e = ground arith

refused_run : (t : System) × Reach small 0 t
refused_run = (_, next here (pick 0 (sends nobody nobody-holds idle_rests)))

refused_pc : refused_run.0.pc 0 ≡ Machine.send_finished nobody Machine.fatal
unfolding refused_run Machine.post_send initialize_at
refused_pc = refl

fatal_explained_example :
    (Machine.rejected small nobody ≡ true)
    ⊎ (maximum_position ≤ refused_run.0.ring.producer_position)
fatal_explained_example =
    Safety.fatal_explained small-IsGeometry 0 small_start refused_run.1 0 nobody refused_pc

slots_exclusive_example :
    (writes (held_run.0.pc 0) ≡ some 2 → writes (held_run.0.pc 1) ≡ some 0 → ◌≡◌ {A = ℕ} 0 1)
    × (reads (held_run.0.pc 0) ≡ some 2 → reads (held_run.0.pc 1) ≡ some 0 → ◌≡◌ {A = ℕ} 0 1)
    × (writes (held_run.0.pc 0) ≡ some 2 → reads (held_run.0.pc 1) ≡ some 0 → ⊥)
unfolding slot_index
slots_exclusive_example =
    Safety.slots_exclusive small-IsGeometry 0 small_start held_run.1 0 1 2 0 refl

holding-message_example :
    (hello_view ≡ Machine.message (held_run.0.sent 0))
    × (hello_view ≡ Machine.view_slot (held_run.0.ring.slot (slot_index small 0)))
    × (0 < held_run.0.ring.consumer_position)
holding-message_example =
    Safety.holding-message small-IsGeometry 0 small_start held_run.1 1 0 hello_view held_pc

-- Thread 1 polls while thread 0 has just published.
abbrev publishing : System
publishing = advance small filled_run.0 0 false

abbrev step1 : (s : System) → System
step1 s = advance small s 1 false

abbrev polled : System
polled = record publishing { pc = update publishing.pc 1 (Machine.poll small) }

poll-Steps : Delivery.Steps small publishing (step1 (step1 (step1 (step1 polled))))
unfolding run_on
poll-Steps =
    later
      (later
        (later (later (later now (pick 1 (polls idle_rests))) (pick 1 (advances false _)))
          (pick 1 (advances false _)))
        (pick 1 (advances false _)))
      (pick 1 (advances false _))

delivered_example : hello_view ≡ Machine.message hello
unfolding run_on Machine.step Machine.poll Machine.post_send initialize_at
delivered_example =
    Delivery.delivered small-IsGeometry 0 0 1 0 hello hello_view false small_start filled_run.1
      filled_pc poll-Steps refl

required_size-accepts_example :
    (required_size 64 2 64 ≡ 2 * 64 + 2 * 64)
    × (2 * 64 + 2 * 64 ≤ 2 ^ 64 - 1)
    × ((k : ℕ) × IsGeometry small k)
unfolding required_size
required_size-accepts_example = Geometry.required_size-accepts 64 small (omega arith) (omega arith)

-- A ring whose slots still show the sizes of earlier messages.
abbrev stale_sizes : Ring
stale_sizes = record (initialize_at small 0) {
  slot = λ i. record ((initialize_at small 0).slot i) { payload_size = 9 };
}

is_consistent_empty_exact_example :
    ((is_consistent_empty small stale_sizes ≡ true) ↔ (
      (stale_sizes.producer_position ≡ 0)
      × (stale_sizes.consumer_position ≡ 0)
      × ((i : ℕ) → i < 2 → word stale_sizes i ≡ word (initialize_at small 0) i)))
    × (is_consistent_empty small (initialize_at small 0) ≡ true)
is_consistent_empty_exact_example = Fresh.is_consistent_empty_exact small-IsGeometry stale_sizes

-- Two sends fill the ring.
full_run : (t : System) × Reach small 0 t
unfolding published_run run_on Machine.step Machine.post_send initialize_at
full_run = run_on 5 2 (_, next published_run.1 (pick 2 (sends hello hello-holds idle_rests)))

full_word :
    (full_run.0.ring.producer_position < maximum_position)
    × (word_at small full_run.0.ring full_run.0.ring.producer_position
        ≢ full_run.0.ring.producer_position * 2)
unfolding full_run run_on Machine.step Machine.post_send initialize_at slot_index encode_sequence
full_word = (omega arith, omega arith)

tail_word_full :
    (word_at small full_run.0.ring full_run.0.ring.consumer_position
      ≡ full_run.0.ring.consumer_position * 2 + 1)
unfolding full_run run_on Machine.step Machine.post_send initialize_at slot_index encode_sequence
tail_word_full = refl

solo-poll_example : Solo.solo 4 small (full_run.0.ring, Machine.poll small) ≡ (
  record full_run.0.ring { consumer_position = full_run.0.ring.consumer_position + 1 },
  Machine.holding full_run.0.ring.consumer_position
      (Machine.message (full_run.0.sent full_run.0.ring.consumer_position)),
)
solo-poll_example =
    Solo.solo-poll small-IsGeometry (Reach-Inv small-IsGeometry 0 small_start full_run.1).ring 0
      refl tail_word_full
