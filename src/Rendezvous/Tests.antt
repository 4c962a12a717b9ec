-- ===== src/Rendezvous/Tests.antt =====
-- The split of a message of ten bytes into puts of at most four.
use lci.Base.{◌-◌, ◌^◌, ◌≡◌, refl, true, arith, length}
use lci.Base.Int.{pos}
use lci.Rendezvous.{chunks, signal_count}
use lci.Rendezvous.Chunks
use lci.Rendezvous.Chunks.{IsTiling}

chunks-IsTiling_example :
    IsTiling true 10 4 0 (chunks true 10 4) × (signal_count 10 4 ≡ pos (length (chunks true 10 4)))
chunks-IsTiling_example = Chunks.chunks-IsTiling true 10 4 (omega arith) (omega arith) (omega arith)

three_signals : signal_count 10 4 ≡ pos 3
unfolding signal_count
three_signals = refl

-- A network without a limit, and a message of two bytes.
no_signal : (length (chunks true 2 (2 ^ 64 - 1)) ≡ 1) × (signal_count 2 (2 ^ 64 - 1) ≡ pos 0)
no_signal = Chunks.chunks_unsignalled true 2 (2 ^ 64 - 1) (omega arith) (omega arith) (omega arith)
