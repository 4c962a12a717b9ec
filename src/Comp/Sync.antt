-- ===== src/Comp/Sync.antt =====
-- `sync_t` of src/comp/sync.hpp: it gathers as many statuses as its threshold, then gives them out.
-- Each call is taken as one step, and the counters do not reach the end of their word.
use lci.Base.{
  ℕ, ◌+◌, ◌-◌, List, [], ◌∷◌, Bool, true, false, ◌&&◌, Option, none, some, if◌then◌else◌, ltb, ◌==◌,
  set, replicate,
}
pub mod Batch

pub record Synchronizer {ℓ} (A : Type ℓ) : Type ℓ where
  pub m_top : ℕ
  pub m_top2 : ℕ
  pub m_tail : ℕ
  pub threshold : ℕ
  pub statuses : List A

module _ {ℓ} {A : Type ℓ} where
  -- The constructor, which fills the statuses with the default one.
  abbrev pub alloc : A → ℕ → Synchronizer A
  alloc default threshold = record {
    m_top = 0;
    m_top2 = 0;
    m_tail = 0;
    threshold = threshold;
    statuses = replicate threshold default;
  }

  -- The locals of `signal`: the counters are read only with a threshold above one.
  abbrev pub position : Synchronizer A → ℕ
  position s = if ltb 1 s.threshold then s.m_top else 0

  abbrev pub tail_of : Synchronizer A → ℕ
  tail_of s = if ltb 1 s.threshold then s.m_tail else 0

  -- A failed assertion is `none`.
  unfoldable pub signal : A → Synchronizer A → Option (Synchronizer A)
  signal status s =
      let pos = position s in
      let tail = tail_of s in
      if ltb pos (tail + s.threshold)
      then some (record s {
        m_top = if ltb 1 s.threshold then s.m_top + 1 else s.m_top;
        m_top2 = s.m_top2 + 1;
        statuses = set s.statuses (pos - tail) status;
      })
      else none

  -- `succeeds` is whether the weak compare-exchange does.
  unfoldable pub test : Bool → Synchronizer A → Synchronizer A × Option (List A)
  test succeeds s =
      if (s.m_top2 == s.m_tail + s.threshold) && succeeds
      then (record s { m_tail = s.m_top2 }, some s.statuses)
      else (s, none)

  unfoldable pub signal_all : List A → Synchronizer A → Option (Synchronizer A)
  signal_all [] s = some s
  signal_all (status ∷ rest) s = elim (signal status s) [
    | none ↦ none
    | some s' ↦ signal_all rest s'
  ]
