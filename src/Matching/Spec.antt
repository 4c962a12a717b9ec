-- ===== src/Matching/Spec.antt =====
-- What a matching engine promises: for each key, the values of each kind that wait, in the order in
-- which they came, and an insertion that takes the oldest one of the other kind.
use lci.Base.{ℕ, ◌≡◌, ◌≢◌, ◌&&◌, List, [], ◌∷◌, ◌++◌, if◌then◌else◌, ◌==◌}
use lci.Matching.{EntryType, opposite, same_type}

abbrev pub Pending : Type 0
Pending = ℕ → EntryType → List ℕ

unfoldable pub assign : Pending → ℕ → EntryType → List ℕ → Pending
unfolding same_type
assign p key t xs k u = if (k == key) && same_type u t then xs else p k u

-- The result 0 is the null value: nothing matched, and the value waits.
unfoldable pub match_with : List ℕ → Pending → ℕ → ℕ → EntryType → ℕ × Pending
unfolding assign
match_with [] p key v t = (0, assign p key t (p key t ++ (v ∷ [])))
match_with (w ∷ ws) p key v t = (w, assign p key (opposite t) ws)

unfoldable pub match_entry : Pending → ℕ → ℕ → EntryType → ℕ × Pending
unfolding match_with opposite
match_entry p key v t = match_with (p key (opposite t)) p key v t

-- One call of `insert`.
pub record Arrival : Type 0 where
  pub key : ℕ
  pub value : ℕ
  pub type : EntryType

-- The results of a sequence of calls.
unfoldable pub matches : Pending → List Arrival → List ℕ
unfolding match_entry
matches p [] = []
matches p (a ∷ rest) = let done = match_entry p a.key a.value a.type in done.0 ∷ matches done.1 rest

-- An implementation of `matching_engine_impl_t::insert`, with what it promises.
pub record Engine : Type 1 where
  pub State : Type 0
  pub insert : State → ℕ → ℕ → EntryType → ℕ × State
  pub pending : State → Pending
  pub IsValid : State → Type 0
  pub insert-IsValid :
      (s : State) (key v : ℕ) (t : EntryType) → IsValid s → v ≢ 0 → IsValid (insert s key v t).1
  pub insert_result :
      (s : State) (key v : ℕ) (t : EntryType)
      → IsValid s
      → v ≢ 0
      → (insert s key v t).0 ≡ (match_entry (pending s) key v t).0
  pub insert_pending :
      (s : State) (key v : ℕ) (t : EntryType)
      → IsValid s
      → v ≢ 0
      → (k : ℕ) (u : EntryType)
      → pending (insert s key v t).1 k u ≡ (match_entry (pending s) key v t).1 k u

-- No arrival inserts the null value.
abbrev pub AllReal : List Arrival → Type 0
AllReal [] = ◌≡◌ {A = ℕ} 0 0
AllReal (a ∷ rest) = (a.value ≢ 0) × AllReal rest

unfoldable pub run : (e : Engine) → e.State → List Arrival → List ℕ
run e s [] = []
run e s (a ∷ rest) = let done = e.insert s a.key a.value a.type in done.0 ∷ run e done.1 rest
