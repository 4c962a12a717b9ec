-- ===== src/Matching/Chain/Search.antt =====
-- What the search of `insert` finds, and that the buckets it frees hold nothing.
use lci.Base.{
  ℕ, suc, ◌+◌, ◌≡◌, refl, sym, ap, ◌∙◌, Bool, true, false, ◌&&◌, ◌||◌, not, ltb, Option, none, some,
  List, [], ◌∷◌, ◌++◌, ◌==◌, get_elem?, arith, Bool-cases, inl, inr, ==→eq,
}
use lci.Matching.{EntryType, same_type}
use lci.Matching.SlotQueue.{Queue}
use lci.Matching.Chain.{
  Chain, Position, Found, queue_at, scan_bucket, search_chain, after_bucket, first_or, is_null,
  BucketScan, ChainSearch,
}
use lci.Matching.Chain.Alone.{
  flat, waiting, NoKey, AllAlone, NoKey-append, waiting-append, AllAlone-tail, AllAlone-right,
  NoKey-split, NoKey-waiting,
}

abbrev pub AllEmpty : List Queue → Type 0
AllEmpty [] = ◌≡◌ {A = ℕ} 0 0
AllEmpty (q ∷ qs) = (q.is_empty ≡ true) × AllEmpty qs

-- What the pointers of a search name.
abbrev pub FoundAt : Chain → ℕ → EntryType → Found → Type 0
FoundAt chain key wanted (Found.target p) =
    (q : Queue) × (queue_at chain p.bucket p.offset ≡ some q)
    × (q.is_empty ≡ false)
    × (q.key ≡ key)
    × (same_type q.type wanted ≡ true)
FoundAt chain key wanted (Found.same p) =
    (q : Queue) × (queue_at chain p.bucket p.offset ≡ some q)
    × (q.is_empty ≡ false)
    × (q.key ≡ key)
    × (same_type q.type wanted ≡ false)
FoundAt chain key wanted Found.nowhere = ◌≡◌ {A = ℕ} 0 0

abbrev pub EmptyAt : Chain → Option Position → Type 0
EmptyAt chain none = ◌≡◌ {A = ℕ} 0 0
EmptyAt chain (some p) =
    (q : Queue) × (queue_at chain p.bucket p.offset ≡ some q) × (q.is_empty ≡ true)

module _ (key : ℕ) (wanted : EntryType) where
  -- The queues of a bucket from offset `j` stand in the chain.
  abbrev SitsFrom : Chain → ℕ → ℕ → List Queue → Type 0
  SitsFrom chain b j [] = ◌≡◌ {A = ℕ} 0 0
  SitsFrom chain b j (q ∷ qs) = (queue_at chain b j ≡ some q) × SitsFrom chain b (suc j) qs

  first_or-EmptyAt :
      (chain : Chain) (b j : ℕ) (q : Queue) (first : Option Position)
      → queue_at chain b j ≡ some q
      → q.is_empty ≡ true
      → EmptyAt chain first
      → EmptyAt chain (first_or first (record { bucket = b; offset = j }))
  unfolding first_or
  first_or-EmptyAt chain b j q none sits empty at = (q, sits, empty)
  first_or-EmptyAt chain b j q (some p) sits empty at = at

  scan_pointers :
      (chain : Chain) (b j : ℕ) (qs : List Queue) (first : Option Position) (nonempty : Bool)
      → SitsFrom chain b j qs
      → EmptyAt chain first
      → FoundAt chain key wanted (scan_bucket key wanted b j qs first nonempty).found
        × EmptyAt chain (scan_bucket key wanted b j qs first nonempty).first_empty
  unfolding scan_bucket first_or
  scan_pointers chain b j [] first nonempty sits at = (refl, at)
  scan_pointers chain b j (q ∷ qs) first nonempty sits at = elim (Bool-cases q.is_empty) [
    | inl empty ↦ rw (empty) (
        scan_pointers chain b (suc j) qs (first_or first (record { bucket = b; offset = j }))
          (is_null first || nonempty) sits.1 (first_or-EmptyAt chain b j q first sits.0 empty at))
    | inr live ↦ elim (Bool-cases (q.key == key)) [
      | inl eq ↦ elim (Bool-cases (same_type q.type wanted)) [
        | inl target ↦ rw (live, eq, target) ((q, sits.0, live, ==→eq q.key key eq, target), at)
        | inr other ↦ rw (live, eq, other) ((q, sits.0, live, ==→eq q.key key eq, other), at)
      ]
      | inr ne ↦ rw (live, ne) (scan_pointers chain b (suc j) qs first true sits.1 at)
    ]
  ]

  -- A bucket in which nothing is found has no queue of the key; one that the scan leaves marked
  -- empty has only empty queues, none of them the first of the chain.
  scan_contents :
      (b j : ℕ) (qs : List Queue) (first : Option Position) (nonempty : Bool)
      → (scan_bucket key wanted b j qs first nonempty).found ≡ Found.nowhere
      → NoKey key qs
        × ((scan_bucket key wanted b j qs first nonempty).nonempty ≡ false
            → (nonempty ≡ false)
              × AllEmpty qs
              × ((scan_bucket key wanted b j qs first nonempty).first_empty ≡ first))
  unfolding scan_bucket first_or
  scan_contents b j [] first nonempty h = (refl, λ e. (e, refl, refl))
  scan_contents b j (q ∷ qs) none nonempty h = elim (Bool-cases q.is_empty) [
    | inl empty ↦
        ground (arith, scan_contents b (suc j) qs (some (record { bucket = b; offset = j })) true)
    | inr live ↦ ground (arith, scan_contents b (suc j) qs none true)
  ]
  scan_contents b j (q ∷ qs) (some p) nonempty h = elim (Bool-cases q.is_empty) [
    | inl empty ↦ ground (arith, scan_contents b (suc j) qs (some p) nonempty)
    | inr live ↦ ground (arith, scan_contents b (suc j) qs (some p) true)
  ]

  AllEmpty-NoKey : (k : ℕ) (qs : List Queue) → AllEmpty qs → NoKey k qs
  AllEmpty-NoKey k [] h = refl
  AllEmpty-NoKey k (q ∷ qs) h = (λ live e. absurd (ground arith), AllEmpty-NoKey k qs h.1)

  AllEmpty-waiting : (qs : List Queue) (k : ℕ) (u : EntryType) → AllEmpty qs → waiting qs k u ≡ []
  AllEmpty-waiting qs k u h = NoKey-waiting qs k u (AllEmpty-NoKey k qs h)

  -- What the search leaves of a chain: the same values, for the same keys.
  pub record IsKept (chain kept : Chain) : Type 0 where
    pub same_values : (k : ℕ) (u : EntryType) → waiting (flat kept) k u ≡ waiting (flat chain) k u
    pub same_keys : (k : ℕ) → NoKey k (flat chain) → NoKey k (flat kept)
    pub alone : AllAlone (flat chain) → AllAlone (flat kept)

  IsKept-refl : (chain : Chain) → IsKept chain chain
  IsKept-refl chain = record { same_values = λ k u. refl; same_keys = λ k h. h; alone = λ h. h }

  IsKept-freed :
      (bucket : List Queue) (rest kept : Chain)
      → AllEmpty bucket
      → IsKept rest kept
      → IsKept (bucket ∷ rest) kept
  unfolding flat
  IsKept-freed bucket rest kept empty inner = record {
    same_values = λ k u.
        inner.same_values k u
        ∙ sym (waiting-append bucket (flat rest) k u ∙ rw (AllEmpty-waiting bucket k u empty) refl);
    same_keys = λ k h. inner.same_keys k (NoKey-split k bucket (flat rest) h).1;
    alone = λ h. inner.alone (AllAlone-right bucket (flat rest) h);
  }

  IsKept-bucket :
      (bucket : List Queue) (rest kept : Chain)
      → IsKept rest kept
      → IsKept (bucket ∷ rest) (bucket ∷ kept)
  unfolding flat
  IsKept-bucket bucket rest kept inner = record {
    same_values = λ k u.
        waiting-append bucket (flat kept) k u
        ∙ ap (λ r. waiting bucket k u ++ r) (inner.same_values k u)
        ∙ sym (waiting-append bucket (flat rest) k u);
    same_keys = λ k h.
        let split = NoKey-split k bucket (flat rest) h in
        NoKey-append k bucket (flat kept) split.0 (inner.same_keys k split.1);
    alone = λ h.
        AllAlone-tail bucket (flat rest) (flat kept) h
          (inner.alone (AllAlone-right bucket (flat rest) h)) inner.same_keys;
  }

  -- A search that kept the chain's values, and found no queue only where there is none.
  pub record IsSound (chain : Chain) (r : ChainSearch) : Type 0 where
    pub kept : IsKept chain r.chain
    pub none_left : r.found ≡ Found.nowhere → NoKey key (flat r.chain)

  after_bucket-IsSound :
      (s : BucketScan) (b : ℕ) (bucket : List Queue) (rest : Chain) (freed kept : ChainSearch)
      (found : Found)
      → (found ≡ Found.nowhere → NoKey key bucket × (s.nonempty ≡ false → AllEmpty bucket))
      → IsSound rest freed
      → IsSound rest kept
      → IsSound (bucket ∷ rest) (after_bucket s b bucket rest freed kept found)
  unfolding after_bucket flat
  after_bucket-IsSound s b bucket rest freed kept (Found.target p) h hf hk = record {
    kept = IsKept-refl (bucket ∷ rest);
    none_left = λ e. absurd (ground arith);
  }
  after_bucket-IsSound s b bucket rest freed kept (Found.same p) h hf hk = record {
    kept = IsKept-refl (bucket ∷ rest);
    none_left = λ e. absurd (ground arith);
  }
  after_bucket-IsSound s b bucket rest freed kept Found.nowhere h hf hk =
      elim (Bool-cases (not s.nonempty && ltb 0 b)) [
        | inl free ↦ rw (free) (record {
          kept = IsKept-freed bucket rest freed.chain ((h refl).1 (ground arith)) hf.kept;
          none_left = hf.none_left;
        })
        | inr keep ↦ rw (keep) (record {
          kept = IsKept-bucket bucket rest kept.chain hk.kept;
          none_left = λ e. NoKey-append key bucket (flat kept.chain) (h refl).0 (hk.none_left e);
        })
      ]

  pub search_chain-IsSound :
      (b : ℕ) (chain : Chain) (first : Option Position)
      → IsSound chain (search_chain key wanted b chain first)
  unfolding search_chain flat
  search_chain-IsSound b [] first = record { kept = IsKept-refl []; none_left = λ e. refl }
  search_chain-IsSound b (bucket ∷ rest) first =
      let s = scan_bucket key wanted b 0 bucket first false in
      after_bucket-IsSound s b bucket rest (search_chain key wanted b rest s.first_empty)
        (search_chain key wanted (suc b) rest s.first_empty) s.found
        (λ e.
          let scanned = scan_contents b 0 bucket first false e in
          (scanned.0, λ empty. (scanned.1 empty).1))
        (search_chain-IsSound b rest s.first_empty)
        (search_chain-IsSound (suc b) rest s.first_empty)

  abbrev SitsChain : Chain → ℕ → Chain → Type 0
  SitsChain chain b [] = ◌≡◌ {A = ℕ} 0 0
  SitsChain chain b (bucket ∷ rest) = SitsFrom chain b 0 bucket × SitsChain chain (suc b) rest

  Points : Chain → ℕ → ChainSearch → Type 0
  Points chain b r =
      SitsChain chain b r.chain → FoundAt chain key wanted r.found × EmptyAt chain r.first_empty

  after_bucket_pointers :
      (chain : Chain) (s : BucketScan) (b : ℕ) (bucket : List Queue) (rest : Chain)
      (freed kept : ChainSearch) (found : Found) (first : Option Position)
      → (SitsFrom chain b 0 bucket → FoundAt chain key wanted found × EmptyAt chain s.first_empty)
      → (found ≡ Found.nowhere → s.nonempty ≡ false → s.first_empty ≡ first)
      → EmptyAt chain first
      → (EmptyAt chain s.first_empty → Points chain b freed)
      → (EmptyAt chain s.first_empty → Points chain (suc b) kept)
      → Points chain b (after_bucket s b bucket rest freed kept found)
  unfolding after_bucket Points
  after_bucket_pointers chain s b bucket rest freed kept (Found.target p) first hs he at hf hk =
      λ sits. hs sits.0
  after_bucket_pointers chain s b bucket rest freed kept (Found.same p) first hs he at hf hk =
      λ sits. hs sits.0
  after_bucket_pointers chain s b bucket rest freed kept Found.nowhere first hs he at hf hk =
      elim (Bool-cases (not s.nonempty && ltb 0 b)) [
        | inl free ↦ rw (free) (hf (rw (he refl (ground arith)) at))
        | inr keep ↦ rw (keep) (λ sits. hk (hs sits.0).1 sits.1)
      ]

  search_chain-Points :
      (chain : Chain) (b : ℕ) (rest : Chain) (first : Option Position)
      → EmptyAt chain first
      → Points chain b (search_chain key wanted b rest first)
  unfolding search_chain Points
  search_chain-Points chain b [] first at = λ sits. (refl, at)
  search_chain-Points chain b (bucket ∷ rest) first at =
      let s = scan_bucket key wanted b 0 bucket first false in
      after_bucket_pointers chain s b bucket rest (search_chain key wanted b rest s.first_empty)
        (search_chain key wanted (suc b) rest s.first_empty) s.found first
        (λ sits. scan_pointers chain b 0 bucket first false sits at)
        (λ e empty. ((scan_contents b 0 bucket first false e).1 empty).2) at
        (λ at'. search_chain-Points chain b rest s.first_empty at')
        (λ at'. search_chain-Points chain (suc b) rest s.first_empty at')

  bucket-Sits :
      (chain : Chain) (b j : ℕ) (qs : List Queue)
      → ((i : ℕ) → queue_at chain b (j + i) ≡ get_elem? qs i)
      → SitsFrom chain b j qs
  bucket-Sits chain b j [] h = refl
  bucket-Sits chain b j (q ∷ qs) h = (
    ap (λ n. queue_at chain b n) {x = j} {y = j + 0} (omega arith) ∙ h 0,
    bucket-Sits chain b (suc j) qs (λ i.
        ap (λ n. queue_at chain b n) {x = suc j + i} {y = j + suc i} (omega arith) ∙ h (suc i)),
  )

  chain-Sits :
      (chain : Chain) (b : ℕ) (rest : Chain)
      → ((n i : ℕ) → queue_at chain (b + n) i ≡ queue_at rest n i)
      → SitsChain chain b rest
  unfolding queue_at
  chain-Sits chain b [] h = refl
  chain-Sits chain b (bucket ∷ rest) h = (
    bucket-Sits chain b 0 bucket (λ i.
        ap (λ n. queue_at chain n (0 + i)) {x = b} {y = b + 0} (omega arith)
        ∙ ap (λ j. queue_at chain (b + 0) j) {x = 0 + i} {y = i} (omega arith)
        ∙ h 0 i),
    chain-Sits chain (suc b) rest (λ n i.
        ap (λ m. queue_at chain m i) {x = suc b + n} {y = b + suc n} (omega arith) ∙ h (suc n) i),
  )

  -- The pointers of a search name queues of the chain that it left.
  pub search_pointers :
      (chain : Chain)
      → let r = search_chain key wanted 0 chain none in
        FoundAt r.chain key wanted r.found × EmptyAt r.chain r.first_empty
  unfolding Points
  search_pointers chain =
      let r = search_chain key wanted 0 chain none in
      search_chain-Points r.chain 0 chain none refl (
        chain-Sits r.chain 0 r.chain
          (λ n i. ap (λ m. queue_at r.chain m i) {x = 0 + n} {y = n} (omega arith)))
