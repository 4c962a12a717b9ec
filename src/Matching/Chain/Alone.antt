-- ===== src/Matching/Chain/Alone.antt =====
-- What a chain's queues hold for a key, and that a key has at most one queue that is not empty.
use mathlib.Core.List.{append-nil, append_assoc}
use lci.Base.{
  ℕ, zero, suc, ◌≡◌, refl, ◌≢◌, sym, ap, ◌∙◌, false, ◌&&◌, some, List, [], ◌∷◌, ◌++◌, if◌then◌else◌,
  ◌==◌, get_elem?, arith,
}
use lci.Matching.{EntryType, same_type}
use lci.Matching.SlotQueue.{Queue, pending_values, IsConsistent}
use lci.Matching.Chain.{Chain, queue_at, put_queue}

unfoldable pub flat : Chain → List Queue
flat [] = []
flat (bucket ∷ rest) = bucket ++ flat rest

-- What one queue, and what a list of them, holds for a key and a type.
unfoldable pub one : Queue → ℕ → EntryType → List ℕ
unfolding same_type
one q k u = if (q.key == k) && same_type q.type u then pending_values q else []

unfoldable pub waiting : List Queue → ℕ → EntryType → List ℕ
waiting [] k u = []
waiting (q ∷ qs) k u = one q k u ++ waiting qs k u

abbrev pub NoKey : ℕ → List Queue → Type 0
NoKey k [] = ◌≡◌ {A = ℕ} 0 0
NoKey k (q ∷ qs) = (q.is_empty ≡ false → q.key ≢ k) × NoKey k qs

abbrev pub AllAlone : List Queue → Type 0
AllAlone [] = ◌≡◌ {A = ℕ} 0 0
AllAlone (q ∷ qs) = (IsConsistent q × (q.is_empty ≡ false → NoKey q.key qs)) × AllAlone qs

pub waiting-append :
    (xs ys : List Queue) (k : ℕ) (u : EntryType)
    → waiting (xs ++ ys) k u ≡ waiting xs k u ++ waiting ys k u
unfolding waiting
waiting-append [] ys k u = refl
waiting-append (x ∷ xs) ys k u =
    ap (λ r. one x k u ++ r) (waiting-append xs ys k u)
    ∙ sym (append_assoc (one x k u) (waiting xs k u) (waiting ys k u))

pub one_other :
    (q : Queue) (k : ℕ) (u : EntryType) → (q.is_empty ≡ false → q.key ≢ k) → one q k u ≡ []
unfolding one pending_values
one_other q k u h = ground arith

pub NoKey-waiting : (qs : List Queue) (k : ℕ) (u : EntryType) → NoKey k qs → waiting qs k u ≡ []
unfolding waiting
NoKey-waiting [] k u h = refl
NoKey-waiting (q ∷ qs) k u h = rw (one_other q k u h.0, NoKey-waiting qs k u h.1) refl

pub NoKey-append : (k : ℕ) (xs ys : List Queue) → NoKey k xs → NoKey k ys → NoKey k (xs ++ ys)
NoKey-append k [] ys hx hy = hy
NoKey-append k (x ∷ xs) ys hx hy = (hx.0, NoKey-append k xs ys hx.1 hy)

pub NoKey-split : (k : ℕ) (xs ys : List Queue) → NoKey k (xs ++ ys) → NoKey k xs × NoKey k ys
NoKey-split k [] ys h = (refl, h)
NoKey-split k (x ∷ xs) ys h = let rest = NoKey-split k xs ys h.1 in ((h.0, rest.0), rest.1)

-- A tail that holds no other key keeps the queues alone.
pub AllAlone-tail :
    (xs ys zs : List Queue)
    → AllAlone (xs ++ ys)
    → AllAlone zs
    → ((k : ℕ) → NoKey k ys → NoKey k zs)
    → AllAlone (xs ++ zs)
AllAlone-tail [] ys zs h hz keys = hz
AllAlone-tail (x ∷ xs) ys zs h hz keys = (
  (
    h.0.0,
    λ live.
        let split = NoKey-split x.key xs ys (h.0.1 live) in
        NoKey-append x.key xs zs split.0 (keys x.key split.1),
  ),
  AllAlone-tail xs ys zs h.1 hz keys,
)

-- The one queue of its key.
pub AllAlone-split :
    (xs : List Queue) (q : Queue) (ys : List Queue)
    → AllAlone (xs ++ (q ∷ ys))
    → q.is_empty ≡ false
    → NoKey q.key xs × NoKey q.key ys × IsConsistent q
AllAlone-split [] q ys h live = (refl, h.0.1 live, h.0.0)
AllAlone-split (x ∷ xs) q ys h live =
    let rest = AllAlone-split xs q ys h.1 live in
    (
      (λ xlive e. (NoKey-split x.key xs (q ∷ ys) (h.0.1 xlive)).1.0 live (sym e), rest.0),
      rest.1,
      rest.2,
    )

pub AllAlone-right : (xs ys : List Queue) → AllAlone (xs ++ ys) → AllAlone ys
AllAlone-right [] ys h = h
AllAlone-right (x ∷ xs) ys h = AllAlone-right xs ys h.1

-- A queue may be replaced by one whose key no other queue has.
pub AllAlone-replace :
    (xs : List Queue) (q q' : Queue) (ys : List Queue)
    → AllAlone (xs ++ (q ∷ ys))
    → IsConsistent q'
    → (q'.is_empty ≡ false → NoKey q'.key xs × NoKey q'.key ys)
    → AllAlone (xs ++ (q' ∷ ys))
AllAlone-replace [] q q' ys h ok keys = ((ok, λ live. (keys live).1), h.1)
AllAlone-replace (x ∷ xs) q q' ys h ok keys = (
  (
    h.0.0,
    λ xlive.
        let split = NoKey-split x.key xs (q ∷ ys) (h.0.1 xlive) in
        NoKey-append x.key xs (q' ∷ ys) split.0
          (λ live e. (keys live).0.0 xlive (sym e), split.1.1),
  ),
  AllAlone-replace xs q q' ys h.1 ok (λ live. ((keys live).0.1, (keys live).1)),
)

-- The queues before and behind the one that a pointer names, and what a write through it leaves.
pub record Split (chain : Chain) (b j : ℕ) (q : Queue) : Type 0 where
  pub before : List Queue
  pub behind : List Queue
  pub whole : flat chain ≡ before ++ (q ∷ behind)
  pub written : (q' : Queue) → flat (put_queue chain b j q') ≡ before ++ (q' ∷ behind)

bucket-Split :
    (bucket : List Queue) (rest : Chain) (j : ℕ) (q : Queue)
    → get_elem? bucket j ≡ some q
    → Split (bucket ∷ rest) 0 j q
unfolding put_queue flat
bucket-Split [] rest j q e = absurd (ground arith)
bucket-Split (x ∷ xs) rest zero q e = record {
  before = [];
  behind = xs ++ flat rest;
  whole = ap (λ r. r ∷ (xs ++ flat rest)) (ground arith);
  written = λ q'. refl;
}
bucket-Split (x ∷ xs) rest (suc j) q e =
    let inner = bucket-Split xs rest j q e in
    record {
      before = x ∷ inner.before;
      behind = inner.behind;
      whole = ap (λ r. x ∷ r) inner.whole;
      written = λ q'. ap (λ r. x ∷ r) (inner.written q');
    }

pub queue_at-Split :
    (chain : Chain) (b j : ℕ) (q : Queue) → queue_at chain b j ≡ some q → Split chain b j q
unfolding queue_at put_queue flat
queue_at-Split [] b j q e = absurd (ground arith)
queue_at-Split (bucket ∷ rest) zero j q e = bucket-Split bucket rest j q e
queue_at-Split (bucket ∷ rest) (suc b) j q e =
    let inner = queue_at-Split rest b j q e in
    record {
      before = bucket ++ inner.before;
      behind = inner.behind;
      whole =
          ap (λ r. bucket ++ r) inner.whole
          ∙ sym (append_assoc bucket inner.before (q ∷ inner.behind));
      written = λ q'.
          ap (λ r. bucket ++ r) (inner.written q')
          ∙ sym (append_assoc bucket inner.before (q' ∷ inner.behind));
    }

pub flat-append :
    (chain : Chain) (bucket : List Queue) → flat (chain ++ (bucket ∷ [])) ≡ flat chain ++ bucket
unfolding flat
flat-append [] bucket = append-nil bucket
flat-append (x ∷ chain) bucket =
    ap (λ r. x ++ r) (flat-append chain bucket) ∙ sym (append_assoc x (flat chain) bucket)
