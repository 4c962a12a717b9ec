-- ===== src/Matching/Insert.antt =====
-- `insert` on a bucket chain keeps the promise of a matching engine.
use mathlib.Core.List.{append-nil}
use lci.Base.{
  ℕ, zero, suc, ◌+◌, ◌*◌, ◌≡◌, refl, ◌≢◌, sym, ap, ◌∙◌, true, false, ◌&&◌, Option, none, some, List,
  [], ◌∷◌, ◌++◌, if◌then◌else◌, ◌==◌, set, arith, Bool-cases, inl, inr, List-cases, ==_refl, ==→eq,
}
use lci.Matching.{EntryType, opposite, same_type}
use lci.Matching.Spec.{Pending, match_entry, match_with, assign}
use lci.Matching.SlotQueue.{Queue, pending_values, IsConsistent, pop, push, setup}
use lci.Matching.SlotQueue.Fifo.{pop_lem, push_lem, setup_lem, IsPopped}
use lci.Matching.Chain.{
  Chain, Position, Found, ChainSearch, put_queue, search_chain, insert_chain, act, on_target,
  on_same, on_nowhere, grow, fresh_queue, fresh_bucket, last_nqueues,
}
use lci.Matching.Chain.Alone.{
  flat, one, one_other, waiting, NoKey, AllAlone, waiting-append, NoKey-waiting, NoKey-split,
  AllAlone-split, AllAlone-replace, AllAlone-tail, Split, queue_at-Split, flat-append,
}
use lci.Matching.Chain.Search.{FoundAt, EmptyAt, search_chain-IsSound, search_pointers}

pub same_type_refl : (t : EntryType) → same_type t t ≡ true
unfolding same_type
same_type_refl EntryType.send = refl
same_type_refl EntryType.recv = refl

pub same_type-eq : (t u : EntryType) → same_type t u ≡ true → t ≡ u
unfolding same_type
same_type-eq EntryType.send EntryType.send h = refl
same_type-eq EntryType.send EntryType.recv h = ground arith
same_type-eq EntryType.recv EntryType.send h = ground arith
same_type-eq EntryType.recv EntryType.recv h = refl

same_type_comm : (t u : EntryType) → same_type t u ≡ same_type u t
unfolding same_type
same_type_comm EntryType.send EntryType.send = refl
same_type_comm EntryType.send EntryType.recv = refl
same_type_comm EntryType.recv EntryType.send = refl
same_type_comm EntryType.recv EntryType.recv = refl

==_comm : (a b : ℕ) → (a == b) ≡ (b == a)
==_comm a b = ground arith

one_own : (q : Queue) → one q q.key q.type ≡ pending_values q
unfolding one
one_own q = rw (==_refl q.key, same_type_refl q.type) refl

one_cases :
    (q : Queue) (k : ℕ) (u : EntryType)
    → one q k u ≡ (if (k == q.key) && same_type u q.type then pending_values q else [])
unfolding one
one_cases q k u = rw (==_comm k q.key, same_type_comm u q.type) refl

-- A queue in place of another changes what waits for its own key and type only.
waiting_replaced :
    (before behind : List Queue) (q q' : Queue)
    → NoKey q'.key before
    → NoKey q'.key behind
    → ((k : ℕ) (u : EntryType) → (k == q'.key) && same_type u q'.type ≡ false → one q k u ≡ [])
    → (k : ℕ) (u : EntryType)
    → waiting (before ++ (q' ∷ behind)) k u ≡ (
        if (k == q'.key) && same_type u q'.type
        then pending_values q'
        else waiting (before ++ (q ∷ behind)) k u)
unfolding waiting
waiting_replaced before behind q q' hb ha others k u =
    elim (Bool-cases ((k == q'.key) && same_type u q'.type)) [
      | inl own ↦
          waiting-append before (q' ∷ behind) k u
          ∙ rw
              (
                own,
                NoKey-waiting before k u (at_key before own hb),
                NoKey-waiting behind k u (at_key behind own ha),
                one_cases q' k u,
                own,
              )
              (append-nil (pending_values q'))
      | inr other ↦
          rw
            (
              waiting-append before (q' ∷ behind) k u,
              waiting-append before (q ∷ behind) k u,
              other,
              others k u other,
              one_cases q' k u,
              other,
            )
            refl
    ]
  where
    at_key :
        (qs : List Queue)
        → (k == q'.key) && same_type u q'.type ≡ true
        → NoKey q'.key qs
        → NoKey k qs
    at_key qs own h = rw (==→eq k q'.key (ground arith)) h

-- What an insertion does to a chain that held `p`.
pub record IsInserted (p : Pending) (key v : ℕ) (t : EntryType) (out : ℕ × Chain) : Type 0 where
  pub result : out.0 ≡ (match_entry p key v t).0
  pub left : (k : ℕ) (u : EntryType) → waiting (flat out.1) k u ≡ (match_entry p key v t).1 k u
  pub alone : AllAlone (flat out.1)

one-opposite : (q : Queue) → one q q.key (opposite q.type) ≡ []
unfolding one
one-opposite q = rw (==_refl q.key, mismatch q.type) refl
  where
    mismatch : (t : EntryType) → same_type t (opposite t) ≡ false
    mismatch EntryType.send = unfold same_type in unfold opposite in refl
    mismatch EntryType.recv = unfold same_type in unfold opposite in refl

waiting_alone :
    (before behind : List Queue) (q : Queue) (u : EntryType)
    → NoKey q.key before
    → NoKey q.key behind
    → waiting (before ++ (q ∷ behind)) q.key u ≡ one q q.key u
unfolding waiting
waiting_alone before behind q u hb ha =
    waiting-append before (q ∷ behind) q.key u
    ∙ rw (NoKey-waiting before q.key u hb, NoKey-waiting behind q.key u ha)
        (append-nil (one q q.key u))

pending_filled : (q : Queue) → q.is_empty ≡ false → IsConsistent q → pending_values q ≢ []
unfolding pending_values
pending_filled q live ok e = (ok live).filled (ground arith)

module _ (chain : Chain) (b j : ℕ) (q : Queue) (split : Split chain b j q)
    (alone : AllAlone (flat chain)) where
  alone_split : AllAlone (split.before ++ (q ∷ split.behind))
  alone_split = rw (sym split.whole) alone

  -- A write of a queue through a pointer.
  written-AllAlone :
      (q' : Queue)
      → IsConsistent q'
      → NoKey q'.key split.before × NoKey q'.key split.behind
      → AllAlone (flat (put_queue chain b j q'))
  written-AllAlone q' ok keys =
      rw (split.written q')
        (AllAlone-replace split.before q q' split.behind alone_split ok (λ live. keys))

  written-waiting :
      (q' : Queue)
      → NoKey q'.key split.before × NoKey q'.key split.behind
      → ((k : ℕ) (u : EntryType) → (k == q'.key) && same_type u q'.type ≡ false → one q k u ≡ [])
      → (k : ℕ) (u : EntryType)
      → waiting (flat (put_queue chain b j q')) k u ≡ (
          if (k == q'.key) && same_type u q'.type
          then pending_values q'
          else waiting (flat chain) k u)
  written-waiting q' keys others k u =
      rw (split.written q', split.whole)
        (waiting_replaced split.before split.behind q q' keys.0 keys.1 others k u)

  module _ (live : q.is_empty ≡ false) where
    keys_free : NoKey q.key split.before × NoKey q.key split.behind × IsConsistent q
    keys_free = AllAlone-split split.before q split.behind alone_split live

    own_waiting : (u : EntryType) → waiting (flat chain) q.key u ≡ one q q.key u
    own_waiting u =
        ap (λ qs. waiting qs q.key u) split.whole
        ∙ waiting_alone split.before split.behind q u keys_free.0 keys_free.1

    -- A write of a queue with the key and type of the one that was there.
    rewritten-waiting :
        (q' : Queue)
        → q'.key ≡ q.key
        → q'.type ≡ q.type
        → (k : ℕ) (u : EntryType)
        → waiting (flat (put_queue chain b j q')) k u ≡ (
            if (k == q.key) && same_type u q.type
            then pending_values q'
            else waiting (flat chain) k u)
    rewritten-waiting q' ekey etype k u =
        rw (sym ekey, sym etype)
          (written-waiting q' (rw (ekey) (keys_free.0, keys_free.1))
            (λ k u other. one_cases q k u ∙ rw (sym ekey, sym etype, other) refl) k u)

    target_popped :
        (p : Pending) (v : ℕ) (t : EntryType)
        → ((k : ℕ) (u : EntryType) → waiting (flat chain) k u ≡ p k u)
        → q.type ≡ opposite t
        → (w : ℕ) (ws : List ℕ) → pending_values q ≡ w ∷ ws
        → IsInserted p q.key v t ((pop q).0, put_queue chain b j (pop q).1)
    unfolding match_entry match_with assign
    target_popped p v t held etype w ws e = record {
      result = rw (pending_there) popped.value;
      left = λ k u. rw (pending_there) (
          rewritten-waiting (pop q).1 popped.same_key popped.same_type k u
          ∙ rw (popped.rest, etype, held k u) refl);
      alone =
          written-AllAlone (pop q).1 popped.consistent
            (rw (popped.same_key) (keys_free.0, keys_free.1));
    }
      where
        popped : IsPopped q w ws (pop q)
        popped = pop_lem q w ws live keys_free.2 e

        pending_there : p q.key (opposite t) ≡ w ∷ ws
        pending_there =
            sym (held q.key (opposite t))
            ∙ ap (λ u. waiting (flat chain) q.key u) (sym etype)
            ∙ own_waiting q.type
            ∙ one_own q
            ∙ e

    same_pushed :
        (p : Pending) (v : ℕ)
        → v ≢ 0
        → ((k : ℕ) (u : EntryType) → waiting (flat chain) k u ≡ p k u)
        → IsInserted p q.key v q.type (0, put_queue chain b j (push q v))
    unfolding match_entry match_with assign
    same_pushed p v ne held = record {
      result = rw (nothing_there) refl;
      left = λ k u. rw (nothing_there) (
          rewritten-waiting (push q v) (unfold push in refl) (unfold push in refl) k u
          ∙ rw (pushed.0, sym (held q.key q.type), own_waiting q.type, one_own q, held k u) refl);
      alone = written-AllAlone (push q v) pushed.1 (unfold push in (keys_free.0, keys_free.1));
    }
      where
        pushed :
            (pending_values (push q v) ≡ pending_values q ++ (v ∷ [])) × IsConsistent (push q v)
        pushed = push_lem q v live keys_free.2 ne

        nothing_there : p q.key (opposite q.type) ≡ []
        nothing_there =
            sym (held q.key (opposite q.type)) ∙ own_waiting (opposite q.type) ∙ one-opposite q

  module _ (free : q.is_empty ≡ true) (key v : ℕ) (t : EntryType) (ne : v ≢ 0)
      (unused : NoKey key (flat chain)) where
    setup_placed :
        (p : Pending)
        → ((k : ℕ) (u : EntryType) → waiting (flat chain) k u ≡ p k u)
        → IsInserted p key v t (0, put_queue chain b j (setup fresh_queue key t v))
    unfolding match_entry match_with assign
    setup_placed p held = record {
      result = rw (nothing (opposite t)) refl;
      left = λ k u.
          rw (nothing (opposite t), nothing t)
            (written-waiting q' keys (λ k u other. one_other q k u (λ live. absurd (ground arith)))
                k u
              ∙ rw (fresh.0, held k u) (unfold setup in refl));
      alone = written-AllAlone q' fresh.1 keys;
    }
      where
        q' : Queue
        q' = setup fresh_queue key t v

        fresh : (pending_values q' ≡ v ∷ []) × IsConsistent q'
        fresh = setup_lem fresh_queue key v t ne

        nothing : (u : EntryType) → p key u ≡ []
        nothing u = sym (held key u) ∙ NoKey-waiting (flat chain) key u unused

        places : NoKey key split.before × NoKey key (q ∷ split.behind)
        places = NoKey-split key split.before (q ∷ split.behind) (rw (sym split.whole) unused)

        keys : NoKey q'.key split.before × NoKey q'.key split.behind
        keys = unfold setup in (places.0, places.1.1)

pub fresh_keys : (n k : ℕ) → NoKey k (fresh_bucket n)
fresh_keys zero k = refl
fresh_keys (suc n) k = (λ live e. ground arith, fresh_keys n k)

pub fresh_alone : (n : ℕ) → AllAlone (fresh_bucket n)
fresh_alone zero = refl
fresh_alone (suc n) = ((λ live. absurd (ground arith), λ live. fresh_keys n 0), fresh_alone n)

-- A new bucket behind the others, with its first queue set up.
module _ (chain : Chain) (alone : AllAlone (flat chain)) (key v : ℕ) (t : EntryType) (ne : v ≢ 0)
    (unused : NoKey key (flat chain)) where
  grown_flat :
      (n : ℕ) (q : Queue)
      → n ≡ last_nqueues chain * 2
      → flat (grow chain q) ≡ flat chain ++ (q ∷ fresh_bucket n)
  unfolding grow
  grown_flat n q e =
      rw
        (ap (λ m. set (fresh_bucket m) 0 q) {x = last_nqueues chain * 2 + 1} {y = suc n}
          (omega arith))
        (flat-append chain (q ∷ fresh_bucket n))

  grown_placed :
      (p : Pending)
      → ((k : ℕ) (u : EntryType) → waiting (flat chain) k u ≡ p k u)
      → IsInserted p key v t (0, grow chain (setup fresh_queue key t v))
  unfolding match_entry match_with assign
  grown_placed p held = record {
    result = rw (nothing (opposite t)) refl;
    left = λ k u.
        rw (nothing (opposite t), nothing t, whole)
          (waiting_replaced (flat chain) (fresh_bucket n) fresh_queue q' keys.0 keys.1
              (λ k u other. one_other fresh_queue k u (λ live. absurd (ground arith))) k u
            ∙ rw (fresh.0, empty_tail k u, held k u) (unfold setup in refl));
    alone = rw (whole) (
        AllAlone-replace (flat chain) fresh_queue q' (fresh_bucket n) extended fresh.1
          (λ live. keys));
  }
    where
      n : ℕ
      n = last_nqueues chain * 2

      q' : Queue
      q' = setup fresh_queue key t v

      whole : flat (grow chain q') ≡ flat chain ++ (q' ∷ fresh_bucket n)
      whole = grown_flat n q' refl

      fresh : (pending_values q' ≡ v ∷ []) × IsConsistent q'
      fresh = setup_lem fresh_queue key v t ne

      nothing : (u : EntryType) → p key u ≡ []
      nothing u = sym (held key u) ∙ NoKey-waiting (flat chain) key u unused

      keys : NoKey q'.key (flat chain) × NoKey q'.key (fresh_bucket n)
      keys = unfold setup in (unused, fresh_keys n key)

      empty_tail :
          (k : ℕ) (u : EntryType)
          → waiting (flat chain ++ (fresh_queue ∷ fresh_bucket n)) k u ≡ waiting (flat chain) k u
      empty_tail k u =
          waiting-append (flat chain) (fresh_bucket (suc n)) k u
          ∙ rw (NoKey-waiting (fresh_bucket (suc n)) k u (fresh_keys (suc n) k))
              (append-nil (waiting (flat chain) k u))

      extended : AllAlone (flat chain ++ (fresh_queue ∷ fresh_bucket n))
      extended =
          AllAlone-tail (flat chain) [] (fresh_bucket (suc n)) (rw (append-nil (flat chain)) alone)
            (fresh_alone (suc n)) (λ k h. fresh_keys (suc n) k)

not_opposite : (t u : EntryType) → same_type t (opposite u) ≡ false → t ≡ u
unfolding same_type opposite
not_opposite EntryType.send EntryType.send h = refl
not_opposite EntryType.send EntryType.recv h = ground arith
not_opposite EntryType.recv EntryType.send h = ground arith
not_opposite EntryType.recv EntryType.recv h = refl

module _ (r : ChainSearch) (alone : AllAlone (flat r.chain)) (p : Pending)
    (held : (k : ℕ) (u : EntryType) → waiting (flat r.chain) k u ≡ p k u) (v : ℕ) (ne : v ≢ 0) where
  placed :
      (key : ℕ) (t : EntryType)
      → NoKey key (flat r.chain)
      → (first : Option Position) → EmptyAt r.chain first
      → IsInserted p key v t (on_nowhere r.chain first key v t)
  unfolding on_nowhere
  placed key t unused none free = grown_placed r.chain alone key v t ne unused p held
  placed key t unused (some pos) (q, there, empty) =
      setup_placed r.chain pos.bucket pos.offset q
        (queue_at-Split r.chain pos.bucket pos.offset q there) alone empty key v t ne unused p held

  act_found :
      (key : ℕ) (t : EntryType) (found : Found)
      → FoundAt r.chain key (opposite t) found
      → EmptyAt r.chain r.first_empty
      → (found ≡ Found.nowhere → NoKey key (flat r.chain))
      → IsInserted p key v t (act r found key v t)
  unfolding act on_target on_same
  act_found key t (Found.target pos) (q, there, live, ekey, etype) free unused =
      elim (List-cases (pending_values q)) [
        | inl nothing ↦ absurd (pending_filled q live consistent nothing)
        | inr (w, ws, e) ↦
            rw (there, sym ekey)
              (target_popped r.chain pos.bucket pos.offset q split alone live p v t held
                (same_type-eq q.type (opposite t) etype) w ws e)
      ]
    where
      split : Split r.chain pos.bucket pos.offset q
      split = queue_at-Split r.chain pos.bucket pos.offset q there

      consistent : IsConsistent q
      consistent = (keys_free r.chain pos.bucket pos.offset q split alone live).2
  act_found key t (Found.same pos) (q, there, live, ekey, etype) free unused =
      rw (there, sym ekey, sym (not_opposite q.type t etype))
        (same_pushed r.chain pos.bucket pos.offset q
          (queue_at-Split r.chain pos.bucket pos.offset q there) alone live p v ne held)
  act_found key t Found.nowhere at free unused = placed key t (unused refl) r.first_empty free

-- On a chain in which a key has at most one queue that is not empty, the insertion of a value other
-- than null returns the oldest waiting value of the key and of the other kind and removes it, or
-- null when there is none, and then the value waits behind the others of its key and kind. Nothing
-- else that waits changes, whichever buckets the search frees, and the chain keeps the property.
pub insert_chain_lem :
    (chain : Chain) (key v : ℕ) (t : EntryType)
    → AllAlone (flat chain)
    → v ≢ 0
    → IsInserted (waiting (flat chain)) key v t (insert_chain chain key v t)
unfolding insert_chain
insert_chain_lem chain key v t alone ne =
    let r = search_chain key (opposite t) 0 chain none in
    let sound = search_chain-IsSound key (opposite t) 0 chain none in
    let pointers = search_pointers key (opposite t) chain in
    act_found r (sound.kept.alone alone) (waiting (flat chain)) sound.kept.same_values v ne key t
      r.found pointers.0 pointers.1 sound.none_left
