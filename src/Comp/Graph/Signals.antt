-- ===== src/Comp/Graph/Signals.antt =====
-- The signals of a graph that runs: each finds its node waiting, and may start it.
use lci.Base.{
  ℕ, ◌+◌, ◌<◌, ◌≡◌, ◌≢◌, refl, ap, subst, sym, ◌∙◌, true, false, some, Option, ltb, ◌==◌, ==→eq,
  arith, Bool-cases, inl, inr, dec_lt,
}
use lci.Comp.Graph.{
  Vertex, graph_start, graph_end, node, same, Graph, Status, done, posted, retry, Execution, change,
  count, remove, mark_complete, signal_node, all_received, after_run,
}
use lci.Comp.Graph.Counts.{same_eq, same_refl, same_sym, count-taken}
use lci.Comp.Graph.Sound.{IsSound, completions, mark_complete-IsSound}

module _ (g : Graph) (run : Vertex → Status) where
  -- The signal is counted, and nothing has run yet.
  abbrev counted : Vertex → ℕ → Execution → Execution
  counted v completed e = record e {
    signals_received = change v (e.signals_received v + 1) e.signals_received;
    pending = remove v e.pending;
    completed = completed;
  }

  -- A signal on its way is to a vertex that expects more signals and has not run.
  pending_short :
      (v : Vertex) (e : Execution)
      → IsSound g e
      → 0 < count v e.pending
      → (0 < count v e.unfinished)
        × (e.signals_received v < g.signals_expected v)
        × (count v e.running ≡ 0)
  pending_short v e s comes =
      let waits : 0 < count v e.unfinished = elim (dec_lt 0 (count v e.unfinished)) [
        | yes p ↦ p
        | no p ↦ absurd (omega (arith, comes, s.over v (omega arith)))
      ] in
      let short : e.signals_received v < g.signals_expected v = omega (arith, s.expects v waits) in
      let idle : count v e.running ≡ 0 = elim (dec_lt 0 (count v e.running)) [
        | yes p ↦ absurd (omega (arith, short, (s.runs_last v p).1))
        | no p ↦ omega arith
      ] in
      (waits, short, idle)

  counted-IsSound :
      (v : Vertex) (completed : ℕ) (e : Execution)
      → IsSound g e
      → 0 < count v e.pending
      → completed
        ≡ completions
            (change v (e.signals_received v + 1) e.signals_received graph_end)
            (g.signals_expected graph_end)
      → IsSound g (counted v completed e)
  counted-IsSound v completed e s comes c =
      let idle = (pending_short v e s comes).2 in
      let taken = λ (w : Vertex). count-taken v w e.pending comes in
      record {
        expects = λ w h. elim (Bool-cases (same w v)) [
          | inl eq ↦ rw eq (
              omega
                (arith, s.expects w h, rw eq at (taken w), ap e.signals_received (same_eq w v eq)))
          | inr ne ↦ rw ne (omega (arith, s.expects w h, rw ne at (taken w)))
        ];
        over = λ w h. omega (arith, s.over w h, taken w);
        once = s.once;
        runs_once = s.runs_once;
        runs_last = λ w h. elim (Bool-cases (same w v)) [
          | inl eq ↦ absurd (omega (arith, h, idle, ap (λ u. count u e.running) (same_eq w v eq)))
          | inr ne ↦ let (in_it, all, is_inner) = s.runs_last w h in (in_it, rw ne all, is_inner)
        ];
        end_stays = s.end_stays;
        ends_once = c;
      }

  -- What a signal leads to.
  abbrev Goes : Option Execution → Type 0
  Goes o = (after : Execution) × (o ≡ some after) × IsSound g after

  runs-Goes :
      (status : Status) (v : Vertex) (e : Execution)
      → status ≢ retry
      → IsSound g e
      → 0 < count v e.unfinished
      → e.signals_received v ≡ g.signals_expected v
      → same v graph_end ≡ false
      → count v e.running ≡ 0
      → Goes (after_run g run status v e)
  runs-Goes done v e ok s waits full inner idle =
      (mark_complete g run v e, refl, mark_complete-IsSound g run v e s waits full inner)
  runs-Goes posted v e ok s waits full inner idle = (
    _,
    refl,
    record {
      expects = s.expects;
      over = s.over;
      once = s.once;
      runs_once = λ w. elim (Bool-cases (same v w)) [
        | inl eq ↦ rw eq (omega (arith, idle, ap (λ u. count u e.running) (same_eq v w eq)))
        | inr ne ↦ rw ne (s.runs_once w)
      ];
      runs_last = λ w h. elim (Bool-cases (same v w)) [
        | inl eq ↦
            subst
              (λ u.
                (0 < count u e.unfinished)
                × (e.signals_received u ≡ g.signals_expected u)
                × (same u graph_end ≡ false))
              (same_eq v w eq) (waits, full, inner)
        | inr ne ↦ s.runs_last w (rw ne at h)
      ];
      end_stays = s.end_stays;
      ends_once = s.ends_once;
    },
  )
  runs-Goes retry v e ok s waits full inner idle = absurd (ok refl)

  signal_end-Goes :
      (e : Execution)
      → IsSound g e
      → 0 < count graph_end e.pending
      → Goes (signal_node g run graph_end (record e { pending = remove graph_end e.pending }))
  unfolding signal_node
  signal_end-Goes e s comes =
      let r = e.signals_received graph_end in
      let (_, short, _) = pending_short graph_end e s comes in
      elim (Bool-cases (r + 1 == g.signals_expected graph_end)) [
        | inl full ↦
            let c : e.completed + 1 ≡ completions (r + 1) (g.signals_expected graph_end) =
              ground (arith, short, s.ends_once, full) in
            rw full (_, refl, counted-IsSound graph_end (e.completed + 1) e s comes c)
        | inr part ↦
            let c : e.completed ≡ completions (r + 1) (g.signals_expected graph_end) =
              ground (arith, short, s.ends_once, part) in
            let less : ltb (r + 1) (g.signals_expected graph_end) ≡ true =
              ground (arith, short, part) in
            rw (part, less) (_, refl, counted-IsSound graph_end e.completed e s comes c)
      ]

  all_received_inner :
      (v : Vertex) (e : Execution)
      → same v graph_end ≡ false
      → all_received g run v e ≡ after_run g run (run v) v e
  all_received_inner graph_start e inner = refl
  all_received_inner graph_end e inner = cc
  all_received_inner (node i) e inner = refl

  signal_inner-Goes :
      (v : Vertex) (e : Execution)
      → run v ≢ retry
      → same v graph_end ≡ false
      → IsSound g e
      → 0 < count v e.pending
      → Goes (signal_node g run v (record e { pending = remove v e.pending }))
  unfolding signal_node
  signal_inner-Goes v e ok inner s comes =
      let r = e.signals_received v in
      let (waits, short, idle) = pending_short v e s comes in
      let sound =
        counted-IsSound v e.completed e s comes (rw (same_sym graph_end v ∙ inner) s.ends_once) in
      elim (Bool-cases (r + 1 == g.signals_expected v)) [
        | inl full ↦ rw full (
            subst Goes (sym (all_received_inner v (counted v e.completed e) inner)) (
              runs-Goes (run v) v (counted v e.completed e) ok sound waits
                (rw (same_refl v) (==→eq _ _ full)) inner idle))
        | inr part ↦
            let less : ltb (r + 1) (g.signals_expected v) ≡ true = ground (arith, short, part) in
            rw (part, less) (_, refl, sound)
      ]

  pub signal-Goes :
      (v : Vertex) (e : Execution)
      → run v ≢ retry
      → IsSound g e
      → 0 < count v e.pending
      → Goes (signal_node g run v (record e { pending = remove v e.pending }))
  signal-Goes v e ok s comes = elim (Bool-cases (same v graph_end)) [
    | inl e' ↦
        subst (λ u. Goes (signal_node g run u (record e { pending = remove u e.pending })))
          (sym (same_eq v graph_end e'))
          (signal_end-Goes e s (subst (λ u. 0 < count u e.pending) (same_eq v graph_end e') comes))
    | inr inner ↦ signal_inner-Goes v e ok inner s comes
  ]
