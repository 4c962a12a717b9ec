-- ===== src/ShmRing/Delivery.antt =====
-- From a publication to a view of it, across any steps in between.
use lci.Base.{
  ℕ, ◌≤◌, ◌<◌, ◌≡◌, refl, ◌∙◌, inl, inr, ◌≢◌, Bool, true, some, arith, update, ℕ_discrete, ==_refl,
  ==_ne, subst, ap,
}
use lci.ShmRing.{Ring, View, initial_position_accepted, put_slot}
use lci.ShmRing.Machine.{Request, RecvSlot, Pc, message, holding, filled, step}
use lci.ShmRing.System.{System, Step, pick, Reach, log_sent, advances}
use lci.ShmRing.Invariant.{
  IsGeometry, Inv, Local, writes, Reach-Inv, Step-Inv, Effect, Advance, Move-Advance,
  writes-Reserves,
}
use lci.ShmRing.Invariant.Effects

-- Any number of steps.
pub data Steps (v : View) (s : System) : System → Type 0 where
  now : Steps v s s
  later : {t u : System} → Steps v s t → Step v t u → Steps v s u

-- One access of thread `i`.
abbrev pub advance : View → System → ℕ → Bool → System
advance v s i weak = record {
  ring = (step v weak s.ring (s.pc i)).0;
  sent = log_sent (s.pc i) s.sent;
  pc = update s.pc i (step v weak s.ring (s.pc i)).1;
}

-- The request is published at the position, and no thread is about to write there.
pub record Published (s : System) (position : ℕ) (req : Request) : Type 0 where
  pub logged : s.sent position ≡ req
  pub reserved : position < s.ring.producer_position
  pub unwritten : (i : ℕ) → writes (s.pc i) ≢ some position

log_sent-ne :
    (q : Pc) (sent : ℕ → Request) (position : ℕ)
    → writes q ≢ some position
    → log_sent q sent position ≡ sent position
log_sent-ne Pc.idle sent position n = refl
log_sent-ne q sent position n = ground arith

Effect-producer :
    {v : View} {r r' : Ring} {sent sent' : ℕ → Request}
    → Effect v r sent r' sent'
    → r.producer_position ≤ r'.producer_position
unfolding put_slot
Effect-producer Effects.quiet = omega arith
Effect-producer (Effects.reserve room w) = omega arith
Effect-producer e = ground arith

module _ {v : View} {k : ℕ} (g : IsGeometry v k) where
  -- A published position stays published.
  Step-Published :
      {s t : System} {position : ℕ} {req : Request}
      → Inv v s
      → Step v s t
      → Published s position req
      → Published t position req
  Step-Published {s} {position = x} inv (pick i {r} {p} m) h = record {
    logged = log_sent-ne (s.pc i) s.sent x (h.unwritten i) ∙ h.logged;
    reserved = omega (arith, Effect-producer a.effect, h.reserved);
    unwritten = kept;
  }
    where
      a : Advance v s.ring s.sent (log_sent (s.pc i) s.sent) (s.pc i) r p
      a = Move-Advance g inv.ring m (inv.locals i)

      mine : writes p ≢ some x
      mine e = elim (a.fresh_write x e) [
        | inl old ↦ h.unwritten i old
        | inr new ↦ omega (arith, h.reserved)
      ]

      kept : (j : ℕ) → writes (update s.pc i p j) ≢ some x
      kept j = elim (ℕ_discrete i j) [
        | yes e ↦ rw (← e, ==_refl i) mine
        | no n ↦ rw (==_ne i j n) (h.unwritten j)
      ]

  Steps-Published :
      {s t : System} {position : ℕ} {req : Request}
      → Inv v s
      → Steps v s t
      → Published s position req
      → Inv v t × Published t position req
  Steps-Published inv now h = (inv, h)
  Steps-Published inv (later st last) h =
      let (inv', h') = Steps-Published inv st h in
      (Step-Inv g last inv', Step-Published inv' last h')

  -- After the last access of `publish`, the request is published.
  publish-Published :
      {s : System} (i position : ℕ) (req : Request) (weak : Bool)
      → Inv v s
      → s.pc i ≡ filled req position
      → Published (advance v s i weak) position req
  unfolding step
  publish-Published {s} i x req weak inv e = record {
    logged = rw e (ground arith);
    reserved = omega (
      arith,
      Effect-producer (Move-Advance g inv.ring (advances weak (s.pc i)) (inv.locals i)).effect,
      writes-Reserves v s.ring s.sent (s.pc i) x (inv.locals i) (rw e refl),
    );
    unwritten = others;
  }
    where
      others : (j : ℕ) → writes (update s.pc i (step v weak s.ring (s.pc i)).1 j) ≢ some x
      others j h = elim (ℕ_discrete i j) [
        | yes d ↦ ground arith
        | no n ↦ n (inv.writers i j x (rw e refl) (ground arith))
      ]

  -- In any history that starts from an accepted position: when a thread makes the release store of
  -- `publish` for a request at a position, then every view that any thread holds of that position,
  -- at once or after any further steps, shows that request's sender, data, bytes and size.
  pub delivered :
      (position : ℕ) {s u : System} (i j x : ℕ) (req : Request) (view : RecvSlot) (weak : Bool)
      → initial_position_accepted v position ≡ true
      → Reach v position s
      → s.pc i ≡ filled req x
      → Steps v (advance v s i weak) u
      → u.pc j ≡ holding x view
      → view ≡ message req
  delivered position {s} {u} i j x req view weak ok reach e st h =
      let inv = Reach-Inv g position ok reach in
      let (inv', p) =
        Steps-Published (Step-Inv g (pick i (advances weak (s.pc i))) inv) st
          (publish-Published i x req weak inv e) in
      let held : Local v u.ring u.sent (holding x view) =
        subst (Local v u.ring u.sent) h (inv'.locals j) in
      held.2 ∙ ap message p.logged
