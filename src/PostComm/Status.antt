-- ===== src/PostComm/Status.antt =====
-- Every post that is accepted returns a status: `post_comm_x::call_impl` from end to end.
use lci.Base.{◌≡◌, Bool, true, false, ◌&&◌, ◌||◌, not, leb, if◌then◌else◌}
use lci.Communicate.{Protocol, is_accepted}
use lci.Immediate.{is_rdv}
use lci.Immediate.RoundTrip.{IsConfigured}
use lci.PostComm.{PostArgs, Env, LocalComp, comp_is_empty, is_zcopy, is_recv}
use lci.PostComm.Driver.{start}
use lci.PostComm.Offer.{IsServed}

module _ (e : Env) (q : PostArgs) (ok : is_accepted q.args ≡ true)
    (served : IsServed e q.allow_retry) (room : leb 32 q.args.max_bcopy_size ≡ true) where
  -- Which protocols need the completion object, of a post whose protocol is chosen.
  needs : Bool → Protocol → Bool
  needs out protocol = is_zcopy protocol || is_rdv protocol || not q.args.memory_semantic || not out

  module _ (configured : IsConfigured q.widths q.args)
      (there : comp_is_empty (if q.args.allow_posted then q.local_comp else LocalComp.synchronizer)
        ≡ false) where
    backlogged : Bool
    backlogged = not e.backlog_empty && q.allow_retry && not (is_recv (start q).choice.protocol)
