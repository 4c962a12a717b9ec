-- ===== src/Endpoint/Fallback.antt =====
-- The same on any network: where it has no put with immediate data, `post_putImms_fallback` and
-- `post_putImm_fallback` of src/network/endpoint_inline.hpp stand in.
use mathlib.Core.Bool.{false≢true}
use lci.Base.{◌≡◌, refl, inl, inr, Bool, true, false, ◌&&◌, not, Bool-cases}
use lci.Endpoint.{Op, Post, Backend, Memory, Endpoint}
use lci.Endpoint.Order.{IsValid, puts_imm, user_post, user_post-IsPosted}
use Attempt.{IsPrompt, IsRealised, posted-IsRealised, put_imm-IsRealised}
use Pair.{put_imms-IsRealised}
pub mod Attempt
mod Pair

module _ {b : Backend} where
  -- On any network that completes injected puts and sends at once, every post of a valid endpoint, by
  -- any of the seven operations and allowed to retry or not, comes back and leaves it valid. If it
  -- returns a retry code, what the network took and what waits is unchanged. Otherwise the post is now
  -- the last one of its rank, and the order of the others is kept: the request itself, or, only where
  -- the network has no put with immediate data, the put and the send, or the put with the immediate
  -- data in its context, that replace it. What is handed over is a copy of the buffer as it was, for
  -- the operations that complete at once.
  pub user_post-IsRealised :
      (mem : Memory) (e : Endpoint b) (p : Post) (op : Op) (allow_retry : Bool)
      → IsPrompt b
      → IsValid e
      → IsRealised mem e op p (user_post mem e p op allow_retry)
  unfolding user_post puts_imm
  user_post-IsRealised mem e p op allow_retry prompt valid =
      elim (Bool-cases (puts_imm op && not e.support_putimm)) [
        | inr direct ↦
            posted-IsRealised mem e op p _ (user_post-IsPosted mem e p op allow_retry valid direct)
        | inl without ↦ by_fallback op without
      ]
    where
      negated : (c : Bool) → not c ≡ true → c ≡ false
      negated true h = absurd (false≢true h)
      negated false h = refl

      by_fallback :
          (o : Op)
          → (puts_imm o && not e.support_putimm) ≡ true
          → IsRealised mem e o p (user_post mem e p o allow_retry)
      by_fallback Op.put_imms h =
          put_imms-IsRealised mem e p allow_retry prompt valid (negated e.support_putimm h)
      by_fallback Op.put_imm h =
          put_imm-IsRealised mem e p allow_retry valid (negated e.support_putimm h)
      by_fallback o h = absurd (false≢true h)
