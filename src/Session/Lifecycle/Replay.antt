-- ===== src/Session/Lifecycle/Replay.antt =====
-- What an attached connection receives (`Attach`, `Detach` and `pump` of
-- internal/session/session.go).
use mathlib.Core.List.{append_assoc, append-nil}
use kamacu.Common.{
  ℕ, ◌+◌, ◌≤◌, ◌<◌, ◌≡◌, refl, ap, ◌∙◌, false, some, List, [], ◌∷◌, ◌++◌, String, str_eq_iff, arith,
  length, length-append, insert, lookup, lookup-insert, string_eq,
}
use kamacu.Session.{Session, is_exited}
use kamacu.Session.Lifecycle.{queue_size, deliver, fan_out, attach}

lookup-deliver :
    (chunk : List ℕ) (id : String) (conns : List (String × List (List ℕ))) (q : List (List ℕ))
    → lookup id conns ≡ some q
    → length q < queue_size
    → lookup id (deliver chunk conns) ≡ some (q ++ chunk ∷ [])
unfolding deliver
lookup-deliver chunk id [] q e room = ground arith
lookup-deliver chunk id ((j, p) ∷ rest) q e room = ground (arith, lookup-deliver chunk id rest q)

module _ {V : Type 0} (ring_write : List ℕ → List ℕ → List ℕ) where
  unfoldable pub pump : List (List ℕ) → Session V → Session V
  pump [] s = s
  pump (c ∷ cs) s = pump cs (fan_out ring_write c s)

  lookup-pump :
      (cs : List (List ℕ)) (id : String) (s : Session V) (q : List (List ℕ))
      → lookup id s.conns ≡ some q
      → length q + length cs ≤ queue_size
      → lookup id (pump cs s).conns ≡ some (q ++ cs)
  unfolding pump fan_out
  lookup-pump [] id s q e room = rw append-nil e
  lookup-pump (c ∷ cs) id s q e room =
      lookup-pump cs id (fan_out ring_write c s) (q ++ c ∷ [])
        (lookup-deliver c id s.conns q e (omega arith)) (omega (arith, length-append q (c ∷ [])))
      ∙ ap some (append_assoc q (c ∷ []) cs)

  -- There is neither a gap nor a duplicate between the replay and the live stream: a connection
  -- that attaches to a running session, and takes nothing yet, holds what the ring held then and
  -- every chunk since, in order, as long as these are no more than its channel holds.
  pub attached_sees_all :
      (cs : List (List ℕ)) (id : String) (s : Session V)
      → is_exited s.status ≡ false
      → length cs < queue_size
      → lookup id (pump cs (attach id s).0).conns ≡ some (s.ring ∷ cs)
  unfolding attach
  attached_sees_all cs id s live room = rw live (
      lookup-pump cs id (record s { conns = insert id (s.ring ∷ []) s.conns }) (s.ring ∷ [])
        (lookup-insert id id (s.ring ∷ []) s.conns ∙ rw ((str_eq_iff id id).1 refl)) (omega arith))
