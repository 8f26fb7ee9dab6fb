-- ===== src/Session/Lifecycle/Resizing.antt =====
-- `Resize` of internal/session/session.go against a PTY that takes every size.
use kamacu.Common.{
  ℕ, ◌+◌, ◌<◌, ◌≡◌, Bool, true, false, not, ◌&&◌, ◌||◌, if◌then◌else◌, ◌==◌, arith, Time,
}
use kamacu.Observation.{Renderer}
use kamacu.Session.{Session, Winsize, is_exited}
use kamacu.Session.Lifecycle.{resize}

module _ {V : Type 0} (r : Renderer V) where
  -- Where the PTY takes every size, a running session takes a positive one: it is the last size
  -- afterwards, and the program is sent one change where the size is another one, two where a
  -- redraw is forced at the same size of more than one row, and none otherwise.
  pub resize_counts :
      (now : Time) (cols rows : ℕ) (force : Bool) (s : Session V)
      → is_exited s.status ≡ false
      → 0 < cols
      → 0 < rows
      → let (t, done) = resize r (λ ws. true) now cols rows force s in
        let same = rows == s.last_winsize.rows && cols == s.last_winsize.cols in
        (done ≡ true)
        × (t.last_winsize ≡ record { rows = rows; cols = cols })
        × (t.setsize_calls
            ≡ s.setsize_calls + (if not same then 1 else if force && not (rows == 1) then 2 else 0))
  unfolding resize
  resize_counts now cols rows force s live wide high = ground arith

  -- A size without columns or rows, and any size of an exited session, is refused and changes
  -- nothing.
  pub resize_refused :
      (pty : Winsize → Bool) (now : Time) (cols rows : ℕ) (force : Bool) (s : Session V)
      → (is_exited s.status || (cols == 0 || rows == 0)) ≡ true
      → resize r pty now cols rows force s ≡ (s, false)
  unfolding resize
  resize_refused pty now cols rows force s bad = ground arith
