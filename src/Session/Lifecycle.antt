-- ===== src/Session/Lifecycle.antt =====
-- The connections, the exit and the size of a session (internal/session/session.go). The ring
-- buffer and the setting of the PTY's size are parameters; the goroutines are the order of calls.
pub mod Replay
pub mod Exits
pub mod Resizing
use mathlib.Core.Option
use kamacu.Common.{
  ℕ, suc, ◌+◌, ◌-◌, Bool, true, false, not, ◌&&◌, ◌||◌, Option, none, some, List, [], ◌∷◌, ◌++◌,
  String, str_eq, Time, if◌then◌else◌, ltb, leb, ◌==◌, length, map, lookup, insert, delete,
  string_eq,
}
use kamacu.Observation
use kamacu.Observation.{Renderer}
use kamacu.Session.{
  Session, Winsize, InputSource, unset, terminal, external, Status, exited, is_exited, CodexStatus,
}
use kamacu.Session.Codex.Output.{codex_observer_size}

-- A queue of 256 chunks, all its channel holds.
abbrev pub queue_size : ℕ
queue_size = 256

-- `select { case q <- chunk: default: delete, close }` for each connection.
unfoldable pub deliver : List ℕ → List (String × List (List ℕ)) → List (String × List (List ℕ))
deliver chunk [] = []
deliver chunk ((id, q) ∷ rest) =
    let others = deliver chunk rest in
    if ltb (length q) queue_size then (id, q ++ chunk ∷ []) ∷ others else others

abbrev pub or_external : InputSource → InputSource
or_external unset = external
or_external source = source

module _ {V : Type 0} where
  -- One chunk in the pump, behind the observer and the status: the ring, then the connections.
  unfoldable pub fan_out : (List ℕ → List ℕ → List ℕ) → List ℕ → Session V → Session V
  fan_out ring_write chunk s = record s {
    ring = ring_write s.ring chunk;
    conns = deliver chunk s.conns;
  }

  -- The channel that `Attach` returns, and whether it is closed already.
  unfoldable pub attach : String → Session V → Session V × List (List ℕ) × Bool
  attach id s =
      let q = s.ring ∷ [] in
      if is_exited s.status
      then (s, q, true)
      else (record s { conns = insert id q s.conns }, q, false)

  unfoldable pub detach : String → Session V → Session V
  detach id s = record s { conns = delete id s.conns }

  -- A client takes the front chunk of its channel.
  unfoldable pub receive : String → Session V → Session V
  receive id s = elim (lookup id s.conns) [
    | none ↦ s
    | some q ↦ elim q [ [] ↦ s | c ∷ rest ↦ record s { conns = insert id rest s.conns } ]
  ]

  unfoldable pub mark_exited : ℕ → Session V → Session V
  mark_exited code s =
      let source = if s.stop_requested then s.exit_source else or_external s.last_input_source in
      if is_exited s.status
      then s
      else record s { status = exited; exit_code = code; exit_source = source; conns = [] }

  -- What `stop` does under the mutex, before it signals the processes. `stopOnce` lets one stop of a
  -- running session through, so that its flag says whether there was one.
  unfoldable pub request_stop : InputSource → Session V → Session V
  request_stop source s =
      if is_exited s.status || s.stop_requested
      then s
      else record s { stop_requested = true; exit_source = source }

  unfoldable pub set_label : String → Session V → Session V
  set_label label s = record s { label = label }

  -- The first capture wins.
  unfoldable pub set_codex_session_id : String → Session V → Session V
  set_codex_session_id id s =
      if str_eq s.codex_session_id "" then record s { codex_session_id = id } else s

  unfoldable pub set_detached : Bool → Session V → Session V
  set_detached alive s = if alive then record s { detached_alive = true } else s

  module _ (r : Renderer V) (pty : Winsize → Bool) where
    -- `c.terminal.Resize` where there is an observer terminal.
    abbrev resize_codex : Winsize → CodexStatus V → CodexStatus V
    resize_codex ws c =
        let (cols, rows) = codex_observer_size ws.cols ws.rows in
        let terminal : Option V = elim c.terminal [
          | none ↦ none
          | some v ↦ some (r.resize v cols rows)
        ] in
        if ltb 0 ws.cols && ltb 0 ws.rows then record c { terminal = terminal } else c

    -- `setsizeLocked`: the answer tells whether the PTY took the size.
    unfoldable pub set_winsize : Time → Winsize → Session V → Session V × Bool
    set_winsize now ws s =
        let counted = record s { setsize_calls = s.setsize_calls + 1 } in
        let sized = record counted {
          observer = Option.map (Observation.resize r now ws.cols ws.rows) s.observer;
          last_winsize = ws;
          codex_state = Option.map (resize_codex ws) s.codex_state;
        } in
        if pty ws then (sized, true) else (counted, false)

    abbrev pub same_size : Winsize → Winsize → Bool
    same_size a b = a.rows == b.rows && a.cols == b.cols

    -- The answer is false where `Resize` returns an error.
    unfoldable pub resize : Time → ℕ → ℕ → Bool → Session V → Session V × Bool
    unfolding set_winsize
    resize now cols rows force_redraw s =
        let want : Winsize = record { rows = rows; cols = cols } in
        let less : Winsize = record { rows = rows - 1; cols = cols } in
        let (shrunk, took) = set_winsize now less s in
        if is_exited s.status
        then (s, false)
        else if cols == 0 || rows == 0
        then (s, false)
        else if not (same_size want s.last_winsize)
        then set_winsize now want s
        else if not force_redraw || rows == 1
        then (s, true)
        else if took
        then set_winsize now want shrunk
        else (shrunk, false)
