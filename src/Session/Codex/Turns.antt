-- ===== src/Session/Codex/Turns.antt =====
-- Turns of a Codex session: the remembered turns, and how a turn ends
-- (`ApplyCodexHook` of internal/session/codex_status.go).
use kamacu.Common.{
  ◌≤◌, ◌≡◌, Bool, true, false, not, ◌||◌, Option, some, List, [], ◌∷◌, ◌++◌, String, str_eq, Time,
  if◌then◌else◌, arith, length, length-append, length-drop, Bool-cases, Option-cases, inl, inr,
}
use kamacu.Observation.{Renderer}
use kamacu.Session.{CodexStatus, Session, unclear, is_exited, idle}
use kamacu.Session.Codex.{
  CodexHook, HookEvent, stop, interrupt, session_end, user_prompt_submit, pre_tool_use,
  post_tool_use, permission_request, session_start, other, is_session_start, is_ready_event, is_set,
  mem_text, complete_turn, codex_state_of, is_stale, ignore_current_screen, claim_session,
  reduce_event, reduce_hook, apply_codex_hook, codex_status, codex_tool_key,
}

-- The hook is of the session that the state follows, or names none.
abbrev pub IsOwn : {V : Type 0} → CodexHook → CodexStatus V → Type 0
IsOwn h c = (not (is_set h.session_id) || str_eq c.session_id h.session_id) ≡ true

-- What holds of the remembered turns: no more than 32, and the running turn is not one of them.
pub record IsFresh {V : Type 0} (c : CodexStatus V) : Type 0 where
  pub remembered : length c.completed ≤ 32
  pub unfinished : is_set c.turn ≡ true → mem_text c.turn c.completed ≡ false

length-complete_turn :
    (t : String) (ts : List String) → length ts ≤ 32 → length (complete_turn t ts) ≤ 32
length-complete_turn t ts h =
    ground (arith, length-append ts (t ∷ []), length-drop 1 (ts ++ t ∷ []))

abbrev pub is_turn_end : HookEvent → Bool
is_turn_end stop = true
is_turn_end interrupt = true
is_turn_end session_end = true
is_turn_end _ = false

module _ {V : Type 0} (r : Renderer V) where
  -- The session's id is all that a hook of the root session changes before its event is read.
  pub claim_session-IsOwn :
      (h : CodexHook) (c : CodexStatus V)
      → IsOwn h c
      → let id = if is_set h.session_id then h.session_id else c.session_id in
        claim_session r h c ≡ some (record c { session_id = id }, false)
  unfolding claim_session
  claim_session-IsOwn h c own = ground arith

  reduce_event-IsFresh :
      (now : Time) (key : String) (e : HookEvent) (c : CodexStatus V) (w : Bool)
      → IsFresh c
      → IsFresh (reduce_event r now key e (c, w)).0
  unfolding reduce_event
  reduce_event-IsFresh now key user_prompt_submit c w f = record {
    remembered = f.remembered;
    unfinished = f.unfinished;
  }
  reduce_event-IsFresh now key stop c w f = record {
    remembered = length-complete_turn c.turn c.completed f.remembered;
    unfinished = λ e. ground arith;
  }
  reduce_event-IsFresh now key interrupt c w f = record {
    remembered = length-complete_turn c.turn c.completed f.remembered;
    unfinished = λ e. ground arith;
  }
  reduce_event-IsFresh now key session_end c w f = record {
    remembered = length-complete_turn c.turn c.completed f.remembered;
    unfinished = λ e. ground arith;
  }
  reduce_event-IsFresh now key pre_tool_use c w f = ground arith
  reduce_event-IsFresh now key post_tool_use c w f = ground arith
  reduce_event-IsFresh now key permission_request c w f = record {
    remembered = f.remembered;
    unfinished = f.unfinished;
  }
  reduce_event-IsFresh now key session_start c w f = f
  reduce_event-IsFresh now key (other e) c w f = f

  -- A hook that is not stale names a turn that is not finished.
  new_turn :
      (h : CodexHook) (c : CodexStatus V)
      → (is_session_start h.event || is_stale r h c) ≡ false
      → IsFresh c
      → let t = if is_set h.turn_id then h.turn_id else c.turn in
        is_set t ≡ true → mem_text t c.completed ≡ false
  new_turn h c e f set = elim (Bool-cases (is_set h.turn_id)) [
    | inl named ↦ rw named (ground arith)
    | inr unnamed ↦ rw unnamed (f.unfinished (rw unnamed at set))
  ]

  reduce_hook-IsFresh :
      (now : Time) (key : String) (h : CodexHook) (c : CodexStatus V) (w : Bool)
      → IsFresh c
      → IsFresh (reduce_hook r now key h (c, w)).0
  unfolding reduce_hook
  reduce_hook-IsFresh now key h c w f =
      elim (Bool-cases (is_session_start h.event || is_stale r h c)) [
        | inl e ↦ rw e f
        | inr e ↦ rw e (
            reduce_event-IsFresh now key h.event
              (record c { turn = if is_set h.turn_id then h.turn_id else c.turn }) w
              (record { remembered = f.remembered; unfinished = new_turn h c e f }))
      ]

  claim_session-IsFresh :
      (h : CodexHook) (c : CodexStatus V) (d : CodexStatus V) (b : Bool)
      → IsFresh c
      → claim_session r h c ≡ some (d, b)
      → IsFresh d
  unfolding claim_session
  claim_session-IsFresh h c d b f e = ground arith

  pub apply_codex_hook-IsFresh :
      (canonical : Bool → String → Option String) (now : Time) (h : CodexHook) (s : Session V)
      → IsFresh (codex_state_of s.codex_state)
      → IsFresh (codex_state_of (apply_codex_hook r canonical now h s).codex_state)
  unfolding apply_codex_hook
  apply_codex_hook-IsFresh canonical now h s f =
      let c = codex_state_of s.codex_state in
      let w = λ (switched : Bool). if switched then false else s.waiting in
      let skips =
        not (str_eq s.engine "codex") || is_exited s.status || not (is_ready_event h.event) in
      elim (Bool-cases skips) [
        | inl e ↦ rw e f
        | inr e ↦ elim (Option-cases (claim_session r h c)) [
          | inl p ↦ rw (e, p) f
          | inr ((d, b), p) ↦
              rw (e, p)
                (reduce_hook-IsFresh now (codex_tool_key canonical h) h d (w b)
                  (claim_session-IsFresh h c d b f p))
        ]
      ]

  unfoldable pub run_hooks :
      (Bool → String → Option String) → List (Time × CodexHook) → Session V → Session V
  run_hooks canonical [] s = s
  run_hooks canonical ((now, h) ∷ hs) s =
      run_hooks canonical hs (apply_codex_hook r canonical now h s)

  -- From a state in which at most 32 turns are remembered as finished and the running turn is none
  -- of them, any delivery of hooks, in whatever order and how often, leads to such a state: the
  -- running turn is never one of the remembered finished ones. (Of more than 32 the oldest are
  -- forgotten.)
  pub run_hooks-IsFresh :
      (canonical : Bool → String → Option String) (hs : List (Time × CodexHook)) (s : Session V)
      → IsFresh (codex_state_of s.codex_state)
      → IsFresh (codex_state_of (run_hooks canonical hs s).codex_state)
  unfolding run_hooks
  run_hooks-IsFresh canonical [] s f = f
  run_hooks-IsFresh canonical ((now, h) ∷ hs) s f =
      run_hooks-IsFresh canonical hs (apply_codex_hook r canonical now h s)
        (apply_codex_hook-IsFresh canonical now h s f)

  pub reduce_end :
      (now : Time) (key : String) (h : CodexHook) (c : CodexStatus V) (w : Bool)
      → is_turn_end h.event ≡ true
      → is_stale r h c ≡ false
      → let (d, w') = reduce_hook r now key h (c, w) in
        (d.active ≡ false)
        × (d.lifecycle ≡ true)
        × (d.screen_status ≡ unclear)
        × (d.turn ≡ "")
        × (w' ≡ false)
  unfolding reduce_hook reduce_event ignore_current_screen
  reduce_end now key h c w ends fresh = ground arith

  -- A turn that ends, by `Stop`, `Interrupt` or `SessionEnd` of the root session and not by a
  -- stale hook, leaves a running Codex session idle, at whatever time the status is read.
  pub ended_turn_idle :
      (canonical : Bool → String → Option String) (now later : Time) (h : CodexHook) (s : Session V)
      → str_eq s.engine "codex" ≡ true
      → is_exited s.status ≡ false
      → is_turn_end h.event ≡ true
      → IsOwn h (codex_state_of s.codex_state)
      → is_stale r h (codex_state_of s.codex_state) ≡ false
      → codex_status later (apply_codex_hook r canonical now h s) ≡ idle
  unfolding apply_codex_hook codex_status
  ended_turn_idle canonical now later h s engine live ends own fresh =
      let c = codex_state_of s.codex_state in
      let id = if is_set h.session_id then h.session_id else c.session_id in
      let d = record c { session_id = id } in
      ground (
        arith,
        claim_session-IsOwn h c own,
        reduce_end now (codex_tool_key canonical h) h d s.waiting,
      )
