-- ===== src/Loop/Run/Follows.antt =====
-- How the driver of crates/agent-loop/src/run.rs moves the state: by the operations of `Op`, and by
-- no other step. One lemma for each of its phases.
mod Batches
mod Rounds
pub mod Whole
use rof_harness.Base.{
  ℕ, String, Bool, true, false, ◌≡◌, refl, ◌∙◌, ap, Option, none, some, List, [], ◌∷◌, ◌++◌,
  is_empty, leb, length, ◌==◌, ◌||◌, ◌&&◌, Bool-cases, inl, inr, if◌then◌else◌,
}
use rof_harness.Host.{Host}
use rof_harness.Event.Types.{AgentEvent}
use rof_harness.Log.Types.{ItemKind, IoResult, ok, err}
use rof_harness.Provider.{AssistantMessage, Usage}
use rof_harness.Tools.{ToolCall}
use rof_harness.Loop.Ops.{
  Op, inputs, admits, rows, sticks, terminates, books, Setting, perform, perform_all, books_of,
}
use rof_harness.Loop.Run.{
  Driver, Ctx, Action, Flow, next, exit, pure, halt, ask, get_state, set_state, on_state, when,
  flow, ◌>>=◌,
}
use rof_harness.Loop.Run.Closing.{
  sync, sync_to, try_sync, append_row, emit_run_end, finish, emit_some, record_row, close_hop,
  ask_verdict, done_if_parked, settle_verdict, settle_terminal,
}
use rof_harness.Loop.Run.Frames.{
  emit, fresh_id, emit_error, message_id, emit_message_frames, emit_tool_starts,
}
use rof_harness.Loop.State.{LoopState}
use rof_harness.Loop.Types.{Clock, Outcome, PhaseVerdict, returns, breaks, continues}

-- A state that some operations, each at some time, make of a state.
pub data Reaches {H : Host} (env : Setting H) (s : LoopState H) : LoopState H → Type 0 where
  stays : Reaches env s s
  moves :
      {s' : LoopState H}
      → Reaches env s s'
      → (t : Clock) (op : Op H) → Reaches env s (perform env t s' op)

abbrev pub epoch : Clock
epoch = record { instant = 0; system = 0 }

module _ {H : Host} where
  perform_all-snoc :
      (env : Setting H) (s : LoopState H) (ops : List (Clock × Op H)) (t : Clock) (op : Op H)
      → perform_all env s (ops ++ (t, op) ∷ []) ≡ perform env t (perform_all env s ops) op
  unfolding perform_all
  perform_all-snoc env s [] t op = refl
  perform_all-snoc env s ((u, o) ∷ ops) t op = perform_all-snoc env (perform env u s o) ops t op

module _ {H : Host} {env : Setting H} where
  pub Reaches-trans : {a b c : LoopState H} → Reaches env a b → Reaches env b c → Reaches env a c
  Reaches-trans g stays = g
  Reaches-trans g (moves h t op) = moves (Reaches-trans g h) t op

  -- The operations, in their order.
  pub Reaches-perform_all :
      {s s' : LoopState H}
      → Reaches env s s'
      → (ops : List (Clock × Op H)) × (perform_all env s ops ≡ s')
  unfolding perform_all
  Reaches-perform_all stays = ([], refl)
  Reaches-perform_all {s} (moves h t op) =
      let (ops, e) = Reaches-perform_all h in
      (ops ++ (t, op) ∷ [], perform_all-snoc env s ops t op ∙ ap (λ x. perform env t x op) e)

module _ {H : Host} {d : Driver H} where
  -- From every context, the action leaves a state that operations reach.
  pub record Follows {A : Type 0} (m : Action d A) : Type 0 where
    pub follow : (c : Ctx d) → Reaches d.setting c.state (m c).1.state

  flow-Follows :
      {A B : Type 0} {s : LoopState H} (f : A → Action d B) (p : Flow A × Ctx d)
      → Reaches d.setting s p.1.state
      → ((a : A) → Follows (f a))
      → Reaches d.setting s (flow f p).1.state
  unfolding flow
  flow-Follows f (next a, c') r g = Reaches-trans r (Follows.follow (g a) c')
  flow-Follows f (exit o, c') r g = r

  pub bind-Follows :
      {A B : Type 0} {m : Action d A} {f : A → Action d B}
      → Follows m
      → ((a : A) → Follows (f a))
      → Follows (m >>= f)
  unfolding ◌>>=◌
  bind-Follows {A} {B} {m} {f} h g = record {
    follow = λ c. flow-Follows f (m c) (Follows.follow h c) g;
  }

  pub pure-Follows : {A : Type 0} (a : A) → Follows (pure {d = d} a)
  unfolding pure
  pure-Follows a = record { follow = λ c. stays }

  pub halt-Follows : {A : Type 0} (o : Outcome) → Follows (halt {d = d} {A = A} o)
  unfolding halt
  halt-Follows o = record { follow = λ c. stays }

  pub get_state-Follows : Follows (get_state {d = d})
  unfolding get_state
  get_state-Follows = record { follow = λ c. stays }

  pub ask-Follows :
      {A : Type 0} (f : d.services.World → A × d.services.World) → Follows (ask {d = d} f)
  unfolding ask
  ask-Follows f = record { follow = λ c. stays }

  pub on_state-Follows :
      {A : Type 0} (f : Clock → LoopState H → LoopState H × A)
      → ((t : Clock) (s : LoopState H) → Reaches d.setting s (f t s).0)
      → Follows (on_state {d = d} f)
  unfolding on_state
  on_state-Follows f h = record { follow = λ c. h (d.services.clock c.world).0 c.state }

  pub set_state-Follows :
      (f : LoopState H → LoopState H)
      → ((s : LoopState H) → Reaches d.setting s (f s))
      → Follows (set_state {d = d} f)
  unfolding set_state
  set_state-Follows f h = record { follow = λ c. h c.state }

  pub when-Follows : (b : Bool) {m : Action d (Unit {0})} → Follows m → Follows (when b m)
  unfolding when
  when-Follows true h = h
  when-Follows false h = pure-Follows tt

  pub if-Follows :
      {A : Type 0} (b : Bool) {m k : Action d A}
      → Follows m
      → Follows k
      → Follows (if b then m else k)
  if-Follows true h g = h
  if-Follows false h g = g

  pub emit-Follows : (e : AgentEvent H) → Follows (emit {d = d} e)
  unfolding emit
  emit-Follows e = record { follow = λ c. stays }

  pub fresh_id-Follows : Follows (fresh_id {d = d})
  unfolding fresh_id perform
  fresh_id-Follows = record {
    follow = λ c.
        moves stays epoch (
          books (record (books_of c.state) { emit_next = (fresh_id {d = d} c).1.state.emit_next }));
  }

  pub emit_error-Follows : (code message : String) → Follows (emit_error {d = d} code message)
  unfolding emit_error
  emit_error-Follows code message = emit-Follows _

  message_id-Follows : (o : Option ℕ) → Follows (message_id {d = d} o)
  unfolding message_id
  message_id-Follows (some id) = pure-Follows id
  message_id-Follows none =
      bind-Follows fresh_id-Follows λ id. bind-Follows (emit-Follows _) λ _. pure-Follows id

  pub emit_message_frames-Follows :
      (m : AssistantMessage H) (u : Option (Usage H)) → Follows (emit_message_frames {d = d} m u)
  unfolding emit_message_frames perform
  emit_message_frames-Follows m u = bind-Follows get_state-Follows λ s.
      bind-Follows
        (set_state-Follows _
          λ s. moves stays epoch (books (record (books_of s) { open_msg = none })))
        λ _.
          bind-Follows (message_id-Follows s.open_msg)
            λ id. bind-Follows (emit-Follows _) λ _. emit-Follows _

  pub emit_tool_starts-Follows : (cs : List (ToolCall H)) → Follows (emit_tool_starts {d = d} cs)
  unfolding emit_tool_starts
  emit_tool_starts-Follows [] = pure-Follows tt
  emit_tool_starts-Follows (c ∷ cs) = bind-Follows (emit-Follows _) λ _. emit_tool_starts-Follows cs

  sync_to-Reaches :
      (o : Option (List ℕ)) (c : Ctx d) → Reaches d.setting c.state (sync_to o c).1.state
  sync_to-Reaches none c = stays
  sync_to-Reaches (some file) c = elim (Bool-cases (leb (length c.state.items) c.synced)) [
    | inl e ↦ rw e stays
    | inr e ↦ rw e stays
  ]

  pub sync-Follows : Follows (sync {d = d})
  unfolding sync
  sync-Follows = record { follow = λ c. sync_to-Reaches c.writer c }

  try_sync-Follows : Follows (try_sync {d = d})
  unfolding try_sync sync
  try_sync-Follows = record { follow = λ c. sync_to-Reaches c.writer c }

  append_row-Follows : (k : ItemKind H) → Follows (append_row {d = d} k)
  unfolding perform
  append_row-Follows k = on_state-Follows _ λ t s. moves stays t (rows k)

  pub emit_run_end-Follows : (o : Outcome) → Follows (emit_run_end {d = d} o)
  unfolding emit_run_end
  emit_run_end-Follows o = emit-Follows _

  pub finish-Follows : (o : Outcome) → Follows (finish {d = d} o)
  unfolding finish perform
  finish-Follows o = bind-Follows get_state-Follows λ s.
      bind-Follows (set_state-Follows _ λ s. moves stays epoch (sticks _)) λ _.
        bind-Follows (append_row-Follows _) λ _. bind-Follows try_sync-Follows λ _.
          bind-Follows (emit-Follows _)
            λ _. bind-Follows (emit_run_end-Follows o) λ _. pure-Follows o

  emit_some-Follows : (o : Option (AgentEvent H)) → Follows (emit_some {d = d} o)
  emit_some-Follows none = pure-Follows tt
  emit_some-Follows (some e) = emit-Follows e

  pub record_row-Follows :
      (k : ItemKind H) (o : Option (AgentEvent H)) → Follows (record_row {d = d} k o)
  unfolding record_row
  record_row-Follows k o =
      bind-Follows (append_row-Follows k) λ _. bind-Follows sync-Follows λ _. emit_some-Follows o

  close_hop-Follows : (n : ℕ) → Follows (close_hop {d = d} n)
  unfolding close_hop
  close_hop-Follows n = bind-Follows get_state-Follows λ s.
      if-Follows (s.turn == n || n == 0) (pure-Follows tt)
        (bind-Follows sync-Follows λ _. bind-Follows (emit-Follows _) λ _. emit-Follows _)

  pub ask_verdict-Follows : Follows (ask_verdict {d = d})
  unfolding ask_verdict perform
  ask_verdict-Follows = on_state-Follows _ λ t s. moves stays t terminates

  pub done_if_parked-Follows : Follows (done_if_parked {d = d})
  unfolding done_if_parked
  done_if_parked-Follows =
      bind-Follows get_state-Follows λ s. if-Follows _ (halt-Follows _) (pure-Follows tt)

  settle_verdict-Follows : (n : ℕ) (v : PhaseVerdict) → Follows (settle_verdict {d = d} n v)
  settle_verdict-Follows n (returns o) = halt-Follows o
  settle_verdict-Follows n breaks = bind-Follows (close_hop-Follows n) λ _. done_if_parked-Follows
  settle_verdict-Follows n continues =
      bind-Follows (close_hop-Follows n) λ _. done_if_parked-Follows

  pub settle_terminal-Follows : (n : ℕ) → Follows (settle_terminal {d = d} n)
  unfolding settle_terminal
  settle_terminal-Follows n = bind-Follows ask_verdict-Follows (settle_verdict-Follows n)
