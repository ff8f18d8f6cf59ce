-- ===== src/Event/Emitter.antt =====
-- crates/agent-event/src/emitter.rs. A listener is the answer to "did it panic on this event", which
-- may depend on all events before it, since a boxed `Fn` can keep a state of its own; a tap is the
-- bounded channel behind a `SyncSender`, with what its receiver has not read yet.
use Prim.Native.Nat.{max}
use rof_harness.Base.{ℕ, Bool, true, false, ◌||◌, List, [], ◌∷◌, ◌++◌, length, ltb, if◌then◌else◌}
use rof_harness.Host.{Host}
use rof_harness.Event.Types.{AgentEvent, error_event}

pub record Tap (H : Host) : Type 0 where
  pub capacity : ℕ
  pub queued : List (AgentEvent H)
  pub alive : Bool

-- The history before the event, and the event.
abbrev pub Listener : Host → Type 0
Listener H = List (AgentEvent H) → AgentEvent H → Bool

pub record Emitter (H : Host) : Type 0 where
  pub history : List (AgentEvent H)
  pub listeners : List (Listener H)
  pub taps : List (Tap H)

module _ {H : Host} where
  unfoldable pub new : Emitter H
  new = record { history = []; listeners = []; taps = [] }

  unfoldable pub on : Emitter H → Listener H → Emitter H
  on e listener = record e { listeners = e.listeners ++ listener ∷ [] }

  unfoldable pub tap : Emitter H → ℕ → Emitter H
  tap e capacity = record e { taps = e.taps ++ fresh ∷ [] }
    where
      fresh : Tap H
      fresh = record { capacity = max capacity 1; queued = []; alive = true }

  -- `try_send` to a tap whose receiver lives: a full channel drops the event.
  unfoldable pub try_send : AgentEvent H → Tap H → Tap H
  try_send event t =
      if ltb (length t.queued) t.capacity then record t { queued = t.queued ++ event ∷ [] } else t

  -- `taps.retain(…)`: a tap whose receiver is gone is removed.
  unfoldable pub deliver : AgentEvent H → List (Tap H) → List (Tap H)
  unfolding try_send
  deliver event [] = []
  deliver event (t ∷ ts) =
      let rest = deliver event ts in if t.alive then try_send event t ∷ rest else rest

  -- Every listener is called, also after one of them has panicked.
  unfoldable pub any_panics : List (AgentEvent H) → AgentEvent H → List (Listener H) → Bool
  any_panics past event [] = false
  any_panics past event (l ∷ ls) = l past event || any_panics past event ls

  abbrev pub listener_panic : AgentEvent H
  listener_panic =
      error_event
        (record { code = "listener-panic"; message = "a listener panicked handling an event" })

  -- The body of `emit_inner` up to its recursive call.
  unfoldable pub record_and_fan_out : Emitter H → AgentEvent H → Emitter H
  record_and_fan_out e event = record e {
    history = e.history ++ event ∷ [];
    taps = deliver event e.taps;
  }

  -- `emit_inner(event, true)`: the recursion guard, which never recurses.
  unfoldable pub emit_error : Emitter H → AgentEvent H → Emitter H
  emit_error e event = record_and_fan_out e event

  -- `emit_inner(event, false)`.
  unfoldable pub emit : Emitter H → AgentEvent H → Emitter H
  unfolding record_and_fan_out emit_error
  emit e event =
      let next = record_and_fan_out e event in
      if any_panics e.history event e.listeners then emit_error next listener_panic else next

  unfoldable pub emit_all : Emitter H → List (AgentEvent H) → Emitter H
  emit_all e [] = e
  emit_all e (x ∷ xs) = emit_all (emit e x) xs
