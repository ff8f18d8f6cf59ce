-- ===== src/Loop/Run.antt =====
-- crates/agent-loop/src/run.rs: what `RunCtx` holds and the world that it runs in. Its children are
-- its methods.
pub mod Frames
pub mod Closing
pub mod Proof
pub mod Opening
pub mod Tools
pub mod Round
pub mod Drive
pub mod Follows
pub mod Durable
pub mod Valid
use rof_harness.Base.{ℕ, String, Bool, true, false, Option, List, ◌⊎◌}
use rof_harness.Host.{Host}
use rof_harness.Bets.{Claim, CommitVerdict}
use rof_harness.Event.Emitter.{Emitter}
use rof_harness.Log.Types.{Codec, IoResult}
use rof_harness.Provider.{Response}
use rof_harness.Provider.Errors.{LlmError}
use rof_harness.Provider.Request.{Request}
use rof_harness.Registry.{Registry, Tool}
use rof_harness.Tools.{Invocation, ToolError, ToolOutcome}
use rof_harness.Loop.Ops.{Setting}
use rof_harness.Loop.Request.{Files, FromValue}
use rof_harness.Loop.State.{LoopState}
use rof_harness.Loop.Types.{Clock, Outcome, PhaseVerdict}

pub record PatchText : Type 0 where
  pub text : String
  pub truncated : Bool

-- What a run borrows and cannot decide: the clocks, the cancellation tokens, the file system, the
-- provider, the tools, the snapshot service and the bets hook. Each call moves the world on.
pub record Services (H : Host) : Type 1 where
  pub World : Type 0
  pub clock : World → Clock × World
  -- `cancel.is_cancelled()` on the caller's token, `token.is_cancelled()`, `token.cancel()`.
  pub is_cancelled : World → Bool × World
  pub token_cancelled : World → H.Token → Bool
  pub cancel_token : World → H.Token → World
  -- The bytes of a log file, or the error of opening it; and a write behind the given bytes, which
  -- answers with the bytes that then stand there and whether it succeeded.
  pub read_log : World → String → IoResult (Option (List ℕ))
  pub write_all : World → List ℕ → List ℕ → List ℕ × Bool × World
  -- `complete` raced against the caller's token: nothing where the token won.
  pub complete : World → String → Request H → Option (LlmError H ⊎ Response H) × World
  -- `execute` raced in the same way.
  pub execute : World → Tool H → Invocation H → H.Token → Option (ToolError ⊎ ToolOutcome) × World
  pub on_step_head : World → ℕ → PhaseVerdict × World
  pub on_step : World → PhaseVerdict × World
  pub on_post_batch : World → Claim → List (String × Bool) → CommitVerdict × World
  -- `snapshot::TreeService`.
  pub Diff : Type 0
  pub ensure : World → IoResult (Unit {0}) × World
  pub baseline : World → IoResult (Unit {0}) × World
  pub rollback : World → IoResult (Unit {0}) × World
  pub restore_hunks : World → List String → IoResult (Unit {0}) × World
  pub diff : World → IoResult Diff × World
  pub patch : World → Diff → IoResult PatchText × World
  -- The proof command with its arguments, killed after a minute: whether it succeeded.
  pub prove : World → String → List String → Bool × World
  pub files : World → Files

-- What does not change during a run.
pub record Driver (H : Host) : Type 1 where
  pub services : Services H
  pub setting : Setting H
  pub registry : Registry H
  pub agent : String
  pub workdir : String
  pub root : H.Token
  pub codec : Codec H
  pub from_value : FromValue H
  -- `{:?}` of a text and of an error.
  pub quote : String → String
  pub debug : LlmError H → String

module _ {H : Host} where
  pub record Ctx (d : Driver H) : Type 0 where
    pub state : LoopState H
    pub emitter : Emitter H
    -- The bytes behind the writer.
    pub writer : Option (List ℕ)
    pub synced : ℕ
    pub run_id : ℕ
    -- Only of the model: how many rows were synced when each frame so far was emitted.
    pub synced_at : List ℕ
    pub world : d.services.World

-- `Result<A, Outcome>`: an exit is terminal.
pub data Flow (A : Type 0) : Type 0 where
  next : A → Flow A
  exit : Outcome → Flow A

module _ {H : Host} where
  abbrev pub Action : Driver H → Type 0 → Type 0
  Action d A = Ctx d → Flow A × Ctx d

module _ {H : Host} {d : Driver H} where
  unfoldable pub pure : {A : Type 0} → A → Action d A
  pure a c = (next a, c)

  unfoldable pub halt : {A : Type 0} → Outcome → Action d A
  halt o c = (exit o, c)

  -- What follows an action: its answer goes on, its exit stands.
  unfoldable pub flow : {A B : Type 0} → (A → Action d B) → Flow A × Ctx d → Flow B × Ctx d
  flow f (next a, c) = f a c
  flow f (exit o, c) = (exit o, c)

  infixl 5 ◌>>=◌ ◌>>◌
  unfoldable pub ◌>>=◌ : {A B : Type 0} → Action d A → (A → Action d B) → Action d B
  unfolding flow
  m >>= f = λ c. flow f (m c)

  abbrev pub ◌>>◌ : {A B : Type 0} → Action d A → Action d B → Action d B
  m >> k = m >>= λ _. k

  unfoldable pub get_state : Action d (LoopState H)
  get_state c = (next c.state, c)

  -- A method of the state, at an instant.
  unfoldable pub on_state : {A : Type 0} → (Clock → LoopState H → LoopState H × A) → Action d A
  on_state f c =
      let (t, w) = d.services.clock c.world in
      let (s, a) = f t c.state in (next a, record c { state = s; world = w })

  unfoldable pub set_state : (LoopState H → LoopState H) → Action d (Unit {0})
  set_state f c = (next tt, record c { state = f c.state })

  -- A call of a service.
  unfoldable pub ask : {A : Type 0} → (d.services.World → A × d.services.World) → Action d A
  ask f c = let (a, w) = f c.world in (next a, record c { world = w })

  unfoldable pub when : Bool → Action d (Unit {0}) → Action d (Unit {0})
  unfolding pure
  when true m = m
  when false m = pure tt
