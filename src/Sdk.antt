-- ===== src/Sdk.antt =====
-- src/kai_daemon/sdk.py: the workflow context and the decorator `sdk_tool`, with the entries of
-- `ToolCallLogger` (src/kai_daemon/state/observability.py).
pub mod Permitted
mod Tests
use kai_daemon.Base.{
  String, Bool, true, false, not, ◌||◌, Option, none, some, List, [], ◌∷◌, ◌++◌, ◌==◌,
  if◌then◌else◌, ltb, length, take,
}
use Prim.Native.String.{◌++◌ as ◌<>◌}
use Prim.Native.Char.{Char}
use kai_daemon.Engine.Types.{WorkflowContext}

-- An exception: `ToolPermissionError`, or another, with its type and message.
pub data Error : Type 0 where
  permission_error : String → Error
  other_error : String → String → Error

pub data Result (V : Type 0) : Type 0 where
  returned : V → Result V
  raised : Error → Result V

-- The argument of a call as `_to_loggable` meets it: a callable, a value that `json.dumps` takes, a
-- Pydantic model with its dump, a model whose dump raises, or another value with its `repr`.
pub data Argument (J : Type 0) : Type 0 where
  callable : Argument J
  json : J → Argument J
  model : J → Argument J
  broken_model : Argument J
  opaque : List Char → Argument J

-- What `inputs` holds of an argument: a JSON value, or a `repr` cut to 500 characters.
pub data Loggable (J : Type 0) : Type 0 where
  value : J → Loggable J
  cut : List Char → Loggable J

pub data ToolOutcome : Type 0 where
  success error permission_denied : ToolOutcome

pub record ToolCallEntry (J : Type 0) : Type 0 where
  pub workflow_id : String
  pub tool : String
  pub inputs : List (String × Loggable J)
  pub outcome : ToolOutcome
  pub error_msg : Option String

-- `_ctx_var`, the log, whether it can be written, and the warnings of calls that it cannot. `state`
-- is what the bodies of the tools act on.
pub record World (J S : Type 0) : Type 0 where
  pub ctx : Option WorkflowContext
  pub log : List (ToolCallEntry J)
  pub writable : Bool
  pub warned : List (ToolCallEntry J)
  pub state : S

module _ {J : Type 0} where
  -- `_to_loggable`: none where it raises
  unfoldable pub to_loggable : Argument J → Option (Loggable J)
  to_loggable callable = none
  to_loggable (json j) = some (value j)
  to_loggable (model j) = some (value j)
  to_loggable broken_model = none
  to_loggable (opaque text) = some (cut (if ltb 500 (length text) then take 500 text else text))

  abbrev pub add_input :
      String
      → Option (Loggable J)
      → Option (List (String × Loggable J))
      → Option (List (String × Loggable J))
  add_input k (some v) (some rest) = some ((k, v) ∷ rest)
  add_input k (some v) none = none
  add_input k none rest = none

  -- the comprehension of `_serialise_inputs`, which leaves callables out
  unfoldable pub log_arguments : List (String × Argument J) → Option (List (String × Loggable J))
  unfolding to_loggable
  log_arguments [] = some []
  log_arguments ((k, callable) ∷ rest) = log_arguments rest
  log_arguments ((k, json j) ∷ rest) = add_input k (to_loggable (json j)) (log_arguments rest)
  log_arguments ((k, model j) ∷ rest) = add_input k (to_loggable (model j)) (log_arguments rest)
  log_arguments ((k, broken_model) ∷ rest) =
      add_input k (to_loggable broken_model) (log_arguments rest)
  log_arguments ((k, opaque text) ∷ rest) =
      add_input k (to_loggable (opaque text)) (log_arguments rest)

  -- `_serialise_inputs` on what `sig.bind` and `apply_defaults` give, none where they raise
  unfoldable pub serialise_inputs : Option (List (String × Argument J)) → List (String × Loggable J)
  unfolding log_arguments
  serialise_inputs none = []
  serialise_inputs (some bound) = elim (log_arguments bound) [ none ↦ [] | some inputs ↦ inputs ]

-- `name in ctx.allowed_tools`
unfoldable pub is_allowed : String → List String → Bool
is_allowed name [] = false
is_allowed name (t ∷ ts) = (t == name) || is_allowed name ts

abbrev pub denied_msg : String → String → String
denied_msg name workflow_id =
    "Tool '" <> name <> "' is not permitted for workflow '" <> workflow_id <> "'"

module _ {J S : Type 0} where
  -- `_logger().append(entry)` in its `try`: a log that cannot be written leaves a warning.
  unfoldable pub append_entry : ToolCallEntry J → World J S → World J S
  append_entry entry w =
      if w.writable
      then record w { log = w.log ++ entry ∷ [] }
      else record w { warned = w.warned ++ entry ∷ [] }

module _ {J S V : Type 0} where
  -- the wrapper once the tool's own function has ended
  unfoldable pub log_result :
      WorkflowContext
      → String
      → List (String × Loggable J)
      → Result V × World J S
      → Result V × World J S
  unfolding append_entry
  log_result ctx name inputs (returned v, w) = (
    returned v,
    append_entry
        (record {
          workflow_id = ctx.workflow_id;
          tool = name;
          inputs = inputs;
          outcome = success;
          error_msg = none;
        })
        w,
  )
  log_result ctx name inputs (raised (permission_error msg), w) = (raised (permission_error msg), w)
  log_result ctx name inputs (raised (other_error type msg), w) = (
    raised (other_error type msg),
    append_entry
        (record {
          workflow_id = ctx.workflow_id;
          tool = name;
          inputs = inputs;
          outcome = error;
          error_msg = some (type <> ": " <> msg);
        })
        w,
  )

  -- the permission check under a context
  unfoldable pub deny : WorkflowContext → String → World J S → Result V × World J S
  unfolding append_entry
  deny ctx name w = (
    raised (permission_error (denied_msg name ctx.workflow_id)),
    append_entry
        (record {
          workflow_id = ctx.workflow_id;
          tool = name;
          inputs = [];
          outcome = permission_denied;
          error_msg = some (denied_msg name ctx.workflow_id);
        })
        w,
  )

  -- `wrapper`, the function that `sdk_tool(name)` makes of `fn`
  unfoldable pub call_tool :
      String
      → Option (List (String × Argument J))
      → (World J S → Result V × World J S)
      → World J S
      → Result V × World J S
  unfolding is_allowed deny log_result serialise_inputs
  call_tool name bound fn w = elim w.ctx [
    | none ↦ fn w
    | some ctx ↦
        if is_allowed name ctx.allowed_tools
        then log_result ctx name (serialise_inputs bound) (fn w)
        else deny ctx name w
  ]

-- The code of a workflow or of a tool's own function, as far as it uses tools: it ends, it acts on
-- the state, or it calls a tool and goes on with what the call returned or raised.
pub data Code (J S V : Type 0) : Type 0 where
  ends : Result V → Code J S V
  acts : (S → S) → Code J S V → Code J S V
  calls :
      String
      → Option (List (String × Argument J))
      → Code J S V
      → (Result V → Code J S V)
      → Code J S V

module _ {J S V : Type 0} where
  unfoldable pub run : Code J S V → World J S → Result V × World J S
  unfolding call_tool
  run (ends r) w = (r, w)
  run (acts f code) w = run code (record w { state = f w.state })
  run (calls name bound fn then_on) w =
      let (r, w') = call_tool name bound (run fn) w in run (then_on r) w'
