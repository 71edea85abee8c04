-- ===== src/Sdk/Permitted.antt =====
-- What the permission check keeps from a workflow, and what its log says of it.
use kai_daemon.Base.{
  ◌≡◌, ◌↔◌, refl, sym, ap, ◌∙◌, subst, String, true, false, Option, some, List, [], ◌∷◌, ◌++◌, All,
  All-append, Bool-cases, inl, inr, arith,
}
use mathlib.Core.List.{append_assoc, append-nil}
use kai_daemon.Engine.Types.{WorkflowContext}
use kai_daemon.Sdk.{
  permission_error, other_error, Result, returned, raised, Argument, permission_denied,
  ToolCallEntry, World, serialise_inputs, is_allowed, append_entry, log_result, deny, call_tool,
  Code, ends, acts, calls, run,
}

module _ {J : Type 0} where
  -- The entry names the workflow, and tells the truth about the permission.
  pub record IsHonest (ctx : WorkflowContext) (entry : ToolCallEntry J) : Type 0 where
    pub names_workflow : entry.workflow_id ≡ ctx.workflow_id
    pub denied_iff :
        (entry.outcome ≡ permission_denied) ↔ (is_allowed entry.tool ctx.allowed_tools ≡ false)

module _ {J S : Type 0} where
  -- The context is the same, and the log has only new entries.
  pub record Logged (ctx : WorkflowContext) (w w' : World J S) : Type 0 where
    pub same_ctx : w'.ctx ≡ w.ctx
    pub entries : (new : List (ToolCallEntry J)) × (w'.log ≡ w.log ++ new) × All (IsHonest ctx) new

  Logged-trans :
      (ctx : WorkflowContext) (a b c : World J S) → Logged ctx a b → Logged ctx b c → Logged ctx a c
  Logged-trans ctx a b c f g =
      let (xs, e, hx) = f.entries in
      let (ys, d, hy) = g.entries in
      record {
        same_ctx = g.same_ctx ∙ f.same_ctx;
        entries = (
          xs ++ ys,
          d ∙ ap (λ l. l ++ ys) e ∙ append_assoc a.log xs ys,
          All-append (IsHonest ctx) xs ys hx hy,
        );
      }

  append-Logged :
      (ctx : WorkflowContext) (entry : ToolCallEntry J) (w : World J S)
      → IsHonest ctx entry
      → Logged ctx w (append_entry entry w)
  unfolding append_entry
  append-Logged ctx entry w h = elim (Bool-cases w.writable) [
    | inl can ↦ rw can (record { same_ctx = refl; entries = (entry ∷ [], refl, (h, tt)) })
    | inr cannot ↦ rw cannot (record { same_ctx = refl; entries = ([], sym (append-nil _), tt) })
  ]

  deny-Logged :
      (V : Type 0) (ctx : WorkflowContext) (name : String) (w : World J S)
      → is_allowed name ctx.allowed_tools ≡ false
      → Logged ctx w (deny {V = V} ctx name w).1
  unfolding deny
  deny-Logged V ctx name w refused =
      append-Logged ctx _ w
        (record { names_workflow = refl; denied_iff = (λ _. refused, λ _. refl) })

module _ {J S V : Type 0} where
  -- The two programs are the same but for the bodies of tools that are not allowed.
  pub data Agrees (allowed : List String) : Code J S V → Code J S V → Type 0 where
    both_end : (r : Result V) → Agrees allowed (ends r) (ends r)
    both_act :
        (f : S → S) (c c' : Code J S V)
        → Agrees allowed c c'
        → Agrees allowed (acts f c) (acts f c')
    both_call :
        (name : String) (bound : Option (List (String × Argument J))) (body body' : Code J S V)
        (k k' : Result V → Code J S V)
        → (is_allowed name allowed ≡ true → Agrees allowed body body')
        → ((r : Result V) → Agrees allowed (k r) (k' r))
        → Agrees allowed (calls name bound body k) (calls name bound body' k')

  log_result-Logged :
      (ctx : WorkflowContext) (name : String) (bound : Option (List (String × Argument J)))
      (r : Result V) (w : World J S)
      → is_allowed name ctx.allowed_tools ≡ true
      → Logged ctx w (log_result ctx name (serialise_inputs bound) (r, w)).1
  unfolding log_result
  log_result-Logged ctx name bound (returned v) w ok =
      append-Logged ctx _ w (record { names_workflow = refl; denied_iff = (λ e. cc, λ e. cc) })
  log_result-Logged ctx name bound (raised (permission_error msg)) w ok = record {
    same_ctx = refl;
    entries = ([], sym (append-nil _), tt);
  }
  log_result-Logged ctx name bound (raised (other_error type msg)) w ok =
      append-Logged ctx _ w (record { names_workflow = refl; denied_iff = (λ e. cc, λ e. cc) })

  call_tool_allowed :
      (ctx : WorkflowContext) (name : String) (bound : Option (List (String × Argument J)))
      (fn : World J S → Result V × World J S) (w : World J S)
      → w.ctx ≡ some ctx
      → is_allowed name ctx.allowed_tools ≡ true
      → call_tool name bound fn w ≡ log_result ctx name (serialise_inputs bound) (fn w)
  unfolding call_tool
  call_tool_allowed ctx name bound fn w e ok = ground arith

  call_tool_refused :
      (ctx : WorkflowContext) (name : String) (bound : Option (List (String × Argument J)))
      (fn : World J S → Result V × World J S) (w : World J S)
      → w.ctx ≡ some ctx
      → is_allowed name ctx.allowed_tools ≡ false
      → call_tool name bound fn w ≡ deny ctx name w
  unfolding call_tool
  call_tool_refused ctx name bound fn w e refused = ground arith

  call_tool-Logged :
      (ctx : WorkflowContext) (name : String) (bound : Option (List (String × Argument J)))
      (fn : World J S → Result V × World J S) (w : World J S)
      → w.ctx ≡ some ctx
      → Logged ctx w (fn w).1
      → Logged ctx w (call_tool name bound fn w).1
  call_tool-Logged ctx name bound fn w e h = elim (Bool-cases (is_allowed name ctx.allowed_tools)) [
    | inl ok ↦
        subst (λ o. Logged ctx w o.1) (sym (call_tool_allowed ctx name bound fn w e ok))
          (Logged-trans ctx w (fn w).1 _ h (log_result-Logged ctx name bound (fn w).0 (fn w).1 ok))
    | inr refused ↦
        subst (λ o. Logged ctx w o.1) (sym (call_tool_refused ctx name bound fn w e refused))
          (deny-Logged V ctx name w refused)
  ]

  -- Under a context, the code of a workflow, whatever it catches and however its tools call each
  -- other, leaves the context as it is and only appends to the log. Each new entry names the
  -- workflow, and it says `permission_denied` exactly where its tool is not allowed.
  pub run-Logged :
      (ctx : WorkflowContext) (code : Code J S V) (w : World J S)
      → w.ctx ≡ some ctx
      → Logged ctx w (run code w).1
  unfolding run
  run-Logged ctx (ends r) w e = record { same_ctx = refl; entries = ([], sym (append-nil _), tt) }
  run-Logged ctx (acts f code) w e =
      let rest = run-Logged ctx code (record w { state = f w.state }) e in
      record { same_ctx = rest.same_ctx; entries = rest.entries }
  run-Logged ctx (calls name bound body k) w e =
      let o = call_tool name bound (run body) w in
      let called = call_tool-Logged ctx name bound (run body) w e (run-Logged ctx body w e) in
      Logged-trans ctx w o.1 (run (k o.0) o.1).1 called
        (run-Logged ctx (k o.0) o.1 (called.same_ctx ∙ e))

  call_tool-Agrees :
      (ctx : WorkflowContext) (name : String) (bound : Option (List (String × Argument J)))
      (fn fn' : World J S → Result V × World J S) (w : World J S)
      → w.ctx ≡ some ctx
      → (is_allowed name ctx.allowed_tools ≡ true → fn w ≡ fn' w)
      → call_tool name bound fn w ≡ call_tool name bound fn' w
  call_tool-Agrees ctx name bound fn fn' w e h =
      elim (Bool-cases (is_allowed name ctx.allowed_tools)) [
        | inl ok ↦
            call_tool_allowed ctx name bound fn w e ok
            ∙ ap (log_result ctx name (serialise_inputs bound)) (h ok)
            ∙ sym (call_tool_allowed ctx name bound fn' w e ok)
        | inr refused ↦
            call_tool_refused ctx name bound fn w e refused
            ∙ sym (call_tool_refused ctx name bound fn' w e refused)
      ]

  -- Under a context, a tool that is not allowed is never entered: the code of a workflow gives the
  -- same result, log and state whatever the functions of such tools would do.
  pub run-Agrees :
      (ctx : WorkflowContext) (c c' : Code J S V) (w : World J S)
      → w.ctx ≡ some ctx
      → Agrees ctx.allowed_tools c c'
      → run c w ≡ run c' w
  unfolding run
  run-Agrees ctx c c' w e (both_end r) = refl
  run-Agrees ctx c c' w e (both_act f d d' h) = run-Agrees ctx d d' _ e h
  run-Agrees ctx c c' w e (both_call name bound body body' k k' h hk) =
      let o = call_tool name bound (run body') w in
      let called = call_tool-Logged ctx name bound (run body') w e (run-Logged ctx body' w e) in
      ap (λ o'. run (k o'.0) o'.1)
        (call_tool-Agrees ctx name bound (run body) (run body') w e
          (λ ok. run-Agrees ctx body body' w e (h ok)))
      ∙ run-Agrees ctx (k o.0) (k' o.0) o.1 (called.same_ctx ∙ e) (hk o.0)
