-- ===== src/Engine/Loop/Returns.antt =====
-- A run under a limit on its turns returns.
use kontext.Prelude.{
  ℕ, zero, suc, ◌+◌, ◌≤◌, ◌<◌, ◌≡◌, refl, inl, inr, Bool, true, false, List, [], ◌∷◌, Option, none,
  some, Text, pos, arith, length, ◌==◌, nat_eq, Bool-cases, if◌then◌else◌,
}
use kontext.Api.{Time}
use kontext.Result.{Output}
use kontext.Engine.RuntimeApi.{
  ToolCall, ToolDefinition, CompletionResponse, ContentBlock, ToolResult,
}
use kontext.Engine.Limits.{
  LimitViolation, check_before_tool_call, check_before_tool_batch, apply_tool_output,
}
use kontext.Engine.Outputs.{apply_tool_output-Kept}
use kontext.Engine.Loop.{
  Surroundings, Config, Machine, RunResult, Reply, answer, failure, TurnOutcome, paused, final,
  tool_batch, failed_turn, RunError, fail, new_loop_state, note, tools_closed, emit, started,
  provider_resolved, tools_resolved, tools_listed,
}
use kontext.Engine.Loop.Turn.{provider_turn}
use kontext.Engine.Loop.Batch.{
  execute_tool_batch, call_tools, batch, answered, call_tool, Rest as BlocksRest, Stopped,
}
use kontext.Engine.Loop.Run.{
  turns, finish, cleaned, emit_output, list_tools, after_turn, after_batch, Rest, with_tools,
  with_provider, run_config,
}
use kontext.Engine.Loop.Turns.{
  completions, outputs, Kept, Spent, At, Advances, at→spent, provider_turn-Advances,
}

-- A result, with at most n requests made and tool outputs within the limit.
abbrev pub Returns : Config → ℕ → Option (RunResult × Machine) → Type 0
Returns config n none = ⊥
Returns config n (some (r, m)) = Spent config n m.trace

abbrev Asked : Config → ℕ → RunResult × Machine → Type 0
Asked config n (r, m) = Spent config n m.trace

abbrev StillAt : Config → ℕ → Stopped → Type 0
StillAt config c (o, m) = At config c m

-- A limit is an int64.
abbrev pub InRange : Config → Type 0
InRange config =
    (l : ℕ) → config.limits.max_total_tool_output_bytes ≡ some (pos l) → l ≤ 9223372036854775807

if-Returns :
    (config : Config) (n : ℕ) (b : Bool) (x y : Option (RunResult × Machine))
    → Returns config n x
    → Returns config n y
    → Returns config n (if b then x else y)
if-Returns config n true x y hx hy = hx
if-Returns config n false x y hx hy = hy

module _ (env : Surroundings) (config : Config) (in_range : InRange config) where
  module _ (c : ℕ) where
    applied-Kept :
        (result : ToolResult) (m : Machine)
        → Kept config.limits.max_total_tool_output_bytes m.state.counters.total_tool_output_bytes
            (outputs m.trace)
        → let (applied, total) =
            apply_tool_output env.encoding config.limits result
              m.state.counters.total_tool_output_bytes in
          Kept config.limits.max_total_tool_output_bytes total
            (outputs m.trace + length applied.content)
    applied-Kept result m k l e =
        let (t, h) = k l e in
        rw t (
          apply_tool_output-Kept env.encoding config.limits result l (outputs m.trace) e
            (in_range l e) h)

    answered-StillAt :
        (rest : BlocksRest env config)
        → ((blocks : List ContentBlock) (m : Machine)
            → At config c m
            → StillAt config c (rest blocks m))
        → (id : Text) (t0 : Time) (blocks : List ContentBlock) (reply : Reply ToolResult)
        → (m : Machine) → At config c m
        → StillAt config c (answered env config rest id t0 blocks reply m)
    unfolding fail completions outputs
    answered-StillAt rest keeps id t0 blocks (failure e) m h = h
    answered-StillAt rest keeps id t0 blocks (answer result) m (t, (e, k)) =
        keeps _ _ (t, (e, applied-Kept result m k))

    call_tool-StillAt :
        (rest : BlocksRest env config)
        → ((blocks : List ContentBlock) (m : Machine)
            → At config c m
            → StillAt config c (rest blocks m))
        → (id : Text) (call : ToolCall) (blocks : List ContentBlock) (v : Option LimitViolation)
        → (m : Machine) → At config c m
        → StillAt config c (call_tool env config rest id call blocks v m)
    unfolding fail completions outputs
    call_tool-StillAt rest keeps id call blocks (some v) m h = h
    call_tool-StillAt rest keeps id call blocks none m h =
        answered-StillAt rest keeps id _ blocks _ _ h

    call_tools-StillAt :
        (id : Text) (calls : List ToolCall) (blocks : List ContentBlock) (m : Machine)
        → At config c m
        → StillAt config c (call_tools env config id calls blocks m)
    unfolding call_tools
    call_tools-StillAt id [] blocks m h = h
    call_tools-StillAt id (call ∷ calls) blocks m h =
        call_tool-StillAt (call_tools env config id calls) (call_tools-StillAt id calls) id call
          blocks (check_before_tool_call config.limits m.state.counters) m h

    batch-StillAt :
        (v : Option LimitViolation) (id : Text) (calls : List ToolCall) (m : Machine)
        → At config c m
        → StillAt config c (batch env config v id calls m)
    unfolding fail completions outputs
    batch-StillAt (some v) id calls m h = h
    batch-StillAt none id calls m h = call_tools-StillAt id calls [] m h

  cleaned-Asked :
      (n : ℕ) (e : Option RunError) (r : RunResult) (m : Machine)
      → Spent config n m.trace
      → Asked config n (cleaned env config e r m)
  unfolding fail completions outputs
  cleaned-Asked n none r m h = h
  cleaned-Asked n (some e) r m h = elim (Bool-cases (r.exit_code == 0)) [
    | inl b ↦ rw b h
    | inr b ↦ rw b h
  ]

  finish-Asked :
      (n : ℕ) (r : RunResult) (m : Machine)
      → Spent config n m.trace
      → Asked config n (finish env config (r, m))
  unfolding finish completions outputs
  finish-Asked n r m h = cleaned-Asked n (env.close m.trace) r (note tools_closed m) h

  output-Asked :
      (n : ℕ) (o : Option Output) (value : Text) (m : Machine)
      → Spent config n m.trace
      → Spent config n (emit_output o value m).trace
  unfolding completions outputs
  output-Asked n none value m h = h
  output-Asked n (some o) value m h = h

  after_batch-Returns :
      (n c : ℕ) (rest : Rest env config)
      → c ≤ n
      → ((m : Machine) → At config c m → Returns config n (rest m))
      → (s : Stopped) → StillAt config c s
      → Returns config n (after_batch env config rest s)
  after_batch-Returns n c rest le goes (some r, m) h =
      finish-Asked n r m (at→spent config n c m le h)
  after_batch-Returns n c rest le goes (none, m) h = goes m h

  execute_tool_batch-StillAt :
      (c : ℕ) (r : CompletionResponse) (calls : List ToolCall) (m : Machine)
      → At config c m
      → StillAt config c (execute_tool_batch env config r calls m)
  unfolding execute_tool_batch
  execute_tool_batch-StillAt c r calls m h =
      batch-StillAt c (check_before_tool_batch config.limits m.state.counters (pos (length calls)))
        r.request_id calls m h

  after_turn-Returns :
      (n c : ℕ) (rest : Rest env config)
      → ((m : Machine) → At config (suc c) m → suc c ≤ n → Returns config n (rest m))
      → (o : TurnOutcome × Machine) → Advances config n c o
      → Returns config n (after_turn env config rest o)
  after_turn-Returns n c rest goes (paused, m) (le, h) = goes m h le
  after_turn-Returns n c rest goes (tool_batch r calls, m) (le, h) =
      after_batch-Returns n (suc c) rest le (λ m' h'. goes m' h' le) _
        (execute_tool_batch-StillAt (suc c) r calls m h)
  after_turn-Returns n c rest goes (final r result, m) h =
      output-Asked n _ _ _ (finish-Asked n result m h)
  after_turn-Returns n c rest goes (failed_turn result, m) h = finish-Asked n result m h

module _ (env : Surroundings) (config : Config) (n : ℕ)
    (limited : config.limits.max_turns ≡ some (pos n)) (small : n ≤ 2147483647)
    (in_range : InRange config) where
  zero-Spent : (m : Machine) → At config 0 m → Spent config n m.trace
  zero-Spent m h = at→spent config n 0 m (omega arith) h

  turns-Returns :
      (fuel c : ℕ) (definitions : List ToolDefinition) (m : Machine)
      → c ≤ n
      → n < c + fuel
      → At config c m
      → Returns config n (turns env config fuel definitions m)
  unfolding turns
  turns-Returns zero c definitions m le enough h = absurd (omega arith)
  turns-Returns (suc fuel) c definitions m le enough h =
      after_turn-Returns env config in_range n c (turns env config fuel definitions)
        (λ m' h' lt. turns-Returns fuel (suc c) definitions m' lt (omega arith) h')
        (provider_turn env config definitions m)
        (provider_turn-Advances env config n limited small c definitions m le h)

  list_tools-At :
      (c : ℕ) (definitions : List ToolDefinition) (m : Machine)
      → At config c m
      → At config c (list_tools definitions m)
  unfolding completions outputs
  list_tools-At c [] m h = h
  list_tools-At c (d ∷ ds) m h = h

  with_tools-Returns :
      (fuel : ℕ) (e : Option RunError) (b : Bool) (m : Machine)
      → n < fuel
      → At config 0 m
      → Returns config n (with_tools env config fuel e b m)
  unfolding fail completions outputs
  with_tools-Returns fuel (some e) true m enough h =
      finish-Asked env config in_range n _ _ (zero-Spent m h)
  with_tools-Returns fuel (some e) false m enough h = zero-Spent m h
  with_tools-Returns fuel none true m enough h =
      turns-Returns fuel 0 (env.definitions m.trace) _ (omega arith) (omega arith)
        (list_tools-At 0 (env.definitions m.trace) (note tools_listed m) h)
  with_tools-Returns fuel none false m enough h = zero-Spent m h

  with_provider-Returns :
      (fuel : ℕ) (e : Option RunError) (m : Machine)
      → n < fuel
      → At config 0 m
      → Returns config n (with_provider env config fuel e m)
  unfolding fail completions outputs
  with_provider-Returns fuel (some e) m enough h = zero-Spent m h
  with_provider-Returns fuel none m enough h =
      with_tools-Returns fuel (env.resolve_tools m.trace).error
        (env.resolve_tools m.trace).has_executor (note tools_resolved m) enough h

  -- With a limit on the turns that an int32 can hold, a run returns a result within one turn more than the
  -- limit, and it has asked the provider at most as often as the limit says.
  pub run_config-Returns : (fuel : ℕ) → n < fuel → Returns config n (run_config env config fuel)
  unfolding run_config new_loop_state fail completions outputs
  run_config-Returns fuel enough =
      let m =
        emit (started config.run_name config.agent_name config.provider config.model)
          (new_loop_state env config.goal []) in
      let fresh : At config 0 m = (refl, (refl, λ l h. (refl, omega arith))) in
      if-Returns config n env.has_tool_resolver _ _
        (with_provider-Returns fuel (env.resolve m.trace) (note provider_resolved m) enough fresh)
        (zero-Spent m fresh)
