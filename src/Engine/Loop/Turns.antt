-- ===== src/Engine/Loop/Turns.antt =====
-- How often a run asks the provider, under a limit on its turns.
use kontext.Prelude.{
  ℕ, suc, ◌+◌, ◌≤◌, ◌≡◌, refl, inl, inr, false, List, [], ◌∷◌, Option, none, some, ℤ, pos, length,
  leb, arith, Bool-cases, nat_beq, nat_eq, ◌-ℤ◌, int_eq, negsuc,
}
use kontext.Api.{Time, Message as Report}
use kontext.Result.{Usage as ReportedUsage}
use kontext.Engine.RuntimeApi.{ToolCall, ToolDefinition, CompletionResponse, StopReason}
use kontext.Engine.Limits.{LimitViolation, reached, check_before_provider_turn}
use kontext.Engine.Loop.{
  Surroundings, Config, Machine, Trace, Reply, answer, failure, TurnOutcome, paused, final,
  tool_batch, failed_turn, completed, emitted, tool_completed, next32, fail,
}
use kontext.Engine.Loop.Turn.{
  provider_turn, answered, validated, within, is_tool_use, with_calls, stopped, emit_usage,
}

-- The requests that a trace has made.
unfoldable pub completions : Trace → ℕ
completions [] = 0
completions (completed r ∷ t) = suc (completions t)
completions (e ∷ t) = completions t

-- The bytes of the outputs that tools gave, as they were passed on.
unfoldable pub outputs : Trace → ℕ
outputs [] = 0
outputs (emitted (tool_completed r count millis output) ∷ t) = outputs t + length r.content
outputs (e ∷ t) = outputs t

-- Where there is a limit, the total is what the trace has, and it is within the limit.
abbrev pub Kept : Option ℤ → ℤ → ℕ → Type 0
Kept limit total out = (l : ℕ) → limit ≡ some (pos l) → (total ≡ pos out) × (out ≤ l)

-- At most n requests, and outputs within the limit.
abbrev pub Spent : Config → ℕ → Trace → Type 0
Spent config n t =
    (completions t ≤ n)
    × ((l : ℕ) → config.limits.max_total_tool_output_bytes ≡ some (pos l) → outputs t ≤ l)

-- After c requests, the counters being true.
abbrev pub At : Config → ℕ → Machine → Type 0
At config c m =
    (m.state.counters.turns ≡ pos c)
    × ((completions m.trace ≡ c)
        × Kept config.limits.max_total_tool_output_bytes m.state.counters.total_tool_output_bytes
            (outputs m.trace))

-- A turn that goes on has made one request more, within n; one that ends leaves what is allowed.
abbrev pub Advances : Config → ℕ → ℕ → TurnOutcome × Machine → Type 0
Advances config n c (paused, m) = (suc c ≤ n) × At config (suc c) m
Advances config n c (tool_batch r calls, m) = (suc c ≤ n) × At config (suc c) m
Advances config n c (final r result, m) = Spent config n m.trace
Advances config n c (failed_turn result, m) = Spent config n m.trace

pub at→spent :
    (config : Config) (n c : ℕ) (m : Machine) → c ≤ n → At config c m → Spent config n m.trace
at→spent config n c m le (t, (e, k)) = (rw e le, λ l h. (k l h).1)

module _ (env : Surroundings) (config : Config) (n c : ℕ) (c<n : suc c ≤ n) where
  ends : (m : Machine) → At config (suc c) m → Spent config n m.trace
  ends m h = at→spent config n (suc c) m c<n h

  stopped-Advances :
      (r : CompletionResponse) (reason : StopReason) (m : Machine)
      → At config (suc c) m
      → Advances config n c (stopped env config r reason m)
  unfolding fail completions outputs
  stopped-Advances r StopReason.pause_turn m h = (c<n, h)
  stopped-Advances r StopReason.end_turn m h = ends m h
  stopped-Advances r StopReason.stop_sequence m h = ends m h
  stopped-Advances r StopReason.max_tokens m h = ends m h
  stopped-Advances r StopReason.tool_use m h = ends m h
  stopped-Advances r StopReason.content_filter m h = ends m h
  stopped-Advances r StopReason.refusal m h = ends m h
  stopped-Advances r StopReason.model_context_window_exceeded m h = ends m h
  stopped-Advances r (StopReason.other t) m h = ends m h

  with_calls-Advances :
      (r : CompletionResponse) (calls : List ToolCall) (m : Machine)
      → At config (suc c) m
      → Advances config n c (with_calls env config r calls m)
  unfolding fail completions outputs
  with_calls-Advances r [] m h = stopped-Advances r r.stop_reason m h
  with_calls-Advances r (call ∷ calls) m h = elim (Bool-cases (is_tool_use r.stop_reason)) [
    | inl b ↦ rw b (c<n, h)
    | inr b ↦ rw b (ends m h)
  ]

  within-Advances :
      (v : Option LimitViolation) (r : CompletionResponse) (m : Machine)
      → At config (suc c) m
      → Advances config n c (within env config v r m)
  unfolding fail completions outputs
  within-Advances (some v) r m h = ends m h
  within-Advances none r m h = with_calls-Advances r _ _ h

  emit_usage-At :
      (u : Option ReportedUsage) (m : Machine)
      → At config (suc c) m
      → At config (suc c) (emit_usage u m)
  unfolding completions outputs
  emit_usage-At none m h = h
  emit_usage-At (some u) m h = h

  validated-Advances :
      (report : Option Report) (t0 : Time) (r : CompletionResponse) (m : Machine)
      → At config (suc c) m
      → Advances config n c (validated env config report t0 r m)
  unfolding fail completions outputs
  validated-Advances (some report) t0 r m h = ends m h
  validated-Advances none t0 r m h = within-Advances _ r _ (emit_usage-At _ _ h)

  answered-Advances :
      (reply : Reply CompletionResponse) (t0 : Time) (m : Machine)
      → At config (suc c) m
      → Advances config n c (answered env config reply t0 m)
  unfolding fail completions outputs
  answered-Advances (failure e) t0 m h = ends m h
  answered-Advances (answer r) t0 m h = validated-Advances _ t0 r _ h

one_more : (c : ℕ) → pos c -ℤ negsuc 0 ≡ pos (suc c)
unfolding ◌-ℤ◌
one_more c = ground arith

within_limit : (n c : ℕ) → leb (n + 0) (c + 0) ≡ false → suc c ≤ n
within_limit n c b = ground arith

next32_small : (c n : ℕ) → suc c ≤ n → n ≤ 2147483647 → next32 (pos c) ≡ pos (suc c)
unfolding next32 ◌-ℤ◌
next32_small c n h k = elim (Bool-cases (nat_beq c 2147483647)) [
  | inl b ↦ let e : c ≡ 2147483647 = ground arith in absurd (omega arith)
  | inr b ↦ rw b (one_more c)
]

-- Below its limit, a counter is at most the limit after one more.
not_reached :
    (limit : Option ℤ) (value : ℤ) (n c : ℕ)
    → limit ≡ some (pos n)
    → value ≡ pos c
    → reached limit value ≡ false
    → suc c ≤ n
unfolding reached
not_reached limit value n c l v b =
    let b' : reached (some (pos n)) (pos c) ≡ false = cc in within_limit n c b'

module _ (env : Surroundings) (config : Config) (n : ℕ)
    (limited : config.limits.max_turns ≡ some (pos n)) (small : n ≤ 2147483647) where
  pub provider_turn-Advances :
      (c : ℕ) (definitions : List ToolDefinition) (m : Machine)
      → c ≤ n
      → At config c m
      → Advances config n c (provider_turn env config definitions m)
  unfolding provider_turn check_before_provider_turn completions outputs fail
  provider_turn-Advances c definitions m le (t, (e, k)) =
      elim (Bool-cases (reached config.limits.max_turns m.state.counters.turns)) [
        | inl b ↦ rw b (at→spent config n c m le (t, (e, k)))
        | inr b ↦ rw b (
            let lt = not_reached _ _ n c limited t b in
            answered-Advances env config n c lt _ _ _
              (rw t (next32_small c n lt small), (rw e refl, k)))
      ]
