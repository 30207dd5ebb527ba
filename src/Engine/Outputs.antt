-- ===== src/Engine/Outputs.antt =====
-- The bounds that limits.go puts on what tools return.
use kontext.Prelude.{
  ℕ, ◌+◌, ◌-◌, ◌≤◌, ◌≡◌, inl, inr, some, length, ℤ, pos, pos_part, ◌-ℤ◌, arith, Bool-cases,
}
use kontext.Api.{wrap64}
use kontext.Controller.Kube.{wrap_int}
use kontext.Engine.RuntimeApi.{ToolResult}
use kontext.Engine.ToolOutput.{Encoding, Bounded, bound}
use kontext.Engine.Bounds.{IsBounded, bound-IsBounded}
use kontext.Engine.Limits.{
  LimitsPolicy, min_ℤ, sub64, add64, with_content, allowed_bytes, apply_tool_output,
}

wrap_small : (n : ℕ) → n ≤ 9223372036854775807 → wrap_int (pos n) ≡ pos n
unfolding wrap_int wrap64
wrap_small n h = ground arith

sub_small : (l o : ℕ) → o ≤ l → l ≤ 9223372036854775807 → sub64 (pos l) (pos o) ≡ pos (l - o)
unfolding ◌-ℤ◌ wrap_int wrap64
sub_small l o h k = ground arith

add_small : (o n : ℕ) → o + n ≤ 9223372036854775807 → add64 (pos o) (pos n) ≡ pos (o + n)
unfolding ◌-ℤ◌ wrap_int wrap64
add_small o n h = ground arith

min-pos_part : (k : ℕ) (v : ℤ) → pos_part (min_ℤ (pos k) v) ≤ k
min-pos_part k v = ground arith

allowed-left :
    (limits : LimitsPolicy) (result : ToolResult) (l o : ℕ)
    → limits.max_total_tool_output_bytes ≡ some (pos l)
    → o ≤ l
    → l ≤ 9223372036854775807
    → allowed_bytes limits result (pos o) ≤ l - o
unfolding allowed_bytes
allowed-left limits result l o e h k = rw (e, sub_small l o h k) (min-pos_part (l - o) _)

content-length :
    (enc : Encoding) (result : ToolResult) (n : ℕ)
    → length (with_content result (bound enc result.content n)).content ≤ n
content-length enc result n =
    by_mark (bound enc result.content n) (bound-IsBounded enc result.content n)
  where
    by_mark :
        (b : Bounded)
        → IsBounded enc result.content n b
        → length (with_content result b).content ≤ n
    by_mark b h = elim (Bool-cases b.truncated) [
      | inl t ↦ rw t h.short
      | inr f ↦ let (e, _) = h.whole f in rw f (rw⁻¹ e h.short)
    ]

-- Below the limit on all outputs, the total stays exact and within the limit.
pub apply_tool_output-Kept :
    (enc : Encoding) (limits : LimitsPolicy) (result : ToolResult) (l o : ℕ)
    → limits.max_total_tool_output_bytes ≡ some (pos l)
    → l ≤ 9223372036854775807
    → o ≤ l
    → let (applied, total) = apply_tool_output enc limits result (pos o) in
      (total ≡ pos (o + length applied.content)) × (o + length applied.content ≤ l)
unfolding apply_tool_output
apply_tool_output-Kept enc limits result l o e k h =
    let a = content-length enc result (allowed_bytes limits result (pos o)) in
    let b = allowed-left limits result l o e h k in (add_small o _ (omega arith), omega arith)
