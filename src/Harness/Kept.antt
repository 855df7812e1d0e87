-- ===== src/Harness/Kept.antt =====
-- Which calls dagr_mcp/enforcement_harness.py keeps from the inner handler.
use dagr_mcp.Prelude.{
  ℕ, suc, String, Bool, true, false, ◌≡◌, refl, arith, Option, none, List, [], ◌∷◌, ◌||◌, str_eq,
  ◌⊎◌, inl, inr, sym, ap, ◌∙◌, not, false≢true,
}
use dagr_mcp.Python.{Value}
use dagr_mcp.Harness.{Effect, called, History, Harness, SrsBridge, PolicyDecision, HarnessConfig}
use dagr_mcp.Harness.Policy.{find_policy, evaluate_policy, evaluate_unknown}
use dagr_mcp.Harness.Run.{is_refusal, wrapped, policy_decision}
use dagr_mcp.Harness.Quiet.{Quiet, nothing, noted, Quiet-trans, is_call}
use dagr_mcp.Harness.Protocol.{
  Checked, all_checked, one_checked, Admitted, without_bridge, by_receipt, Decided, not_called,
  executed, Governed, kept_out, let_through,
}
use dagr_mcp.Harness.Order.{wrapped-Governed}

-- How often the inner handler was called.
abbrev pub count_calls : History → ℕ
count_calls [] = 0
count_calls (called tool_name arguments caller answer ∷ past) = suc (count_calls past)
count_calls (e ∷ past) = count_calls past

count_calls-noted :
    (e : Effect) (now : History) → is_call e ≡ false → count_calls (e ∷ now) ≡ count_calls now
count_calls-noted e now h = ground arith

pub count_calls-Quiet : {past now : History} → Quiet past now → count_calls now ≡ count_calls past
count_calls-Quiet nothing = refl
count_calls-Quiet (noted {now} e h q) = count_calls-noted e now h ∙ count_calls-Quiet q

Checked-Quiet :
    {behavior : String} {names : List String} {past now : History}
    → Checked behavior names past now
    → Quiet past now
Checked-Quiet all_checked = nothing
Checked-Quiet (one_checked health judged rest) =
    Quiet-trans (noted _ refl nothing) (Checked-Quiet rest)

Admitted-Quiet :
    {bridge : Option SrsBridge} {past now : History} → Admitted bridge past now → Quiet past now
Admitted-Quiet without_bridge = nothing
Admitted-Quiet (by_receipt call ref e) = noted _ refl nothing

abbrev pub is_executable : String → Bool
is_executable decision = not (is_refusal decision || str_eq decision "gate")

evaluate_unknown-decision :
    (config : HarnessConfig) (tool_name : String)
    → config.fail_closed_on_unknown_tool ≡ true
    → (evaluate_unknown config tool_name).decision ≡ "fail_closed"
unfolding evaluate_unknown
evaluate_unknown-decision config tool_name closed = ground arith

module _ (h : Harness) (tool_name : String) (arguments caller : Value) (past : History) where
  Decided-count_calls :
      {d : PolicyDecision} {before now : History}
      → Decided h tool_name arguments caller d before now
      → (count_calls now ≡ count_calls before)
        ⊎ ((is_executable d.decision ≡ true) × (count_calls now ≡ suc (count_calls before)))
  Decided-count_calls (not_called q) = inl (count_calls-Quiet q)
  Decided-count_calls (executed answer r g a q) =
      inr (ground arith, count_calls-Quiet q ∙ ap suc (count_calls-Quiet (Admitted-Quiet a)))

  Governed-count_calls :
      {now : History}
      → Governed h tool_name arguments caller past now
      → (count_calls now ≡ count_calls past)
        ⊎ ((is_executable (policy_decision h tool_name arguments caller).decision ≡ true)
            × (count_calls now ≡ suc (count_calls past)))
  Governed-count_calls (kept_out q) = inl (count_calls-Quiet q)
  Governed-count_calls (let_through health event ref judged typed checked decided) =
      let k = count_calls-Quiet (Checked-Quiet checked) in
      elim (Decided-count_calls decided) [
        | inl e ↦ inl (e ∙ k)
        | inr (x, e) ↦ inr (x, e ∙ ap suc k)
      ]

  -- The inner handler is called at most once more than before, and not at all where the policy's
  -- decision is `deny`, `defer`, `fail_closed` or `gate`.
  pub wrapped-count_calls :
      (count_calls (wrapped h tool_name arguments caller past).1.history ≡ count_calls past)
      ⊎ ((is_executable (policy_decision h tool_name arguments caller).decision ≡ true)
          × (count_calls (wrapped h tool_name arguments caller past).1.history
              ≡ suc (count_calls past)))
  wrapped-count_calls = Governed-count_calls (wrapped-Governed h tool_name arguments caller past)

  -- Under `fail_closed_on_unknown_tool` a tool without a policy is never called.
  pub wrapped-unknown :
      h.config.fail_closed_on_unknown_tool ≡ true
      → find_policy h.policies tool_name ≡ none
      → count_calls (wrapped h tool_name arguments caller past).1.history ≡ count_calls past
  unfolding evaluate_policy
  wrapped-unknown closed unknown =
      let decision : (policy_decision h tool_name arguments caller).decision ≡ "fail_closed" =
        ap (λ o. (evaluate_policy h.config tool_name o).decision) unknown
        ∙ evaluate_unknown-decision h.config tool_name closed in
      let refused : is_executable (policy_decision h tool_name arguments caller).decision ≡ false =
        ap is_executable decision in
      elim wrapped-count_calls [ inl e ↦ e | inr (x, e) ↦ absurd (false≢true (sym refused ∙ x)) ]
