-- ===== src/Harness/Passage.antt =====
-- The order of the calls that `wrapped` of dagr_mcp/enforcement_harness.py makes.
use dagr_mcp.Prelude.{
  String, false, ◌≡◌, refl, sym, ap, ◌∙◌, subst, arith, Option, none, some, List, [], ◌∷◌, ok, ◌⊎◌,
  inl, inr, str_eq,
}
use dagr_mcp.Python.{Value}
use dagr_mcp.Harness.{
  PolicyDecision, HarnessSinks, SrsBridge, AdmissionCall, admission_emitted, History, Harness,
  State,
}
use dagr_mcp.Harness.Sinks.{effective_required_sinks}
use dagr_mcp.Harness.Acts.{
  Act, pure, ◌>>=◌, ◌>>◌, context, set_context, try, ask, check_required_sink,
  check_effective_required_sinks,
}
use dagr_mcp.Harness.Gate.{emit_admission}
use dagr_mcp.Harness.Run.{
  is_refusal, failure_behavior, admit, admit_answer, enforce_answer, dispatch, enforce,
}
use dagr_mcp.Harness.Quiet.{
  Quiet, Quiet-trans, IsQuiet, IsQuiet-Quiet, after_first, >>=-inv, try-IsQuiet, >>=-IsQuiet,
  context-IsQuiet, set_context-IsQuiet, by_if, by_option,
}
use dagr_mcp.Harness.Silent.{
  check_effective_required_sinks-IsQuiet, try_refusal-IsQuiet, fail_with-IsQuiet,
  emit_admission-IsQuiet,
}
use dagr_mcp.Harness.Ended.{reject-IsQuiet, refuse-IsQuiet, gate-IsQuiet}
use dagr_mcp.Harness.Protocol.{
  Checked, all_checked, one_checked, Admitted, without_bridge, by_receipt, Decided, not_called,
  check_required_sink-passed, execute-Decided,
}

abbrev checks : HarnessSinks → String → List String → Act (Option String)
checks = check_effective_required_sinks

abbrev rest_of : HarnessSinks → String → List String → Option String → Act (Option String)
rest_of sinks behavior rest none = checks sinks behavior rest
rest_of sinks behavior rest (some reason) = pure (some reason)

checks_cons :
    (sinks : HarnessSinks) (behavior name : String) (rest : List String) (s : State)
    → checks sinks behavior (name ∷ rest) s
      ≡ (check_required_sink sinks behavior name >>= rest_of sinks behavior rest) s
unfolding check_effective_required_sinks ◌>>=◌
checks_cons sinks behavior name rest s = ground arith

no_checks :
    (sinks : HarnessSinks) (behavior : String) (s : State)
    → (checks sinks behavior [] s).1.history ≡ s.history
unfolding check_effective_required_sinks
no_checks sinks behavior s = refl

-- The rest of the loop after the first sink.
rest_of-Checked :
    (sinks : HarnessSinks) (behavior name : String) (rest : List String) (s : State)
    (failure : Option String)
    → ((t : State)
        → (checks sinks behavior rest t).0 ≡ ok none
        → Checked behavior rest t.history (checks sinks behavior rest t).1.history)
    → (check_required_sink sinks behavior name s).0 ≡ ok failure
    → (rest_of sinks behavior rest failure (check_required_sink sinks behavior name s).1).0
      ≡ ok none
    → Checked behavior
        (name ∷ rest)
        s.history
        (rest_of sinks behavior rest failure
          (check_required_sink sinks behavior name s).1).1.history
rest_of-Checked sinks behavior name rest s none recur k e =
    let (health, passed, seen) = check_required_sink-passed sinks behavior name s k in
    one_checked health passed (
      subst
        (λ z.
          Checked behavior rest z
            (checks sinks behavior rest (check_required_sink sinks behavior name s).1).1.history)
        seen (recur _ e))
rest_of-Checked sinks behavior name rest s (some reason) recur k e = absurd (ground arith)

check_effective_required_sinks-Checked :
    (sinks : HarnessSinks) (behavior : String) (names : List String) (s : State)
    → (checks sinks behavior names s).0 ≡ ok none
    → Checked behavior names s.history (checks sinks behavior names s).1.history
check_effective_required_sinks-Checked sinks behavior [] s e =
    let stays : (checks sinks behavior [] s).1.history ≡ s.history = no_checks sinks behavior s in
    subst (λ z. Checked behavior [] s.history z) (sym stays) all_checked
check_effective_required_sinks-Checked sinks behavior (name ∷ rest) s e =
    let joined = checks_cons sinks behavior name rest s in
    let (failure, k, eq) =
      >>=-inv (check_required_sink sinks behavior name) (rest_of sinks behavior rest) s
        (sym (ap (λ r. r.0) joined) ∙ e) in
    subst (λ r. Checked behavior (name ∷ rest) s.history r.1.history) (sym (joined ∙ eq))
      (rest_of-Checked sinks behavior name rest s failure
        (check_effective_required_sinks-Checked sinks behavior rest) k
        (sym (ap (λ r. r.0) (joined ∙ eq)) ∙ e))

emitted_admission :
    (bridge : SrsBridge) (tool_name : String) (s : State) (ref : String)
    → (try (emit_admission bridge tool_name "admitted" none none none) s).0 ≡ ok (some ref)
    → Admitted
        (some bridge)
        s.history
        (try (emit_admission bridge tool_name "admitted" none none none) s).1.history
unfolding emit_admission try ask ◌>>=◌
emitted_admission bridge tool_name s ref e =
    let call : AdmissionCall = record {
      context = s.context;
      tool_name = tool_name;
      disposition = "admitted";
      reason_code = none;
      review_object_ref = none;
      retry_contract = none;
    } in
    let eq : (try (emit_admission bridge tool_name "admitted" none none none) s).1.history
        ≡ admission_emitted call (ok ref) ∷ s.history =
      ground arith in
    subst (λ z. Admitted (some bridge) s.history z) (sym eq) (by_receipt call ref refl)

module _ (h : Harness) (tool_name : String) (arguments caller : Value) (d : PolicyDecision) where
  abbrev DecidedAfter : History → State → Type 0
  DecidedAfter past t = Decided h tool_name arguments caller d past t.history

  module _ (s : State) (r : is_refusal d.decision ≡ false)
      (g : str_eq d.decision "gate" ≡ false) where
    admit_answer-Decided :
        (bridge : SrsBridge) (e : h.srs_bridge ≡ some bridge) (answer : Option String)
        → (try (emit_admission bridge tool_name "admitted" none none none) s).0 ≡ ok answer
        → DecidedAfter s.history
            (admit_answer h tool_name d arguments caller answer
              (try (emit_admission bridge tool_name "admitted" none none none) s).1).1
    unfolding admit_answer ◌>>=◌
    admit_answer-Decided bridge e none k = not_called (
        Quiet-trans
          (IsQuiet-Quiet (try-IsQuiet (emit_admission-IsQuiet bridge tool_name _ _ _ _)) s)
          (IsQuiet-Quiet (fail_with-IsQuiet _ _) _))
    admit_answer-Decided bridge e (some ref) k =
        execute-Decided h tool_name arguments caller d _ r g (
          subst
            (λ o.
              Admitted o s.history
                (try (emit_admission bridge tool_name "admitted" none none none) s).1.history)
            (sym e) (emitted_admission bridge tool_name s ref k))

    admit-Decided : DecidedAfter s.history (admit h tool_name d arguments caller s).1
    unfolding admit
    admit-Decided =
        by_option (λ m. DecidedAfter s.history (m s).1) h.srs_bridge
          (λ e.
            execute-Decided h tool_name arguments caller d s r g
              (subst (λ o. Admitted o s.history s.history) (sym e) without_bridge))
          (λ bridge e.
            after_first (DecidedAfter s.history) _ _ s (admit_answer-Decided bridge e) (λ x k.
              not_called
                (IsQuiet-Quiet (try-IsQuiet (emit_admission-IsQuiet bridge tool_name _ _ _ _)) s)))

  dispatch-Decided :
      (s : State) → DecidedAfter s.history (dispatch h tool_name d arguments caller s).1
  unfolding dispatch
  dispatch-Decided s =
      by_if (λ m. DecidedAfter s.history (m s).1) (is_refusal d.decision)
        (λ r. not_called (IsQuiet-Quiet (refuse-IsQuiet h tool_name d) s))
        (λ r.
          by_if (λ m. DecidedAfter s.history (m s).1) (str_eq d.decision "gate")
            (λ g. not_called (IsQuiet-Quiet (gate-IsQuiet h tool_name d arguments) s))
            (λ g. admit-Decided s r g))

  -- What is called from the check of the sinks on.
  abbrev pub EnforcedAfter : History → State → Type 0
  EnforcedAfter past t =
      Quiet past t.history
      ⊎ ((checked : History) × Checked (failure_behavior h)
            (effective_required_sinks d h.policy_profile) past checked
          × Decided h tool_name arguments caller d checked t.history)

  module _ (s : State) where
    sinks_checked : Act (Option String)
    sinks_checked =
        (context >>= λ c. set_context (record c { attestation_limits = d.attestation_limits }))
        >> check_effective_required_sinks h.sinks (failure_behavior h)
            (effective_required_sinks d h.policy_profile)

    sinks_checked-IsQuiet : IsQuiet sinks_checked
    unfolding sinks_checked
    sinks_checked-IsQuiet =
        >>=-IsQuiet (>>=-IsQuiet context-IsQuiet (λ c. set_context-IsQuiet _))
          (λ _. check_effective_required_sinks-IsQuiet h.sinks _ _)

    enforce_answer-Enforced :
        (failure : Option String)
        → (sinks_checked s).0 ≡ ok failure
        → EnforcedAfter s.history
            (enforce_answer h tool_name d arguments caller failure (sinks_checked s).1).1
    unfolding enforce_answer sinks_checked ◌>>=◌
    enforce_answer-Enforced none e = inr (
      (sinks_checked s).1.history,
      check_effective_required_sinks-Checked h.sinks (failure_behavior h) _ _ e,
      dispatch-Decided (sinks_checked s).1,
    )
    enforce_answer-Enforced (some reason) e = inl (
        Quiet-trans
          (IsQuiet-Quiet
            (check_effective_required_sinks-IsQuiet h.sinks (failure_behavior h)
              (effective_required_sinks d h.policy_profile))
            _)
          (IsQuiet-Quiet
            (>>=-IsQuiet (try_refusal-IsQuiet h tool_name _)
              (λ _. reject-IsQuiet h tool_name d _ _))
            _))

    pub enforce-Enforced : EnforcedAfter s.history (enforce h tool_name d arguments caller s).1
    unfolding enforce sinks_checked
    enforce-Enforced =
        after_first (EnforcedAfter s.history) sinks_checked _ s enforce_answer-Enforced
          (λ x k. inl (IsQuiet-Quiet sinks_checked-IsQuiet s))
