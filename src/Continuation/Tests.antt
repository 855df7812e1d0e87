-- ===== src/Continuation/Tests.antt =====
-- The continuation contract of dagr_mcp_continuation/__init__.py on concrete identities.
use dagr_mcp.Prelude.{String, ◌≡◌, ◌↔◌, refl, true, some, ok, raised, arith, eq_iff}
use dagr_mcp.Python.{boolean, integer, str, pos}
use dagr_mcp.Python.Text.{is_blank}
use dagr_mcp.Lifecycle.{continuable}
use dagr_mcp.Continuation.{
  ContinuationIdentity, NeutralContinuation, new_identity, require_text, require_round,
  request_is_parent, round_not_int, build_neutral_continuation, is_present,
}
use dagr_mcp.Continuation.Gate.{IsAllowed, new_identity-IsAllowed, build_neutral_continuation-ok}

abbrev second_round : ContinuationIdentity
second_round = record {
  interaction_id = "i1";
  request_id = "r2";
  parent_request_id = "r1";
  round_number = pos 2;
}

second_accepted : new_identity (str "i1") (str "r2") (str "r1") (integer (pos 2)) ≡ ok second_round
unfolding new_identity require_text require_round
second_accepted = refl

replayed_request :
    new_identity (str "i1") (str "r1") (str "r1") (integer (pos 2)) ≡ raised request_is_parent
unfolding new_identity require_text require_round
replayed_request = refl

boolean_round : new_identity (str "i1") (str "r2") (str "r1") (boolean true) ≡ raised round_not_int
unfolding new_identity require_text require_round
boolean_round = refl

second_round-IsAllowed : IsAllowed second_round
unfolding is_blank
second_round-IsAllowed = record {
  interaction_text = refl;
  request_text = refl;
  parent_text = refl;
  fresh_interaction = ground (arith, eq_iff "i1" "r2");
  fresh_request = ground (arith, eq_iff "r2" "r1");
  round_from_one = refl;
}

new_identity-IsAllowed_example :
    (str "i1" ≡ str second_round.interaction_id)
    × (str "r2" ≡ str second_round.request_id)
    × (str "r1" ≡ str second_round.parent_request_id)
    × (integer (pos 2) ≡ integer second_round.round_number)
    × IsAllowed second_round
new_identity-IsAllowed_example =
    new_identity-IsAllowed (str "i1") (str "r2") (str "r1") (integer (pos 2)) second_accepted

abbrev second_continuation : NeutralContinuation
second_continuation = record { identity = second_round; outcome = continuable }

build_neutral_continuation-ok_example :
    (build_neutral_continuation {A = String} continuable second_round
        (integer (pos 1))
        (boolean true)
        (some "r")
      ≡ ok second_continuation)
    ↔ ((integer (pos 1) ≡ boolean true)
        × (boolean true ≡ boolean true)
        × (is_present {A = String} (some "r") ≡ true)
        × (continuable ≡ continuable)
        × (second_continuation ≡ record { identity = second_round; outcome = continuable }))
build_neutral_continuation-ok_example =
    build_neutral_continuation-ok {A = String} continuable second_round (integer (pos 1))
      (boolean true) (some "r") second_continuation
