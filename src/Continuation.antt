-- ===== src/Continuation.antt =====
-- dagr_mcp_continuation/__init__.py: the neutral continuation contract. The arguments of the
-- constructor are dynamic values, whose types it checks.
mod Gate
mod Tests
use dagr_mcp.Prelude.{
  String, Bool, true, Option, none, some, Result, ok, raised, ◌>>=◌, ◌>>◌, raise_if, ltb, str_eq,
  if◌then◌else◌,
}
use dagr_mcp.Python.{Value, boolean, integer, str, ℤ, pos, negsuc}
use dagr_mcp.Python.Text.{is_blank}
use dagr_mcp.Lifecycle.{InputRequiredMode, continuable}

pub data ContinuationContractError : Type 0 where
  not_text : String → ContinuationContractError
  interaction_is_request request_is_parent round_not_int : ContinuationContractError
  round_below_one admission_refused outcome_not_eligible : ContinuationContractError

pub record ContinuationIdentity : Type 0 where
  pub interaction_id : String
  pub request_id : String
  pub parent_request_id : String
  pub round_number : ℤ

pub record NeutralContinuation : Type 0 where
  pub identity : ContinuationIdentity
  pub outcome : InputRequiredMode

-- One round of the loop over the three names.
unfoldable pub require_text : String → Value → Result ContinuationContractError String
unfolding is_blank
require_text name (str s) = if is_blank s then raised (not_text name) else ok s
require_text name _ = raised (not_text name)

-- `round_number < 1`
abbrev pub is_below_one : ℤ → Bool
is_below_one (pos n) = ltb n 1
is_below_one (negsuc n) = true

unfoldable pub require_round : Value → Result ContinuationContractError ℤ
require_round (boolean b) = raised round_not_int
require_round (integer n) = if is_below_one n then raised round_below_one else ok n
require_round _ = raised round_not_int

-- `ContinuationIdentity(…)`: the construction and its `__post_init__`.
unfoldable pub new_identity :
    Value → Value → Value → Value → Result ContinuationContractError ContinuationIdentity
new_identity interaction request parent round = do
  interaction_id ← require_text "interaction_id" interaction
  request_id ← require_text "request_id" request
  parent_request_id ← require_text "parent_request_id" parent
  raise_if (str_eq interaction_id request_id) interaction_is_request
  raise_if (str_eq request_id parent_request_id) request_is_parent
  round_number ← require_round round
  ok (record {
    interaction_id = interaction_id;
    request_id = request_id;
    parent_request_id = parent_request_id;
    round_number = round_number;
  })

-- `value is True`
abbrev pub is_true : Value → Bool
is_true (boolean b) = b
is_true _ = Bool.false

abbrev pub is_present {ℓ} : {A : Type ℓ} → Option A → Bool
is_present none = Bool.false
is_present (some a) = true

unfoldable pub require_continuation_admission :
    {A : Type 0} → Value → Value → Option A → Result ContinuationContractError (Unit {0})
require_continuation_admission execution_proceeds admission_recorded admission_record =
    if is_true execution_proceeds
    then (if is_true admission_recorded
        then (if is_present admission_record then ok tt else raised admission_refused)
        else raised admission_refused)
    else raised admission_refused

-- `NeutralContinuation(…)`: the construction and its `__post_init__`.
unfoldable pub new_continuation :
    ContinuationIdentity → InputRequiredMode → Result ContinuationContractError NeutralContinuation
new_continuation identity continuable = ok (record { identity = identity; outcome = continuable })
new_continuation identity _ = raised outcome_not_eligible

unfoldable pub build_neutral_continuation :
    {A : Type 0}
    → InputRequiredMode
    → ContinuationIdentity
    → Value
    → Value
    → Option A
    → Result ContinuationContractError NeutralContinuation
unfolding require_continuation_admission new_continuation
build_neutral_continuation outcome identity execution_proceeds admission_recorded admission_record =
    require_continuation_admission execution_proceeds admission_recorded admission_record
    >> new_continuation identity outcome
