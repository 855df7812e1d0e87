-- ===== src/Governed/Request.antt =====
-- `GovernedActionRequest`, `GovernedActionBoundaryConfig` and their checks in governed_action.py,
-- with `sha256_digest` of srs_receipts.py.
use dagr_mcp.Prelude.{
  ℕ, String, Bool, not, Option, none, some, List, Result, ok, raised, ◌>>=◌, ◌>>◌, raise_if,
  if◌then◌else◌,
}
use Prim.Native.String.{◌++◌ as text_append}
use dagr_mcp.Python.{Value, null, str, mapping, Fields, end, field}
use dagr_mcp.Python.Text.{codes, is_blank, has_code}
use dagr_mcp.Receipts.{not_canonicalizable}
use dagr_mcp.Governed.{
  GovernedError, empty_text, not_principal_shaped, not_policy_shaped, receipt,
  GovernedActionRequest, GovernedActionBoundaryConfig, Digests,
}
use dagr_mcp.Governed.Freeze.{freeze, thaw, freeze_correlation_metadata}

abbrev pub digest_of : Digests → Option (List ℕ) → Result GovernedError String
digest_of d none = raised (receipt not_canonicalizable)
digest_of d (some bytes) = ok (text_append "sha256:" (d.sha256_hex bytes))

-- `sha256_digest(value)`
unfoldable pub sha256_digest : Digests → Value → Result GovernedError String
sha256_digest d v = digest_of d (d.canonicalize v)

unfoldable pub validate_non_empty_text : String → Value → Result GovernedError String
unfolding is_blank
validate_non_empty_text name (str s) = if is_blank s then raised (empty_text name) else ok s
validate_non_empty_text name _ = raised (empty_text name)

-- `":" not in value`
abbrev pub lacks_colon : String → Bool
lacks_colon s = not (has_code b':' (codes s))

unfoldable pub validate_principal_ref : String → Value → Result GovernedError String
validate_principal_ref name v = do
  s ← validate_non_empty_text name v
  raise_if (lacks_colon s) (not_principal_shaped name)
  ok s

unfoldable pub validate_policy_ref : String → Value → Result GovernedError String
validate_policy_ref name v = do
  s ← validate_non_empty_text name v
  raise_if (lacks_colon s) (not_policy_shaped name)
  ok s

-- The config holds texts and sets of texts; their types are not checked here.
unfoldable pub check_config :
    GovernedActionBoundaryConfig → Result GovernedError GovernedActionBoundaryConfig
check_config config = do
  policy_ref ← validate_policy_ref "policy_ref" (str config.policy_ref)
  policy_version ← validate_non_empty_text "policy_version" (str config.policy_version)
  ok config

abbrev pub optional_text : Option String → Value
optional_text none = null
optional_text (some s) = str s

-- The arguments of the constructor.
pub record RequestArguments : Type 0 where
  pub request_ref : Value
  pub principal_ref : Value
  pub tool_name : Value
  pub action_name : Value
  pub requested_scope : Value
  pub policy_ref : Value
  pub policy_version : Value
  pub arguments_snapshot : Value
  pub session_ref : Value
  pub correlation_metadata : Fields

unfoldable pub validate_session_ref : Value → Result GovernedError (Option String)
validate_session_ref null = ok none
validate_session_ref v = validate_non_empty_text "session_ref" v >>= λ s. ok (some s)

-- The texts of a request, once they are checked.
pub record Checked : Type 0 where
  pub request_ref : String
  pub principal_ref : String
  pub tool_name : String
  pub action_name : String
  pub requested_scope : String
  pub policy_ref : String
  pub policy_version : String
  pub session_ref : Option String

-- `_identity_payload`
abbrev pub identity_payload : Checked → Value → Value
identity_payload c snapshot = mapping (
    field "request_ref" (str c.request_ref) (
      field "principal_ref" (str c.principal_ref) (
        field "tool_name" (str c.tool_name) (
          field "action_name" (str c.action_name) (
            field "requested_scope" (str c.requested_scope) (
              field "policy_ref" (str c.policy_ref) (
                field "policy_version" (str c.policy_version) (
                  field "session_ref" (optional_text c.session_ref)
                    (field "arguments_snapshot" (thaw snapshot) end)))))))))

-- The digests of `__post_init__`.
unfoldable pub finish_request :
    Digests → Checked → Value → Fields → Result GovernedError GovernedActionRequest
finish_request d c snapshot metadata = do
  argument_digest ← sha256_digest d (thaw snapshot)
  request_identity ← sha256_digest d (identity_payload c snapshot)
  ok (record {
    request_ref = c.request_ref;
    principal_ref = c.principal_ref;
    tool_name = c.tool_name;
    action_name = c.action_name;
    requested_scope = c.requested_scope;
    policy_ref = c.policy_ref;
    policy_version = c.policy_version;
    arguments_snapshot = snapshot;
    session_ref = c.session_ref;
    correlation_metadata = metadata;
    argument_digest = argument_digest;
    request_identity = request_identity;
  })

-- `GovernedActionRequest(…)`: the construction and its `__post_init__`.
unfoldable pub new_request : Digests → RequestArguments → Result GovernedError GovernedActionRequest
unfolding finish_request
new_request d a = do
  request_ref ← validate_non_empty_text "request_ref" a.request_ref
  principal_ref ← validate_principal_ref "principal_ref" a.principal_ref
  tool_name ← validate_non_empty_text "tool_name" a.tool_name
  action_name ← validate_non_empty_text "action_name" a.action_name
  requested_scope ← validate_non_empty_text "requested_scope" a.requested_scope
  policy_ref ← validate_policy_ref "policy_ref" a.policy_ref
  policy_version ← validate_non_empty_text "policy_version" a.policy_version
  snapshot ← freeze a.arguments_snapshot
  metadata ← freeze_correlation_metadata a.correlation_metadata
  session_ref ← validate_session_ref a.session_ref
  finish_request d
      (record {
        request_ref = request_ref;
        principal_ref = principal_ref;
        tool_name = tool_name;
        action_name = action_name;
        requested_scope = requested_scope;
        policy_ref = policy_ref;
        policy_version = policy_version;
        session_ref = session_ref;
      })
      snapshot metadata
