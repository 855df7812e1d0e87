-- ===== src/Access/Compose.antt =====
-- `compose_receipts` and `access_governed_call_receipts` of dagr_mcp_service/access.py.
use dagr_mcp.Prelude.{
  String, Bool, true, false, not, ◌&&◌, ◌||◌, Option, none, some, List, [], ◌∷◌, Result, ok, raised,
  ◌>>=◌, if◌then◌else◌,
}
use dagr_mcp.Python.{Fields}
use dagr_mcp.Python.Dict.{get, get_value}
use dagr_mcp.Python.Equality.{eq_value}
use dagr_mcp.Python.Text.{is_blank}
use dagr_mcp.Access.{
  admission, outcome, ReceiptHandle, GovernedCallResponse, DiagnosticCode, family_mismatch,
  association_mismatch, AccessError, empty_logical_call_id, ReceiptAccessContext,
  ReceiptAccessConfig, Libraries, VerifiedReceipt, ReceiptAccessResult, ReceiptComposition,
}
use dagr_mcp.Access.Schema.{is_text}
use dagr_mcp.Access.Resolve.{resolve_receipt}

abbrev pub is_admission : ReceiptHandle → Bool
is_admission handle = elim handle.receipt_kind [ admission ↦ true | outcome ↦ false ]

-- `[h for h in handles if h.receipt_kind == …]`
unfoldable pub of_kind : Bool → List ReceiptHandle → List ReceiptHandle
of_kind admitted [] = []
of_kind admitted (h ∷ rest) =
    let more = of_kind admitted rest in
    if (if is_admission h then admitted else not admitted) then h ∷ more else more

-- `len(handles) > 1`
abbrev pub is_ambiguous : List ReceiptHandle → Bool
is_ambiguous (a ∷ b ∷ rest) = true
is_ambiguous _ = false

-- What one of the two resolutions gives: the receipt, if there is a handle, or the code.
pub data Part : Type 0 where
  absent : Part
  present : VerifiedReceipt → Part
  failed : DiagnosticCode → Part

-- `result.diagnostic_code` is looked at first. A result has one of the two.
abbrev pub part_of : ReceiptAccessResult → Part
part_of r = elim r.diagnostic_code [
  | some code ↦ failed code
  | none ↦ elim r.verified [ some v ↦ present v | none ↦ absent ]
]

module _ (lib : Libraries) where
  unfoldable pub resolve_part :
      ReceiptAccessConfig → ReceiptAccessContext → List ReceiptHandle → Result AccessError Part
  unfolding resolve_receipt
  resolve_part config context [] = ok absent
  resolve_part config context (handle ∷ rest) =
      resolve_receipt lib config context handle >>= λ r. ok (part_of r)

  abbrev pub differs : Fields → Fields → String → Bool
  differs a b key = not (eq_value lib.eq_float (get_value a key) (get_value b key))

  -- The checks of the two envelopes against each other.
  unfoldable pub cross_check : Fields → Fields → Bool
  unfolding get eq_value
  cross_check a o =
      eq_value lib.eq_float (get_value o "admission_receipt_ref") (get_value a "receipt_id")
      && not (differs a o "runtime_instance_id")
      && not (differs a o "boundary_id")
      && not (differs a o "actor_ref")
      && not (differs a o "tenant_id")

  abbrev pub for_call : Fields → String → Bool
  for_call envelope logical_call_id = is_text (get envelope "logical_call_id") logical_call_id

  -- `expected is not None and admission.get("parent_receipt_ref") != expected`
  abbrev pub has_parent : Fields → Option String → Bool
  has_parent envelope none = true
  has_parent envelope (some ref) = is_text (get envelope "parent_receipt_ref") ref

  -- Whether the verified receipts belong together, and to the expected call.
  unfoldable pub belong :
      String → Option String → Option VerifiedReceipt → Option VerifiedReceipt → Bool
  unfolding cross_check get
  belong call parent none none = true
  belong call parent none (some o) = false
  belong call parent (some a) none = for_call a.envelope call && has_parent a.envelope parent
  belong call parent (some a) (some o) =
      for_call a.envelope call
      && for_call o.envelope call
      && has_parent a.envelope parent
      && cross_check a.envelope o.envelope

  abbrev pub compose_failed : String → DiagnosticCode → ReceiptComposition
  compose_failed call code = record {
    logical_call_id = call;
    admission = none;
    outcome = none;
    diagnostic_code = some code;
  }

  abbrev pub receipt_of : Part → Option VerifiedReceipt
  receipt_of (present v) = some v
  receipt_of _ = none

  -- What follows the two resolutions.
  unfoldable pub join : String → Option String → Part → Part → ReceiptComposition
  unfolding belong
  join call parent (failed code) o = compose_failed call code
  join call parent a (failed code) = compose_failed call code
  join call parent a o =
      if belong call parent (receipt_of a) (receipt_of o)
      then record {
        logical_call_id = call;
        admission = receipt_of a;
        outcome = receipt_of o;
        diagnostic_code = none;
      }
      else compose_failed call association_mismatch

  abbrev pub is_failed : Part → Bool
  is_failed (failed code) = true
  is_failed _ = false

  -- The outcome's handle is not resolved where the admission's resolution failed.
  unfoldable pub compose_parts :
      ReceiptAccessConfig
      → ReceiptAccessContext
      → List ReceiptHandle
      → List ReceiptHandle
      → String
      → Option String
      → Result AccessError ReceiptComposition
  unfolding join resolve_part
  compose_parts config context admissions outcomes call parent =
      resolve_part config context admissions >>= λ a.
      if is_failed a
      then ok (join call parent a absent)
      else (resolve_part config context outcomes >>= λ o. ok (join call parent a o))

  unfoldable pub compose_receipts :
      ReceiptAccessConfig
      → ReceiptAccessContext
      → List ReceiptHandle
      → String
      → Option String
      → Result AccessError ReceiptComposition
  unfolding compose_parts of_kind is_blank
  compose_receipts config context handles call parent =
      if is_blank call
      then raised empty_logical_call_id
      else if is_ambiguous (of_kind true handles) || is_ambiguous (of_kind false handles)
      then ok (compose_failed call family_mismatch)
      else compose_parts config context (of_kind true handles) (of_kind false handles) call parent

  unfoldable pub access_governed_call_receipts :
      ReceiptAccessConfig
      → ReceiptAccessContext
      → GovernedCallResponse
      → Result AccessError ReceiptComposition
  unfolding compose_receipts
  access_governed_call_receipts config context response =
      compose_receipts config context response.receipts response.logical_call_id
        response.parent_receipt_ref
