-- ===== src/Access/Fits.antt =====
-- Which receipts `compose_receipts` of dagr_mcp_service/access.py lets stand together.
use dagr_mcp.Prelude.{String, true, not, ◌&&◌, eq_iff, ◌≡◌, ap, arith, Option, none, some}
use dagr_mcp.Python.{Value, null, boolean, integer, floating, str, list, tuple, mapping, opaque}
use dagr_mcp.Python.Dict.{get, get_value}
use dagr_mcp.Python.Equality.{eq_value}
use dagr_mcp.Access.Schema.{is_text}
use dagr_mcp.Access.Reread.{and_parts}
use dagr_mcp.Access.{Libraries, VerifiedReceipt}
use dagr_mcp.Access.Compose.{for_call, has_parent, cross_check, belong, differs}

is_text-some : (o : Option Value) (text : String) → is_text o text ≡ true → o ≡ some (str text)
is_text-some (some (str s)) text h = ap (λ t. some (str t)) ((eq_iff s text).0 h)
is_text-some (some null) text h = absurd cc
is_text-some (some (boolean b)) text h = absurd cc
is_text-some (some (integer n)) text h = absurd cc
is_text-some (some (floating bits)) text h = absurd cc
is_text-some (some (list items)) text h = absurd cc
is_text-some (some (tuple items)) text h = absurd cc
is_text-some (some (mapping fields)) text h = absurd cc
is_text-some (some (opaque name)) text h = absurd cc
is_text-some none text h = absurd cc

module _ (lib : Libraries) where
  -- The receipt is of the expected call.
  abbrev IsOf : String → VerifiedReceipt → Type 0
  IsOf call v = get v.envelope "logical_call_id" ≡ some (str call)

  -- It names the expected parent, where one is expected.
  abbrev HasParent : Option String → VerifiedReceipt → Type 0
  HasParent none v = Unit
  HasParent (some ref) v = get v.envelope "parent_receipt_ref" ≡ some (str ref)

  -- The two envelopes have equal values under the keys, or lack both.
  abbrev Agree : VerifiedReceipt → VerifiedReceipt → String → String → Type 0
  Agree a o key j = eq_value lib.eq_float (get_value a.envelope key) (get_value o.envelope j) ≡ true

  -- Which receipts may stand together: an outcome never alone; and with its admission only where it
  -- refers to the admission's id, and both are of one runtime, boundary, actor and tenant.
  abbrev pub Fits :
      String → Option String → Option VerifiedReceipt → Option VerifiedReceipt → Type 0
  Fits call parent none none = Unit
  Fits call parent none (some o) = ⊥
  Fits call parent (some a) none = IsOf call a × HasParent parent a
  Fits call parent (some a) (some o) =
      IsOf call a
      × IsOf call o
      × HasParent parent a
      × Agree o a "admission_receipt_ref" "receipt_id"
      × Agree a o "runtime_instance_id" "runtime_instance_id"
      × Agree a o "boundary_id" "boundary_id"
      × Agree a o "actor_ref" "actor_ref"
      × Agree a o "tenant_id" "tenant_id"

  for_call-IsOf :
      (call : String) (v : VerifiedReceipt) → for_call lib v.envelope call ≡ true → IsOf call v
  for_call-IsOf call v h = is_text-some (get v.envelope "logical_call_id") call h

  has_parent-HasParent :
      (parent : Option String) (v : VerifiedReceipt)
      → has_parent lib v.envelope parent ≡ true
      → HasParent parent v
  has_parent-HasParent none v h = tt
  has_parent-HasParent (some ref) v h = is_text-some (get v.envelope "parent_receipt_ref") ref h

  not-differs :
      (a o : VerifiedReceipt) (key : String)
      → not (differs lib a.envelope o.envelope key) ≡ true
      → Agree a o key key
  not-differs a o key h = ground arith

  cross_check-Agree :
      (a o : VerifiedReceipt)
      → cross_check lib a.envelope o.envelope ≡ true
      → Agree o a "admission_receipt_ref" "receipt_id"
        × Agree a o "runtime_instance_id" "runtime_instance_id"
        × Agree a o "boundary_id" "boundary_id"
        × Agree a o "actor_ref" "actor_ref"
        × Agree a o "tenant_id" "tenant_id"
  unfolding cross_check
  cross_check-Agree a o h =
      let (h₁, tenant) = and_parts _ (not (differs lib a.envelope o.envelope "tenant_id")) h in
      let (h₂, actor) = and_parts _ (not (differs lib a.envelope o.envelope "actor_ref")) h₁ in
      let (h₃, boundary) = and_parts _ (not (differs lib a.envelope o.envelope "boundary_id")) h₂ in
      let (refs, runtime) =
        and_parts _ (not (differs lib a.envelope o.envelope "runtime_instance_id")) h₃ in
      (
        refs,
        not-differs a o "runtime_instance_id" runtime,
        not-differs a o "boundary_id" boundary,
        not-differs a o "actor_ref" actor,
        not-differs a o "tenant_id" tenant,
      )

  pub belong-Fits :
      (call : String) (parent : Option String) (a o : Option VerifiedReceipt)
      → belong lib call parent a o ≡ true
      → Fits call parent a o
  unfolding belong
  belong-Fits call parent none none h = tt
  belong-Fits call parent none (some o) h = cc
  belong-Fits call parent (some a) none h =
      let (x, y) = and_parts (for_call lib a.envelope call) _ h in
      (for_call-IsOf call a x, has_parent-HasParent parent a y)
  belong-Fits call parent (some a) (some o) h =
      let (h₁, w) =
        and_parts
          (for_call lib a.envelope call
            && for_call lib o.envelope call
            && has_parent lib a.envelope parent)
          _ h in
      let (h₂, z) = and_parts (for_call lib a.envelope call && for_call lib o.envelope call) _ h₁ in
      let (x, y) = and_parts (for_call lib a.envelope call) _ h₂ in
      let (refs, runtime, boundary, actor, tenant) = cross_check-Agree a o w in
      (
        for_call-IsOf call a x,
        for_call-IsOf call o y,
        has_parent-HasParent parent a z,
        refs,
        runtime,
        boundary,
        actor,
        tenant,
      )
