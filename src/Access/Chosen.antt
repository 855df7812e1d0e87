-- ===== src/Access/Chosen.antt =====
-- The handle that `compose_receipts` of dagr_mcp_service/access.py chooses of a kind.
use dagr_mcp.Prelude.{
  Bool, true, false, not, ◌≡◌, ap, ◌∙◌, arith, List, [], ◌∷◌, Bool-cases, inl, inr, if◌then◌else◌,
}
use mathlib.Core.List.{Memᴰ}
use mathlib.Core.List.Memᴰ.{head, tail}
use dagr_mcp.Access.{ReceiptKind, admission, outcome}
use dagr_mcp.Access.{ReceiptHandle}
use dagr_mcp.Access.Compose.{of_kind, is_admission}

pub branch_true :
    {A : Type 0} (b : Bool) (m n : A) {r : A} → b ≡ true → (if b then m else n) ≡ r → m ≡ r
branch_true true m n p h = h
branch_true false m n p h = cc

pub branch_false :
    {A : Type 0} (b : Bool) (m n : A) {r : A} → b ≡ false → (if b then m else n) ≡ r → n ≡ r
branch_false false m n p h = h
branch_false true m n p h = cc

abbrev pub kind_of : Bool → ReceiptKind
kind_of true = admission
kind_of false = outcome

is_kind : Bool → ReceiptHandle → Bool
is_kind admitted h = if is_admission h then admitted else not admitted

is_kind-kind_of :
    (admitted : Bool) (h : ReceiptHandle)
    → is_kind admitted h ≡ true
    → h.receipt_kind ≡ kind_of admitted
unfolding is_kind
is_kind-kind_of admitted h e = ground arith

same_head :
    {a b : ReceiptHandle} {xs ys : List ReceiptHandle}
    → ◌≡◌ {A = List ReceiptHandle} (a ∷ xs) (b ∷ ys)
    → b ≡ a
same_head h = cc

-- A handle that is chosen is one of the list, and of the kind.
pub of_kind-Mem :
    (admitted : Bool) (handles : List ReceiptHandle) {h : ReceiptHandle} {rest : List ReceiptHandle}
    → of_kind admitted handles ≡ h ∷ rest
    → Memᴰ h handles × (h.receipt_kind ≡ kind_of admitted)
unfolding of_kind is_kind
of_kind-Mem admitted [] e = absurd cc
of_kind-Mem admitted (x ∷ xs) e = elim (Bool-cases (is_kind admitted x)) [
  | inl p ↦
      let same = same_head (branch_true (is_kind admitted x) _ _ p e) in
      (head same, ap (λ y. y.receipt_kind) same ∙ is_kind-kind_of admitted x p)
  | inr p ↦
      let (m, k) = of_kind-Mem admitted xs (branch_false (is_kind admitted x) _ _ p e) in
      (tail m, k)
]
