-- ===== src/Python.antt =====
-- The dynamic values that the program passes about, and the operations of Python's `str` that it
-- uses.
pub mod Text
pub mod Dict
pub mod Base64
pub mod Equality
pub mod Decimal
pub mod Sort
use dagr_mcp.Prelude.{ℕ, String, Bool}

-- `negsuc n` is -(n + 1).
pub data ℤ : Type 0 where
  pos : ℕ → ℤ
  negsuc : ℕ → ℤ

-- A mapping lists its items in insertion order, under text keys, as JSON objects have them. A float
-- stands by its bit pattern and is never computed with; any other object stands by the name of its
-- type.
mutual
  pub data Value : Type 0 where
    null : Value
    boolean : Bool → Value
    integer : ℤ → Value
    floating : ℕ → Value
    str : String → Value
    list : Items → Value
    tuple : Items → Value
    mapping : Fields → Value
    opaque : String → Value

  pub data Items : Type 0 where
    nil : Items
    cons : Value → Items → Items

  pub data Fields : Type 0 where
    end : Fields
    field : String → Value → Fields → Fields
