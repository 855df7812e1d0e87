-- ===== src/Receipts/Content.antt =====
-- `_walk` and `enforce_raw_content_exclusion` of srs_receipts.py.
use dagr_mcp.Prelude.{
  ℕ, String, Bool, true, false, ◌&&◌, ◌||◌, List, [], ◌∷◌, Result, ok, ◌>>◌, raise_if, ◌==◌,
}
use dagr_mcp.Python.{Value, str, list, mapping, Items, nil, cons, Fields, end, field}
use dagr_mcp.Python.Dict.{mem_text}
use dagr_mcp.Python.Text.{codes}
use dagr_mcp.Receipts.{ReceiptError, raw_content_key, private_marker, raw_keys, private_markers}

abbrev pub has_prefix : List ℕ → List ℕ → Bool
has_prefix [] s = true
has_prefix (c ∷ p) [] = false
has_prefix (c ∷ p) (d ∷ s) = c == d && has_prefix p s

-- `marker in item`
abbrev pub contains_text : List ℕ → List ℕ → Bool
contains_text p [] = has_prefix p []
contains_text p (d ∷ s) = has_prefix p (d ∷ s) || contains_text p s

-- `any(marker in item for marker in …)`
unfoldable pub has_marker : List String → String → Bool
has_marker [] item = false
has_marker (m ∷ ms) item = contains_text (codes m) (codes item) || has_marker ms item

-- `isinstance(item, str) and any(…)`
unfoldable pub is_private : Value → Bool
unfolding has_marker
is_private (str s) = has_marker private_markers s
is_private _ = false

-- The loop of `enforce_raw_content_exclusion` over the items that `_walk` yields: mappings and lists
-- are entered, and each item is tested before what is inside it.
unfoldable mutual
  pub enforce : Value → Result ReceiptError (Unit {0})
  enforce (mapping fields) = enforce_fields fields
  enforce (list items) = enforce_items items
  enforce _ = ok tt

  pub enforce_fields : Fields → Result ReceiptError (Unit {0})
  enforce_fields end = ok tt
  enforce_fields (field key item rest) =
      raise_if (mem_text key raw_keys) raw_content_key
      >> (raise_if (is_private item) private_marker >> (enforce item >> enforce_fields rest))

  pub enforce_items : Items → Result ReceiptError (Unit {0})
  enforce_items nil = ok tt
  enforce_items (cons item rest) =
      raise_if (is_private item) private_marker >> (enforce item >> enforce_items rest)
