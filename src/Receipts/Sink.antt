-- ===== src/Receipts/Sink.antt =====
-- `RawEnvelopeFileSink` of srs_receipts.py: the directory as an association list from file names to
-- envelopes. A file holds the envelope as JSON with sorted keys; the model keeps the envelope itself,
-- and nothing reads the order of its keys.
use dagr_mcp.Prelude.{
  ℕ, String, Bool, true, false, ◌&&◌, ◌||◌, Option, none, some, List, [], ◌∷◌, ◌++◌, Result, ok,
  raised, ◌>>◌, leb, ◌==◌, if◌then◌else◌,
}
use dagr_mcp.Python.{str, mapping, Fields}
use dagr_mcp.Python.Dict.{get}
use dagr_mcp.Python.Text.{codes, eq_codes}
use dagr_mcp.Receipts.{ReceiptError, sink_write_failed, missing_receipt_id}
use dagr_mcp.Receipts.Content.{enforce}

-- `[A-Za-z0-9._-]`
abbrev pub is_safe : ℕ → Bool
is_safe c =
    (leb b'A' c && leb c b'Z')
    || (leb b'a' c && leb c b'z')
    || (leb b'0' c && leb c b'9')
    || c == b'.'
    || c == b'_'
    || c == b'-'

-- `_SAFE_FILE.sub("_", s)`: each run of other characters becomes one underscore. The flag says
-- whether the character before was one of them.
unfoldable pub sanitize_from : Bool → List ℕ → List ℕ
sanitize_from inside [] = []
sanitize_from inside (c ∷ s) =
    let rest = sanitize_from (if is_safe c then false else true) s in
    if is_safe c then c ∷ rest else if inside then rest else b'_' ∷ rest

unfoldable pub file_name : String → List ℕ
file_name receipt_id = sanitize_from false (codes receipt_id) ++ codes ".json"

abbrev pub Files : Type 0
Files = List (List ℕ × Fields)

-- `os.replace(tmp_name, target)`
unfoldable pub store : List ℕ → Fields → Files → Files
store name envelope [] = (name, envelope) ∷ []
store name envelope ((n, e) ∷ files) =
    if eq_codes n name then (n, envelope) ∷ files else (n, e) ∷ store name envelope files

unfoldable pub load : List ℕ → Files → Option Fields
load name [] = none
load name ((n, e) ∷ files) = if eq_codes n name then some e else load name files

-- Whether the file system takes a file of this name, as the directory stands.
abbrev pub Disk : Type 0
Disk = Files → List ℕ → Bool

-- `str(envelope["receipt_id"])`; the emitter always sets a text.
abbrev pub receipt_id_of : Fields → Result ReceiptError String
receipt_id_of envelope = elim (get envelope "receipt_id") [
  | some (str id) ↦ ok id
  | _ ↦ raised missing_receipt_id
]

-- The part of `write` after its guard.
unfoldable pub save : Disk → Fields → String → Files → Result ReceiptError String × Files
save disk envelope receipt_id files =
    if disk files (file_name receipt_id)
    then (ok receipt_id, store (file_name receipt_id) envelope files)
    else (raised sink_write_failed, files)

unfoldable pub write : Disk → Fields → Files → Result ReceiptError String × Files
unfolding save
write disk envelope files = elim (enforce (mapping envelope) >> receipt_id_of envelope) [
  | raised e ↦ (raised e, files)
  | ok receipt_id ↦ save disk envelope receipt_id files
]
