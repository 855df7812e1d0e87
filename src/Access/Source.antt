-- ===== src/Access/Source.antt =====
-- `FilesystemReceiptSource.fetch` of dagr_mcp_service/access.py: the root directory as an association
-- list from file names to what stands there. The directory that the receipt sink of srs_receipts.py
-- leaves is one whose entries are regular files.
use dagr_mcp.Prelude.{ℕ, List, [], ◌∷◌, Option, none, some, Result, ok, raised, if◌then◌else◌}
use dagr_mcp.Python.{Fields}
use dagr_mcp.Python.Text.{eq_codes}
use dagr_mcp.Receipts.Sink.{file_name, Files}
use dagr_mcp.Access.{FetchError, receipt_not_found, ReceiptByteProvider}

-- A regular file with its bytes; or a directory, a special file, a symbolic link, or a file that the
-- process may not open.
pub data Entry : Type 0 where
  regular : List ℕ → Entry
  special : Entry

abbrev pub Directory : Type 0
Directory = List (List ℕ × Entry)

unfoldable pub entry_at : List ℕ → Directory → Option Entry
entry_at name [] = none
entry_at name ((n, e) ∷ rest) = if eq_codes n name then some e else entry_at name rest

abbrev pub bytes_of : Option Entry → Result FetchError (List ℕ)
bytes_of (some (regular bytes)) = ok bytes
bytes_of _ = raised receipt_not_found

-- The name is derived from the receipt id as the sink derives it. The references are not used.
unfoldable pub fetch : Directory → ReceiptByteProvider
unfolding entry_at file_name
fetch directory handle context = bytes_of (entry_at (file_name handle.receipt_id) directory)

-- The directory of a receipt sink, given the text that it writes for an envelope.
abbrev pub directory_of : (Fields → List ℕ) → Files → Directory
directory_of dump [] = []
directory_of dump ((name, envelope) ∷ files) =
    (name, regular (dump envelope)) ∷ directory_of dump files
