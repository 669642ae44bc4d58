-- ===== src/SlangDoc/Protocol.antt =====
-- The positions of the Language Server Protocol, and `onChange` on changes whose positions are the same
-- in the protocol and in bytes: inside their line, with ASCII alone in front of them.
use slang_server_extended.Base.{
  ℕ, zero, suc, ◌==◌, ◌||◌, leb, Bytes, List, [], ◌∷◌, if◌then◌else◌, Option, none, some, ◌>>=◌,
  get_elem?, drop,
}
use slang_server_extended.SlangDoc.Defs.{Position, ContentChange, partial, whole_document, SlangDoc}
use slang_server_extended.SlangDoc.Edits.{replace_range, shifted_by}

abbrev pub one_more : Option ℕ → Option ℕ
one_more none = none
one_more (some n) = some (suc n)

-- The offset of a column in what follows the start of its line. A column counts UTF-16 code units, of
-- which an ASCII character is one; there is none for a column past the end of the line, or behind a
-- byte that is not ASCII.
unfoldable pub column_offset : ℕ → Bytes → Option ℕ
column_offset zero s = some zero
column_offset (suc k) [] = none
column_offset (suc k) (c ∷ s) =
    let rest = column_offset k s in if c == 10 || c == 13 || leb 128 c then none else one_more rest

abbrev pub offset_behind : Bytes → ℕ → Option ℕ → Option ℕ
offset_behind t column none = none
offset_behind t column (some start) = shifted_by start (column_offset column (drop start t))

module _ (line_offsets : Bytes → List ℕ) where
  abbrev pub lsp_offset : Bytes → Position → Option ℕ
  lsp_offset t p = offset_behind t p.character (get_elem? (line_offsets t) p.line)

  unfoldable pub apply_change : Bytes → ContentChange → Option Bytes
  unfolding replace_range
  apply_change t (partial r x) = replace_range t x (lsp_offset t r.start) (lsp_offset t r.stop)
  apply_change t (whole_document x) = some x

  -- "Apply the `TextDocumentContentChangeEvent`s in a single notification in the order you receive
  -- them."
  unfoldable pub apply_changes : Bytes → List ContentChange → Option Bytes
  unfolding apply_change
  apply_changes t [] = some t
  apply_changes t (c ∷ cs) = apply_change t c >>= λ u. apply_changes u cs
