-- ===== src/Indexer/Queries.antt =====
-- What the three queries find after any history, said of the texts and not of the index.
use Prim.Native.String.{String}
use text.Mathlib.Text.{◌==◌ as str_eq}
use slang_server_extended.Base.{ℕ, List, [], ◌∷◌, if◌then◌else◌}
use slang_server_extended.MultiMap.{count}
use slang_server_extended.Indexer.Defs.{
  Index, IndexedPath, FileSyntax, get_files_for_symbol, get_files_for_macro,
  get_files_referencing_symbol,
}
use slang_server_extended.Indexer.Consistency.Files.{is_text}
use slang_server_extended.Indexer.History.{FileEvent, updated, removed, names}

-- How often the queries list a file under a name.
abbrev pub declared_in : Index → String → String → ℕ
declared_in ix n p = count (is_text p) (get_files_for_symbol n ix)

abbrev pub defined_in : Index → String → String → ℕ
defined_in ix n p = count (is_text p) (get_files_for_macro n ix)

abbrev pub referred_in : Index → String → String → ℕ
referred_in ix n p = count (is_text p) (get_files_referencing_symbol n ix)

-- A measure of the text that a file has after the events, from what it was before them: 0 where the
-- file was removed last.
unfoldable pub last_of : (FileSyntax → ℕ) → List FileEvent → String → ℕ → ℕ
last_of g [] p k = k
last_of g (updated q f ∷ es) p k = last_of g es p (if str_eq q p then g f else k)
last_of g (removed q ∷ es) p k = last_of g es p (if str_eq q p then 0 else k)

abbrev names_of : String → IndexedPath → ℕ
names_of n e = count (names n) e.symbols

abbrev macros_of : String → IndexedPath → ℕ
macros_of n e = count (is_text n) e.macros

abbrev references_of : String → IndexedPath → ℕ
references_of n e = count (is_text n) e.referenced_symbols
