-- ===== src/SlangDoc/Defs.antt =====
-- `SlangDoc::onChange` and the text operations around it. A text is the source manager's text of the
-- document's buffer, its NUL at the end included. `compute_line_offsets` stands for slang's
-- `SourceManager::computeLineOffsets`.
use slang_server_extended.Base.{
  ℕ, ◌+◌, Bytes, List, [], ◌∷◌, ◌++◌, Bool, true, false, ◌&&◌, ◌==◌, ltb, leb, length, take, drop,
  if◌then◌else◌, Option, none, some, bytes_eq, get_elem?,
}

pub record Position : Type 0 where
  pub line : ℕ
  pub character : ℕ

pub record Range : Type 0 where
  pub start : Position
  pub stop : Position

-- `TextDocumentContentChangePartial` and `TextDocumentContentChangeWholeDocument`
pub data ContentChange : Type 0 where
  partial : Range → Bytes → ContentChange
  whole_document : Bytes → ContentChange

-- What an edit of the buffer comes to: the new bytes, the `std::runtime_error` of `getOffsets`, or
-- an iterator past the end of the buffer.
pub data Edited {ℓ} (A : Type ℓ) : Type ℓ where
  edited : A → Edited A
  throws : Edited A
  undefined : Edited A

infixl 5 ◌>=>◌
abbrev pub ◌>=>◌ {ℓ κ} : {A : Type ℓ} {B : Type κ} → Edited A → (A → Edited B) → Edited B
edited a >=> f = f a
throws >=> f = throws
undefined >=> f = undefined

abbrev pub ends_in_nul : Bytes → Bool
ends_in_nul [] = false
ends_in_nul (c ∷ []) = c == 0
ends_in_nul (c ∷ d ∷ s) = ends_in_nul (d ∷ s)

-- Also the copy of `fromText` and of `syncOwnerBuffer`.
unfoldable pub ensure_null_terminated : Bytes → Bytes
ensure_null_terminated s = if ends_in_nul s then s else s ++ (0 ∷ [])

-- The buffer around a change, each part an iterator range that has to lie inside the text.
unfoldable pub copy_around : Bytes → Bytes → ℕ × ℕ → Edited Bytes
copy_around view x (s, e) =
    if leb s (length view) && leb e (length view)
    then edited (take s view ++ x ++ drop e view)
    else undefined

-- The deletion: `buffer.erase` where the range is not empty.
unfoldable pub erase : Bytes → ℕ × ℕ → Edited Bytes
erase buffer (s, e) =
    if ltb s e
    then (if leb e (length buffer) then edited (take s buffer ++ drop e buffer) else undefined)
    else edited buffer

unfoldable pub insert : ℕ → Bytes → Bytes → Edited Bytes
insert s x buffer =
    if leb s (length buffer) then edited (take s buffer ++ x ++ drop s buffer) else undefined

-- The entries of the line offsets at the two lines, none for a line past their end, and the range's
-- offsets.
unfoldable pub range_offsets : Range → Option ℕ → Option ℕ → Edited (ℕ × ℕ)
range_offsets r (some s) (some e) = edited (s + r.start.character, e + r.stop.character)
range_offsets r (some s) none = throws
range_offsets r none e = throws

module _ (compute_line_offsets : Bytes → List ℕ) where
  unfoldable pub get_offsets : Bytes → Range → Edited (ℕ × ℕ)
  unfolding range_offsets
  get_offsets view r =
      let offsets = compute_line_offsets view in
      range_offsets r (get_elem? offsets r.start.line) (get_elem? offsets r.stop.line)

  unfoldable pub first_change : Bytes → ContentChange → Edited Bytes
  unfolding get_offsets copy_around
  first_change view (partial r x) = get_offsets view r >=> copy_around view x
  first_change view (whole_document x) = edited x

  unfoldable pub later_change : Bytes → ContentChange → Edited Bytes
  unfolding get_offsets erase insert ensure_null_terminated
  later_change buffer (partial r x) = get_offsets buffer r >=> λ o. erase buffer o >=> insert o.0 x
  later_change buffer (whole_document x) = edited (ensure_null_terminated x)

  unfoldable pub later_changes : Bytes → List ContentChange → Edited Bytes
  unfolding later_change
  later_changes buffer [] = edited buffer
  later_changes buffer (c ∷ cs) = later_change buffer c >=> λ b. later_changes b cs

-- The document: the text of its buffer, its tree and its analysis.
pub record SlangDoc {ℓ} (Tree Analysis : Type ℓ) : Type ℓ where
  pub buffer : Bytes
  pub tree : Option Tree
  pub analysis : Option Analysis

module _ {ℓ} {Tree Analysis : Type ℓ} where
  -- `replaceBuffer` and the resets behind it.
  unfoldable pub replace_buffer : SlangDoc Tree Analysis → Bytes → SlangDoc Tree Analysis
  replace_buffer doc buffer = record doc { buffer = buffer; tree = none; analysis = none }

  -- An exception leaves the document as it was.
  unfoldable pub on_change :
      (Bytes → List ℕ)
      → SlangDoc Tree Analysis
      → List ContentChange
      → Edited (SlangDoc Tree Analysis)
  unfolding first_change later_changes ensure_null_terminated replace_buffer
  on_change offsets doc [] = edited doc
  on_change offsets doc (c ∷ cs) = first_change offsets doc.buffer c >=> λ b.
      later_changes offsets (ensure_null_terminated b) cs >=> λ u. edited (replace_buffer doc u)

  -- `reloadBuffer`, with what the source manager reads from the disk.
  unfoldable pub reload_buffer :
      SlangDoc Tree Analysis → Option Bytes → Bool × SlangDoc Tree Analysis
  unfolding replace_buffer
  reload_buffer doc none = (false, doc)
  reload_buffer doc (some text) = (true, replace_buffer doc text)

-- `textMatches`: `memcmp` reads the terminator of the `std::string` too.
unfoldable pub text_matches : Bytes → Bytes → Bool
text_matches buffer text = length buffer == length text + 1 && bytes_eq buffer (text ++ (0 ∷ []))
