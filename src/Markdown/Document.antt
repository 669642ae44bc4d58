-- ===== src/Markdown/Document.antt =====
-- Documents: paragraphs and how they are put together.
use slang_server_extended.Base.{
  List, [], ◌∷◌, ◌++◌, Bool, true, false, ◌&&◌, if◌then◌else◌, ◌≡◌, refl, arith, Bytes, is_nil,
  all_of, append_assoc, append-nil,
}
use slang_server_extended.Markdown.Paragraph.{Paragraph, is_empty}

pub record Document : Type 0 where
  pub paragraphs : List Paragraph

unfoldable pub add_paragraph : Paragraph → Document → Document
add_paragraph p d = record d { paragraphs = d.paragraphs ++ (p ∷ []) }

unfoldable pub append_document : Document → Document → Document
append_document e d = record d { paragraphs = d.paragraphs ++ e.paragraphs }

unfoldable pub is_empty_document : Document → Bool
unfolding is_empty
is_empty_document d = all_of is_empty d.paragraphs

abbrev pub separator : Bytes
separator = 10 ∷ 10 ∷ b'-' ∷ b'-' ∷ b'-' ∷ 10 ∷ 10 ∷ []

-- The loop of `build`, what it writes from here on.
unfoldable pub build_from : Bool → List Paragraph → Bytes
unfolding is_empty
build_from first [] = []
build_from first (p ∷ ps) =
    if is_empty p
    then build_from first ps
    else (if first then [] else separator) ++ p.buffer ++ build_from false ps

unfoldable pub build : Document → Bytes
unfolding build_from
build d = build_from true d.paragraphs

build_from-append :
    (first : Bool) (ps qs : List Paragraph)
    → build_from first (ps ++ qs)
      ≡ build_from first ps ++ build_from (first && all_of is_empty ps) qs
unfolding build_from
build_from-append true [] qs = refl
build_from-append false [] qs = refl
build_from-append true (p ∷ ps) qs = ground (
  arith,
  build_from-append true ps qs,
  build_from-append false ps qs,
  append_assoc p.buffer (build_from false ps) (build_from false qs),
)
build_from-append false (p ∷ ps) qs = ground (
  arith,
  build_from-append false ps qs,
  append_assoc (separator ++ p.buffer) (build_from false ps) (build_from false qs),
)

build_from-later :
    (qs : List Paragraph)
    → build_from false qs ≡ (if all_of is_empty qs then [] else separator ++ build_from true qs)
unfolding build_from
build_from-later [] = refl
build_from-later (q ∷ qs) =
    ground (arith, build_from-later qs, append_assoc separator q.buffer (build_from false qs))

build_from-empty :
    (first : Bool) (ps : List Paragraph) → all_of is_empty ps ≡ true → build_from first ps ≡ []
unfolding build_from
build_from-empty first [] h = refl
build_from-empty first (p ∷ ps) h = ground (arith, h, build_from-empty first ps)

is_nil-append : (s t : Bytes) → is_nil (s ++ t) ≡ (is_nil s && is_nil t)
is_nil-append [] t = refl
is_nil-append (c ∷ s) t = refl

build_from-nonempty :
    (ps : List Paragraph) → all_of is_empty ps ≡ false → is_nil (build_from true ps) ≡ false
unfolding build_from is_empty
build_from-nonempty [] h = ground (arith, h)
build_from-nonempty (p ∷ ps) h =
    ground (arith, h, build_from-nonempty ps, is_nil-append p.buffer (build_from false ps))

-- The text of a document put behind another is the two texts with the separator between, or the one
-- that there is where a document is empty: paragraphs without content leave no trace.
pub build-append_document :
    (e d : Document)
    → build (append_document e d) ≡ (
        if is_empty_document d
        then build e
        else if is_empty_document e
        then build d
        else build d ++ separator ++ build e)
unfolding build append_document is_empty_document
build-append_document e d = ground (
  arith,
  build_from-append true d.paragraphs e.paragraphs,
  build_from-later e.paragraphs,
  build_from-empty true d.paragraphs,
  append-nil (build d),
  append_assoc (build d) separator (build e),
)

-- `isEmpty` says whether the text that `build` gives is empty.
pub is_empty-build : (d : Document) → is_empty_document d ≡ is_nil (build d)
unfolding build is_empty_document
is_empty-build d =
    ground (arith, build_from-empty true d.paragraphs, build_from-nonempty d.paragraphs)
