-- ===== src/Driver/Opening.antt =====
-- `openDocument`, `adoptOrphanFragments` and the other handlers that change the documents.
use Prim.Native.String.{String}
use slang_server_extended.Base.{
  ℕ, Bytes, List, [], ◌∷◌, ◌++◌, Bool, true, false, not, ◌&&◌, ◌||◌, ◌==◌, if◌then◌else◌, Option,
  none, some, ◌>>=◌,
}
use slang_server_extended.Indexer.Defs.{contains}
use slang_server_extended.SlangDoc.Defs.{text_matches}
use slang_server_extended.Driver.Trees.{SyntaxTree, classify_standalone_parse, is_standalone}
use slang_server_extended.Driver.Documents.{
  regions, ServerDriver, World, find_doc, include_owners, is_include_fragment, uri_of, buffer_of,
  make_document, set_doc, add_include_owner, add_include_owners, is_document_open, includes,
  find_include_owners, resolve_document, analyze_document, has_position,
}

-- The locals of `openDocument` after its first part.
pub record Opening : Type 0 where
  pub driver : ServerDriver
  pub doc : Option ℕ
  pub matches_build_source : Bool
  pub already_in_build : Bool

module _ (world : World) where
  unfoldable pub bind_owners : ℕ → List ℕ → Opening → Opening
  bind_owners h [] o = o
  bind_owners h (p ∷ ps) o = record o {
    driver = add_include_owners world h (p ∷ ps) o.driver;
    already_in_build = false;
  }

  -- A known document with the text that the editor has.
  unfoldable pub reopen : String → ℕ → ServerDriver → Opening
  unfolding bind_owners
  reopen uri h st =
      let o : Opening = record {
        driver = st;
        doc = some h;
        matches_build_source = contains uri st.build_source_uris;
        already_in_build = true;
      } in
      if is_include_fragment st h
      then o
      else if is_standalone (classify_standalone_parse (world.parse st h))
      then o
      else bind_owners h (find_include_owners world st uri) o

  abbrev pub nothing : ServerDriver → Opening
  nothing st = record {
    driver = st;
    doc = none;
    matches_build_source = false;
    already_in_build = false;
  }

  -- A document of the build that was not made yet.
  unfoldable pub open_build_source : String → Bytes → ServerDriver → Opening
  open_build_source uri text st =
      let (probed, h) =
        make_document (record { uri = uri; buffer = world.source_text st uri; include_owners = [] })
          st in
      if not (is_standalone (classify_standalone_parse (world.parse probed h)))
      then nothing probed
      else if text_matches (buffer_of probed h) text
      then record {
        driver = (set_doc uri (probed, h)).0;
        doc = some h;
        matches_build_source = true;
        already_in_build = false;
      }
      else nothing probed

  unfoldable pub find_known : String → Bytes → ServerDriver → Option ℕ → Opening
  unfolding reopen open_build_source
  find_known uri text st (some h) =
      if text_matches (buffer_of st h) text then reopen uri h st else nothing st
  find_known uri text st none =
      if contains uri st.build_source_uris then open_build_source uri text st else nothing st

  abbrev pub made : String → Bytes → Opening → Option ℕ → ServerDriver × ℕ
  made uri text o (some h) = (o.driver, h)
  made uri text o none = set_doc uri (resolve_document world uri (some text) o.driver)

  -- Whether a document becomes one that the new owner includes.
  unfoldable pub is_orphan : ServerDriver → ℕ → SyntaxTree → String × ℕ → Bool
  unfolding has_position
  is_orphan st owner tree (uri, h) =
      not (h == owner)
      && includes world tree uri
      && not (has_position owner (include_owners st h))
      && (is_include_fragment st h
          || not (is_standalone (classify_standalone_parse (world.parse st h))))

  -- `toAdopt`
  unfoldable pub orphans : ServerDriver → ℕ → SyntaxTree → List (String × ℕ) → List ℕ
  unfolding is_orphan
  orphans st owner tree [] = []
  orphans st owner tree (d ∷ ds) =
      let rest = orphans st owner tree ds in if is_orphan st owner tree d then d.1 ∷ rest else rest

  unfoldable pub adopt_each : ℕ → ℕ → List ℕ → ServerDriver → Option ServerDriver
  adopt_each n owner [] st = some st
  adopt_each n owner (h ∷ hs) st =
      let bound = add_include_owner world h owner st in
      (if is_document_open (uri_of bound h) bound
        then analyze_document world n h bound
        else some bound)
      >>= adopt_each n owner hs

  abbrev pub adopt_into : ℕ → ℕ → ServerDriver → Option SyntaxTree → Option ServerDriver
  adopt_into n owner st none = some st
  adopt_into n owner st (some tree) = adopt_each n owner (orphans st owner tree st.docs) st

  unfoldable pub adopt_orphan_fragments : ℕ → ℕ → ServerDriver → Option ServerDriver
  unfolding adopt_each orphans
  adopt_orphan_fragments n owner st =
      if not st.resolve_include_fragments
      then some st
      else adopt_into n owner st (world.parse st owner)

  -- `m_openDocs.insert(uri)`
  abbrev pub insert_open : String → ServerDriver → ServerDriver
  insert_open uri st =
      if contains uri st.open_docs then st else record st { open_docs = uri ∷ st.open_docs }

  abbrev pub publish_regions : ℕ → ServerDriver → ServerDriver
  publish_regions h st = record st { log = st.log ++ (regions h ∷ []) }

  abbrev pub publish_opened : ℕ → Bool → ℕ → ServerDriver → Option ServerDriver
  publish_opened n matches h st =
      if st.comp && matches then some (publish_regions h st) else analyze_document world n h st

  -- `openDocument` from the point where the document is there.
  unfoldable pub finish_open : ℕ → String → Opening → ServerDriver × ℕ → Option ServerDriver
  unfolding adopt_orphan_fragments
  finish_open n uri o (st, h) = publish_opened n o.matches_build_source h st >>= λ published.
      let opened = insert_open uri published in
      if not (is_include_fragment opened h) && not o.already_in_build
      then adopt_orphan_fragments n h opened
      else some opened

  unfoldable pub open_document : ℕ → String → Bytes → ServerDriver → Option ServerDriver
  unfolding find_known finish_open
  open_document n uri text st =
      let o = find_known uri text st (find_doc uri st.docs) in
      finish_open n uri o (made uri text o o.doc)
