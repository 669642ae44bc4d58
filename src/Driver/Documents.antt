-- ===== src/Driver/Documents.antt =====
-- The state of `ServerDriver` and its operations on documents. A document is a position of the store:
-- pointers to it are equal where the positions are. A URI is its path. The maps are association
-- lists, in whose order the loops over a map run. What slang makes of the sources is the `World`.
use Prim.Native.String.{String}
use text.Mathlib.Text.{◌==◌ as str_eq}
use slang_server_extended.Base.{
  ℕ, zero, suc, Bytes, List, [], ◌∷◌, ◌++◌, Bool, true, false, not, ◌||◌, ◌==◌, if◌then◌else◌,
  Option, none, some, ◌>>=◌, is_nil, length, get_elem?, update_at,
}
use slang_server_extended.Indexer.Defs.{contains}
use slang_server_extended.SlangDoc.Defs.{ensure_null_terminated}
use slang_server_extended.Driver.Trees.{
  SourceBuffer, SyntaxTree, find_buffer_for_path, classify_standalone_parse, is_standalone,
}

-- The fields of `SlangDoc` that the driver's operations are about.
pub record Document : Type 0 where
  pub uri : String
  pub buffer : Bytes
  pub include_owners : List ℕ

-- `analyzed` stands for the diagnostics and the inactive regions published for a document,
-- `regions` for the inactive regions alone, `cleared` for the diagnostics of a URI dropped, and
-- `compiled` for those of the whole compilation on the save of a document, and `synced` for a text put
-- into a buffer of the source manager, from where the parses in the `World` have it.
pub data Event : Type 0 where
  analyzed : ℕ → Event
  regions : ℕ → Event
  cleared : String → Event
  compiled : ℕ → Event
  synced : ℕ → Bytes → Event

pub record ServerDriver : Type 0 where
  pub docs : List (String × ℕ)
  pub store : List Document
  pub open_docs : List String
  pub build_source_uris : List String
  pub comp : Bool
  pub resolve_include_fragments : Bool
  pub log : List Event

-- The source manager's text of a path, and what it reads again for a document's buffer, its line
-- offsets of a text, the parse of a document without owners, the files that an analysis asks for,
-- whether a document has an analysis, and the two functions on paths.
pub record World : Type 0 where
  pub source_text : ServerDriver → String → Bytes
  pub reloads : ServerDriver → ℕ → Option Bytes
  pub line_offsets : Bytes → List ℕ
  pub parse : ServerDriver → ℕ → Option SyntaxTree
  pub loads : ServerDriver → ℕ → List String
  pub has_analysis : ServerDriver → ℕ → Bool
  pub lexically_normal : String → String
  pub weakly_canonical : String → Option String

abbrev pub find_doc : String → List (String × ℕ) → Option ℕ
find_doc uri [] = none
find_doc uri ((u, h) ∷ ds) = if str_eq u uri then some h else find_doc uri ds

-- `docs[uri] = doc`
abbrev pub assign_doc : String → ℕ → List (String × ℕ) → List (String × ℕ)
assign_doc uri h [] = (uri, h) ∷ []
assign_doc uri h ((u, g) ∷ ds) = if str_eq u uri then (u, h) ∷ ds else (u, g) ∷ assign_doc uri h ds

abbrev pub owners_in : Option Document → List ℕ
owners_in none = []
owners_in (some d) = d.include_owners

-- `getIncludeOwners`, `isIncludeFragment` and `getURI`
abbrev pub include_owners : ServerDriver → ℕ → List ℕ
include_owners st h = owners_in (get_elem? st.store h)

abbrev pub is_include_fragment : ServerDriver → ℕ → Bool
is_include_fragment st h = not (is_nil (include_owners st h))

abbrev pub uri_in : Option Document → String
uri_in none = ""
uri_in (some d) = d.uri

abbrev pub uri_of : ServerDriver → ℕ → String
uri_of st h = uri_in (get_elem? st.store h)

abbrev buffer_in : Option Document → Bytes
buffer_in none = []
buffer_in (some d) = d.buffer

abbrev pub buffer_of : ServerDriver → ℕ → Bytes
buffer_of st h = buffer_in (get_elem? st.store h)

-- `std::make_shared<SlangDoc>`
abbrev pub make_document : Document → ServerDriver → ServerDriver × ℕ
make_document d st = (record st { store = st.store ++ (d ∷ []) }, length st.store)

abbrev pub set_doc : String → ServerDriver × ℕ → ServerDriver × ℕ
set_doc uri (st, h) = (record st { docs = assign_doc uri h st.docs }, h)

unfoldable pub has_position : ℕ → List ℕ → Bool
has_position o [] = false
has_position o (p ∷ ps) = if p == o then true else has_position o ps

-- The owner added, unless it is there.
unfoldable pub with_owner : ℕ → Document → Document
unfolding has_position
with_owner o d =
    if has_position o d.include_owners
    then d
    else record d { include_owners = d.include_owners ++ (o ∷ []) }

abbrev pub is_document_open : String → ServerDriver → Bool
is_document_open uri st = contains uri st.open_docs

module _ (world : World) where
  synced_in : Bytes → Option SourceBuffer → List Event
  synced_in text none = []
  synced_in text (some b) = synced b.id text ∷ []

  synced_tree : Bytes → String → Option SyntaxTree → List Event
  unfolding synced_in
  synced_tree text path none = []
  synced_tree text path (some tree) =
      synced_in text (find_buffer_for_path world.lexically_normal world.weakly_canonical tree path)

  -- The text that `addIncludeOwner` or `fromIncludeOwner` puts into the owner's buffer of the path,
  -- where the owner's tree has one.
  unfoldable pub sync_owner_buffer : ServerDriver → ℕ → String → Bytes → List Event
  unfolding synced_tree ensure_null_terminated
  sync_owner_buffer st o path text =
      synced_tree (ensure_null_terminated text) path (world.parse st o)

  unfoldable pub synced_text : Bytes → Bytes
  synced_text [] = []
  synced_text (c ∷ []) = if c == 0 then [] else c ∷ []
  synced_text (c ∷ d ∷ s) = c ∷ synced_text (d ∷ s)

  abbrev pub added_sync : ServerDriver → ℕ → ℕ → List Event
  added_sync st h o =
      if has_position o (include_owners st h)
      then []
      else sync_owner_buffer st o (uri_of st h) (synced_text (buffer_of st h))

  -- `SlangDoc::addIncludeOwner`
  unfoldable pub add_include_owner : ℕ → ℕ → ServerDriver → ServerDriver
  unfolding with_owner sync_owner_buffer synced_text has_position
  add_include_owner h o st = record st {
    store = update_at h (with_owner o) st.store;
    log = st.log ++ added_sync st h o;
  }

  unfoldable pub add_include_owners : ℕ → List ℕ → ServerDriver → ServerDriver
  unfolding add_include_owner
  add_include_owners h [] st = st
  add_include_owners h (o ∷ os) st = add_include_owners h os (add_include_owner h o st)

  included_as : Option SourceBuffer → Bool
  included_as none = false
  included_as (some b) = b.included

  -- The tree has a buffer of the path, and that buffer is included by another.
  unfoldable pub includes : SyntaxTree → String → Bool
  unfolding included_as
  includes tree path =
      included_as (find_buffer_for_path world.lexically_normal world.weakly_canonical tree path)

  unfoldable pub is_owner_of : Option SyntaxTree → String → Bool
  unfolding includes
  is_owner_of none path = false
  is_owner_of (some tree) path = includes tree path

  -- The loop over the documents.
  unfoldable pub owners_among : ServerDriver → String → List (String × ℕ) → List ℕ
  unfolding is_owner_of
  owners_among st uri [] = []
  owners_among st uri ((u, h) ∷ ds) =
      let rest = owners_among st uri ds in
      if str_eq u uri || is_include_fragment st h
      then rest
      else if is_owner_of (world.parse st h) uri
      then h ∷ rest
      else rest

  unfoldable pub find_include_owners : ServerDriver → String → List ℕ
  unfolding owners_among
  find_include_owners st uri =
      if not st.resolve_include_fragments then [] else owners_among st uri st.docs

  -- The buffer of a document made from live text, or from the source manager's.
  abbrev pub text_or_source : ServerDriver → String → Option Bytes → Bytes
  text_or_source st uri none = world.source_text st uri
  text_or_source st uri (some text) = ensure_null_terminated text

  abbrev pub new_document : String → Option Bytes → List ℕ → ServerDriver → ServerDriver × ℕ
  new_document uri text owners st =
      make_document
        (record { uri = uri; buffer = text_or_source st uri text; include_owners = owners }) st

  -- The document that stands alone: the probe itself, or one with the live text.
  abbrev pub standalone_document : String → Option Bytes → ServerDriver × ℕ → ServerDriver × ℕ
  standalone_document uri none probe = probe
  standalone_document uri (some text) probe = new_document uri (some text) [] probe.0

  abbrev pub owner_sync : ServerDriver → String → Option Bytes → List ℕ → List Event
  owner_sync st uri none os = []
  owner_sync st uri (some text) [] = []
  owner_sync st uri (some text) (o ∷ os) = sync_owner_buffer st o uri text

  -- `SlangDoc::fromIncludeOwner`: live text is synced into the first owner's buffer.
  unfoldable pub from_include_owner :
      String → Option Bytes → List ℕ → ServerDriver → ServerDriver × ℕ
  unfolding sync_owner_buffer
  from_include_owner uri text owners st =
      new_document uri text owners (record st { log = st.log ++ owner_sync st uri text owners })

  unfoldable pub resolve_document : String → Option Bytes → ServerDriver → ServerDriver × ℕ
  unfolding find_include_owners from_include_owner
  resolve_document uri text st =
      let owners = find_include_owners st uri in
      if is_nil owners
      then new_document uri text [] st
      else (let probe = new_document uri none [] st in
          if is_standalone (classify_standalone_parse (world.parse probe.0 probe.1))
          then standalone_document uri text probe
          else from_include_owner uri text owners probe.0)

  unfoldable pub found_or_made : String → ServerDriver → Option ℕ → ServerDriver × ℕ
  unfolding resolve_document
  found_or_made uri st (some h) = (st, h)
  found_or_made uri st none = set_doc uri (resolve_document uri none st)

  unfoldable pub get_document : String → ServerDriver → ServerDriver × ℕ
  unfolding found_or_made
  get_document uri st = found_or_made uri st (find_doc uri st.docs)

  unfoldable pub get_documents : List String → ServerDriver → ServerDriver
  unfolding get_document
  get_documents [] st = st
  get_documents (u ∷ us) st = get_documents us (get_document u st).0

  -- The part of `analyzeDocument` in front of the owners.
  unfoldable pub analyze_alone : ℕ → ServerDriver → ServerDriver
  unfolding get_documents
  analyze_alone h st =
      get_documents (world.loads st h) (record st { log = st.log ++ (analyzed h ∷ []) })

  -- The loop over the owners, with the recursive call.
  unfoldable pub refresh_owners :
      (ℕ → ServerDriver → Option ServerDriver) → List ℕ → ServerDriver → Option ServerDriver
  refresh_owners analyze [] st = some st
  refresh_owners analyze (o ∷ os) st =
      (if is_document_open (uri_of st o) st then analyze o st else some st)
      >>= refresh_owners analyze os

  -- The recursion, as deep as the fuel says.
  unfoldable pub analyze_document : ℕ → ℕ → ServerDriver → Option ServerDriver
  unfolding analyze_alone refresh_owners
  analyze_document zero h st = none
  analyze_document (suc n) h st =
      let next = analyze_alone h st in
      refresh_owners (analyze_document n) (include_owners next h) next
