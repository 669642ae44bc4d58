-- ===== src/Diagnostics/Defs.antt =====
-- The state of ServerDiagClient and its operations. A URI is its text. A message to the editor is a
-- value in the list of messages sent, newest first. The diagnostic engine, the source manager and the
-- conversion of locations are parameters.
use Prim.Native.String.{String}
use text.Mathlib.Text.{◌==◌ as str_eq}
use slang_server_extended.Base.{
  ℕ, List, [], ◌∷◌, ◌++◌, map, Bool, true, false, not, ◌&&◌, ◌||◌, if◌then◌else◌, is_nil, Option,
  none, some,
}
use slang_server_extended.Diagnostics.Locations.{
  at, SourceLocation, SourceRange, Shown, get_location,
}
use slang_server_extended.MultiMap.{Map, find, push, erase}

-- slang::DiagnosticSeverity
pub data Severity : Type 0 where
  ignored note warning error fatal : Severity

-- lsp::DiagnosticSeverity
pub data LspSeverity : Type 0 where
  lsp_error lsp_warning information hint : LspSeverity

unfoldable pub convert_severity : Severity → LspSeverity
convert_severity ignored = hint
convert_severity note = information
convert_severity warning = lsp_warning
convert_severity error = lsp_error
convert_severity fatal = lsp_error

-- The diagnostic codes that `report` and `isUnusedCode` tell apart; the others by number.
pub data DiagCode : Type 0 where
  no_top_modules command_line_warning command_line_error : DiagCode
  unused_argument unused_assertion_decl unused_definition unused_genvar unused_implicit_net :
      DiagCode
  unused_import unused_net unused_parameter unused_port unused_type_parameter : DiagCode
  unused_typedef unused_variable unused_wildcard_import : DiagCode
  other_analysis other : ℕ → DiagCode

unfoldable pub is_unused_code : DiagCode → Bool
is_unused_code unused_argument = true
is_unused_code unused_assertion_decl = true
is_unused_code unused_definition = true
is_unused_code unused_genvar = true
is_unused_code unused_implicit_net = true
is_unused_code unused_import = true
is_unused_code unused_net = true
is_unused_code unused_parameter = true
is_unused_code unused_port = true
is_unused_code unused_type_parameter = true
is_unused_code unused_typedef = true
is_unused_code unused_variable = true
is_unused_code unused_wildcard_import = true
is_unused_code _ = false

-- lsp::Location: a document and the place in it, which stays abstract.
pub record Location {ℓ} (Place : Type ℓ) : Type ℓ where
  pub uri : String
  pub range : Place

pub record RelatedInformation {ℓ} (Place : Type ℓ) : Type ℓ where
  pub location : Location Place
  pub message : String

pub record Diagnostic {ℓ} (Place : Type ℓ) : Type ℓ where
  pub range : Place
  pub severity : LspSeverity
  pub message : String
  pub related_information : Option (List (RelatedInformation Place))
  pub code : Option String
  pub unnecessary : Bool

pub record Note : Type 0 where
  pub location : Option SourceLocation
  pub shows_without_location : Bool
  pub message : String

-- slang::ReportedDiagnostic, its original diagnostic's code and notes included.
pub record ReportedDiagnostic : Type 0 where
  pub code : DiagCode
  pub severity : Severity
  pub message : String
  pub location : SourceLocation
  pub ranges : List SourceRange
  pub expansion_locs : List SourceLocation
  pub notes : List Note

-- The diagnostic engine and the source manager of slang.
pub record Engine {ℓ} (Place : Type ℓ) : Type ℓ where
  pub map_source_ranges : SourceLocation → List SourceRange → List SourceRange
  pub fully_original_loc : SourceLocation → SourceLocation
  pub option_name : DiagCode → String
  pub to_location : Shown → Location Place

-- What the client is told.
pub data Message {ℓ} (Place : Type ℓ) : Type ℓ where
  publish : String → List (Diagnostic Place) → Message Place
  show_warning show_error : String → Message Place

pub record DiagClient {ℓ} (Place : Type ℓ) : Type ℓ where
  pub diagnostics : Map (Diagnostic Place)
  pub dirty_uris : List String
  pub sent : List (Message Place)

abbrev pub contains : String → List String → Bool
contains k [] = false
contains k (j ∷ js) = str_eq j k || contains k js

abbrev pub emplace : String → List String → List String
emplace k s = if contains k s then s else k ∷ s

unfoldable pub option_map {ℓ} : {B : Type ℓ} → (Shown → B) → Option Shown → List B
option_map f none = []
option_map f (some s) = f s ∷ []

unfoldable pub is_note : Severity → Bool
is_note note = true
is_note _ = false

unfoldable pub is_no_top_modules : DiagCode → Bool
is_no_top_modules no_top_modules = true
is_no_top_modules _ = false

unfoldable pub emplace_all : List String → List String → List String
emplace_all [] s = s
emplace_all (u ∷ us) s = emplace_all us (emplace u s)

abbrev pub erase_uri : String → List String → List String
erase_uri u [] = []
erase_uri u (v ∷ vs) = let rest = erase_uri u vs in if str_eq v u then rest else v ∷ rest

module _ {ℓ} {Place : Type ℓ} where
  unfoldable pub send : Message Place → DiagClient Place → DiagClient Place
  send m c = record c { sent = m ∷ c.sent }

  -- The expansion locations, last first, and then the notes.
  unfoldable pub expansion_related :
      Engine Place → ReportedDiagnostic → List SourceLocation → List (RelatedInformation Place)
  unfolding option_map get_location
  expansion_related e d [] = []
  expansion_related e d (loc ∷ locs) =
      expansion_related e d locs
      ++ option_map (λ s. record { location = e.to_location s; message = d.message })
          (get_location (e.fully_original_loc loc) (e.map_source_ranges loc d.ranges))

  unfoldable pub note_related :
      Engine Place → Location Place → List Note → List (RelatedInformation Place)
  note_related e main [] = []
  note_related e main (n ∷ ns) =
      let rest = note_related e main ns in
      elim n.location [
        | none ↦
            if n.shows_without_location
            then record { location = main; message = n.message } ∷ rest
            else rest
        | some loc ↦ record { location = e.to_location (at loc); message = n.message } ∷ rest
      ]

  unfoldable pub make_diagnostic :
      Engine Place → ReportedDiagnostic → Location Place → Diagnostic Place
  unfolding expansion_related note_related convert_severity is_unused_code
  make_diagnostic e d main =
      let related = expansion_related e d d.expansion_locs ++ note_related e main d.notes in
      let named = not (str_eq (e.option_name d.code) "") in
      record {
        range = main.range;
        severity = convert_severity d.severity;
        message = d.message;
        related_information = if is_nil related then none else some related;
        code = if named then some (e.option_name d.code) else none;
        unnecessary = named && is_unused_code d.code;
      }

  -- The part of `report` behind its early returns.
  unfoldable pub record_diagnostic :
      Engine Place → ReportedDiagnostic → DiagClient Place → DiagClient Place
  unfolding make_diagnostic get_location push
  record_diagnostic e d c =
      elim (get_location d.location (e.map_source_ranges d.location d.ranges)) [
        | none ↦ c
        | some s ↦
            (let main = e.to_location s in
              record c {
                diagnostics = push main.uri (make_diagnostic e d main) c.diagnostics;
                dirty_uris = emplace main.uri c.dirty_uris;
              })
      ]

  unfoldable pub report_code :
      DiagCode → Engine Place → ReportedDiagnostic → DiagClient Place → DiagClient Place
  unfolding send record_diagnostic
  report_code command_line_warning e d c = send (show_warning d.message) c
  report_code command_line_error e d c = send (show_error d.message) c
  report_code _ e d c = record_diagnostic e d c

  unfoldable pub report : Engine Place → ReportedDiagnostic → DiagClient Place → DiagClient Place
  unfolding report_code is_note is_no_top_modules
  report e d c =
      if is_no_top_modules d.code
      then c
      else if is_note d.severity
      then c
      else report_code d.code e d c

  -- `clear(uri)`
  unfoldable pub clear_uri : String → DiagClient Place → DiagClient Place
  unfolding erase
  clear_uri u c = record c {
    diagnostics = erase u c.diagnostics;
    dirty_uris = emplace u c.dirty_uris;
  }

  abbrev pub keys : Map (Diagnostic Place) → List String
  keys = map (λ e. e.0)

  -- An empty list is published for each document.
  unfoldable pub retract : List String → DiagClient Place → DiagClient Place
  unfolding send
  retract [] c = c
  retract (u ∷ us) c = retract us (send (publish u []) c)

  unfoldable pub clear_and_push : DiagClient Place → DiagClient Place
  unfolding retract
  clear_and_push c =
      let told = retract c.dirty_uris (retract (keys c.diagnostics) c) in
      record told { diagnostics = []; dirty_uris = [] }

  -- `clear()`
  unfoldable pub clear : DiagClient Place → DiagClient Place
  unfolding emplace_all
  clear c = record c {
    diagnostics = [];
    dirty_uris = emplace_all (keys c.diagnostics) c.dirty_uris;
  }

  unfoldable pub push_uri : String → DiagClient Place → DiagClient Place
  unfolding send find
  push_uri u c = elim (find u c.diagnostics) [
    | some ds ↦ send (publish u ds) c
    | none ↦ send (publish u []) c
  ]

  unfoldable pub push_uris : List String → DiagClient Place → DiagClient Place
  unfolding push_uri
  push_uris [] c = c
  push_uris (u ∷ us) c = push_uris us (push_uri u c)

  -- `pushDiags()`
  unfoldable pub push_diags : DiagClient Place → DiagClient Place
  unfolding push_uris
  push_diags c = record (push_uris c.dirty_uris c) { dirty_uris = [] }

  -- `pushDiags(priorityUri)`
  unfoldable pub push_diags_first : String → DiagClient Place → DiagClient Place
  unfolding send find push_diags
  push_diags_first u c =
      let told : DiagClient Place = elim (find u c.diagnostics) [
        | some ds ↦ send (publish u ds) c
        | none ↦ if contains u c.dirty_uris then send (publish u []) c else c
      ] in
      push_diags (record told { dirty_uris = erase_uri u told.dirty_uris })
