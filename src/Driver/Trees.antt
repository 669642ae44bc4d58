-- ===== src/Driver/Trees.antt =====
-- What the driver reads of a syntax tree: slang's metadata and diagnostics of the parse, and the
-- buffers that the source manager holds for it. `lexically_normal` and `weakly_canonical` stand for the functions
-- of std::filesystem, the second one with none for its error code.
use Prim.Native.String.{String}
use text.Mathlib.Text.{◌==◌ as str_eq}
use slang_server_extended.Base.{
  ℕ, List, [], ◌∷◌, Bool, true, false, not, ◌&&◌, if◌then◌else◌, Option, none, some,
}

pub data DeclKind : Type 0 where
  module_declaration interface_declaration package_declaration program_declaration : DeclKind

-- A buffer of a tree: `includedFrom` tells whether `getIncludedFrom` of it is valid.
pub record SourceBuffer : Type 0 where
  pub id : ℕ
  pub valid : Bool
  pub path : String
  pub included : Bool
  pub latest : Bool

pub record SyntaxTree : Type 0 where
  pub node_meta : List (DeclKind × String)
  pub class_decls : List String
  pub diagnostics_is_error : List Bool
  pub declared_symbols : List String
  pub referenced_symbols : List String
  pub buffers : List SourceBuffer

-- `hasValidBuffers`
all_latest : List SourceBuffer → Bool
all_latest [] = true
all_latest (b ∷ bs) = if b.valid && not b.latest then false else all_latest bs

unfoldable pub has_valid_buffers : Option SyntaxTree → Bool
unfolding all_latest
has_valid_buffers none = false
has_valid_buffers (some tree) = all_latest tree.buffers

module _ (lexically_normal : String → String) (weakly_canonical : String → Option String) where
  unfoldable pub find_lexical : String → List SourceBuffer → Option SourceBuffer
  find_lexical target [] = none
  find_lexical target (b ∷ bs) =
      let rest = find_lexical target bs in
      if not b.valid then rest else if str_eq (lexically_normal b.path) target then some b else rest

  unfoldable pub find_canonical : String → List SourceBuffer → Option SourceBuffer
  find_canonical target [] = none
  find_canonical target (b ∷ bs) =
      let rest = find_canonical target bs in
      if not b.valid then rest else elim (weakly_canonical b.path) [
        | none ↦ rest
        | some path ↦ if str_eq path target then some b else rest
      ]

  unfoldable pub find_buffer_for_path : SyntaxTree → String → Option SourceBuffer
  unfolding find_lexical find_canonical
  find_buffer_for_path tree path = elim (find_lexical (lexically_normal path) tree.buffers) [
    | some b ↦ some b
    | none ↦ elim (weakly_canonical path) [
      | none ↦ none
      | some target ↦ find_canonical target tree.buffers
    ]
  ]

pub data StandaloneParse : Type 0 where
  fragment standalone : StandaloneParse

abbrev pub is_standalone : StandaloneParse → Bool
is_standalone standalone = true
is_standalone fragment = false

unfoldable pub any_named : List String → Bool
any_named [] = false
any_named (n ∷ ns) = if not (str_eq n "") then true else any_named ns

unfoldable pub any_declared : List (DeclKind × String) → Bool
any_declared [] = false
any_declared ((k, n) ∷ ms) = if not (str_eq n "") then true else any_declared ms

unfoldable pub any_error : List Bool → Bool
any_error [] = false
any_error (e ∷ es) = if e then true else any_error es

-- A null document has no tree either.
unfoldable pub classify_standalone_parse : Option SyntaxTree → StandaloneParse
unfolding any_named any_declared any_error
classify_standalone_parse none = fragment
classify_standalone_parse (some tree) =
    if any_declared tree.node_meta
    then standalone
    else if any_named tree.class_decls
    then standalone
    else if any_error tree.diagnostics_is_error
    then fragment
    else standalone
