-- ===== src/Indexer/Offers.antt =====
-- What the text of a file offers to the index, said of its syntax, and that `updateDocument` records
-- it.
use Prim.Native.String.{String}
use text.Mathlib.Text.{◌==◌ as str_eq}
use text.Mathlib.TextEquality.{eq_iff}
use slang_server_extended.Base.{
  ℕ, List, [], ◌∷◌, Bool, false, not, ◌&&◌, ◌==◌, if◌then◌else◌, Option, none, some, ◌≡◌, refl,
  arith, is_nil, Bool-cases, inl, inr,
}
use slang_server_extended.MultiMap.{count}
use slang_server_extended.Indexer.Defs.{
  extract_from_root, extract_macros, GlobalSymbol, Member, MacroDefinition, FileSyntax, contains,
  extract_symbols, extract_references, macro_names, new_entries,
}

abbrev pub is_declaration : Member → Bool
is_declaration m = m.declares && not (str_eq m.name "")

-- How often a text declares a name: its modules, packages and the like of that name.
abbrev pub declares : String → FileSyntax → ℕ
declares n f = count (λ m. is_declaration m && str_eq m.name n) f.members

abbrev pub is_definition : String → Option MacroDefinition → Bool
is_definition n none = false
is_definition n (some m) = m.has_location && str_eq m.name n

-- How often a text is listed for a macro: for those that stand in a source, and not at all for a text
-- that declares something.
abbrev pub defines : String → FileSyntax → ℕ
defines n f = if count is_declaration f.members == 0 then count (is_definition n) f.macros else 0

-- A text is listed once for a name that it refers to.
abbrev pub refers : String → FileSyntax → ℕ
refers n f = if contains n f.referenced then 1 else 0

count-extract_symbols :
    (n : String) (ms : List Member)
    → count (λ (s : GlobalSymbol). str_eq s.name n) (extract_symbols ms)
      ≡ count (λ m. is_declaration m && str_eq m.name n) ms
unfolding extract_symbols count
count-extract_symbols n [] = refl
count-extract_symbols n (m ∷ ms) = ground (arith, count-extract_symbols n ms)

is_nil-extract_symbols :
    (ms : List Member) → is_nil (extract_symbols ms) ≡ (count is_declaration ms == 0)
unfolding extract_symbols count
is_nil-extract_symbols [] = refl
is_nil-extract_symbols (m ∷ ms) = ground (arith, is_nil-extract_symbols ms)

count-macro_names :
    (n : String) (ms : List (Option MacroDefinition))
    → count (λ q. str_eq q n) (macro_names ms) ≡ count (is_definition n) ms
unfolding macro_names count
count-macro_names n [] = refl
count-macro_names n (none ∷ ms) = ground (arith, count-macro_names n ms)
count-macro_names n (some m ∷ ms) = ground (arith, count-macro_names n ms)

abbrev seen_once : String → List String → List String → ℕ
seen_once n seen ns = if contains n ns && not (contains n seen) then 1 else 0

count-extract_references :
    (n : String) (seen ns : List String)
    → count (λ q. str_eq q n) (extract_references seen ns) ≡ seen_once n seen ns
unfolding extract_references count
count-extract_references n seen [] = refl
count-extract_references n seen (m ∷ ns) = ground (
  arith,
  eq_iff m n,
  count-extract_references n seen ns,
  count-extract_references n (m ∷ seen) ns,
)

-- The record that `updateDocument` makes of a text.
pub new_entries-declares :
    (n p : String) (f : FileSyntax)
    → count (λ (s : GlobalSymbol). str_eq s.name n) (new_entries p f).symbols ≡ declares n f
unfolding new_entries extract_from_root extract_macros
new_entries-declares n p f = elim (Bool-cases (is_nil (extract_symbols f.members))) [
  | inl empty ↦ rw (empty, new_entries) (count-extract_symbols n f.members)
  | inr some_declared ↦ rw (some_declared, new_entries) (count-extract_symbols n f.members)
]

pub new_entries-refers :
    (n p : String) (f : FileSyntax)
    → count (λ q. str_eq q n) (new_entries p f).referenced_symbols ≡ refers n f
unfolding new_entries extract_from_root extract_macros
new_entries-refers n p f =
    let h : count (λ q. str_eq q n) (extract_references [] f.referenced) ≡ refers n f =
      ground (arith, count-extract_references n [] f.referenced) in
    elim (Bool-cases (is_nil (extract_symbols f.members))) [
      | inl empty ↦ rw (empty, new_entries) h
      | inr some_declared ↦ rw (some_declared, new_entries) h
    ]

pub new_entries-defines :
    (n p : String) (f : FileSyntax) → count (λ q. str_eq q n) (new_entries p f).macros ≡ defines n f
unfolding new_entries extract_from_root extract_macros count
new_entries-defines n p f =
    let same = is_nil-extract_symbols f.members in
    elim (Bool-cases (is_nil (extract_symbols f.members))) [
      | inl empty ↦
          rw (empty, new_entries) (ground (arith, empty, same, count-macro_names n f.macros))
      | inr some_declared ↦ rw (some_declared, new_entries) (ground (arith, some_declared, same))
    ]
