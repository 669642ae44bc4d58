-- ===== src/Uri/Layout.antt =====
-- The class URI: one string and the places of its components in it. A URI is matched against the
-- pattern of RFC 3986 by the ctre library, which is a parameter here.
pub mod Views
use slang_server_extended.Base.{
  ℕ, ◌+◌, Bytes, List, [], ◌∷◌, ◌++◌, append_assoc, append-nil, Bool, true, false, ◌||◌, ◌==◌, not,
  if◌then◌else◌, Option, none, some, ◌>>=◌, ◌≡◌, refl, arith, length, take, drop, is_nil, codes,
  bytes_eq, Bool-cases, inl, inr, length-append, drop-length-append, take-length-append,
}
use slang_server_extended.Uri.Codec.{decode}

-- An offset and a size.
abbrev pub Span : Type 0
Span = ℕ × ℕ

pub record Uri : Type 0 where
  pub scheme_span : Span
  pub authority_span : Span
  pub path_span : Span
  pub query_span : Span
  pub fragment_span : Span
  pub fs_path : Bytes
  pub underlying : Bytes

-- `URI()`
abbrev pub default : Uri
default = record {
  scheme_span = (0, 0);
  authority_span = (0, 0);
  path_span = (0, 0);
  query_span = (0, 0);
  fragment_span = (0, 0);
  fs_path = [];
  underlying = [];
}

abbrev pub view : Bytes → Span → Bytes
view s p = take p.1 (drop p.0 s)

unfoldable pub scheme : Uri → Bytes
scheme u = view u.underlying u.scheme_span

unfoldable pub authority : Uri → Bytes
authority u = view u.underlying u.authority_span

unfoldable pub path : Uri → Bytes
path u = view u.underlying u.path_span

unfoldable pub query : Uri → Bytes
query u = view u.underlying u.query_span

unfoldable pub fragment : Uri → Bytes
fragment u = view u.underlying u.fragment_span

unfoldable pub str : Uri → Bytes
str u = u.underlying

-- The path with its leading slash.
pub rooted : Bytes → Bytes
rooted [] = b'/' ∷ []
rooted (c ∷ s) = if c == b'/' then c ∷ s else b'/' ∷ c ∷ s

-- The text so far, and where the next character goes.
abbrev pub Cursor : Type 0
Cursor = Bytes × ℕ

-- A component behind a mark, `?` or `#`: nothing is written where it is empty.
pub marked : ℕ → Bytes → Cursor → Span × Cursor
marked mark part c =
    if is_nil part
    then ((0, 0), c)
    else ((c.1 + 1, length part), ((c.0 ++ mark ∷ []) ++ part, c.1 + 1 + length part))

pub write_scheme : Bytes → Span × Cursor
write_scheme s =
    if is_nil s then ((0, 0), ([], 0)) else ((0, length s), (s ++ b':' ∷ [], length s + 1))

-- The two slashes, then the authority where there is one.
pub write_authority : Bytes → Bytes → Cursor → Span × Cursor
write_authority s a c =
    let d : Cursor =
      if not (is_nil a) || bytes_eq s (codes "file") then (c.0 ++ codes "//", c.1 + 2) else c in
    if is_nil a then ((0, 0), d) else ((d.1, length a), (d.0 ++ a, d.1 + length a))

unfoldable pub init : Bytes → Bytes → Bytes → Bytes → Bytes → Uri
unfolding write_scheme write_authority marked rooted
init s a p q f =
    let w1 = write_scheme s in
    let w2 = write_authority s a w1.1 in
    let c2 = w2.1 in
    let r = rooted p in
    let w3 = marked b'?' q (c2.0 ++ r, c2.1 + length r) in
    let w4 = marked b'#' f w3.1 in
    record {
      scheme_span = w1.0;
      authority_span = w2.0;
      path_span = (c2.1, length r);
      query_span = w3.0;
      fragment_span = w4.0;
      fs_path = [];
      underlying = w4.1.0;
    }

-- `fromFile`: `file` is the generic form of the path.
unfoldable pub from_file : Bytes → Uri
unfolding init
from_file [] = default
from_file (c ∷ s) = init (codes "file") [] (c ∷ s) [] []

-- The path, kept in the object from the first call on.
unfoldable pub get_path : Uri → Bytes × Uri
unfolding path
get_path u =
    if not (is_nil u.fs_path) then (u.fs_path, u) else (path u, record u { fs_path = path u })

unfoldable pub eq : Uri → Uri → Bool
eq u v = bytes_eq u.underlying v.underlying

-- What the match of the RFC 3986 pattern yields: the groups 2, 4, 5, 7 and 9.
pub record Groups : Type 0 where
  pub scheme : Bytes
  pub authority : Bytes
  pub path : Bytes
  pub query : Bytes
  pub fragment : Bytes

-- The constructor from a string, given the ctre matcher. The outer `none` is an exception of
-- `decode`; a string that does not match is the empty URI.
unfoldable pub parse : (Bytes → Option Groups) → Bytes → Option Uri
unfolding init
parse match input = elim (match input) [
  | none ↦ some default
  | some g ↦ decode g.authority >>= λ a. decode g.path >>= λ p.
      decode g.query >>= λ q. decode g.fragment >>= λ f. some (init g.scheme a p q f)
]

unfoldable pub from_web : (Bytes → Option Groups) → Bytes → Option Uri
unfolding parse
from_web match url = parse match (codes "https://" ++ url)
