-- ===== src/Diagnostics/Locations.antt =====
-- `getLocation`: the place that a diagnostic is shown at. The locations are slang's.
use slang_server_extended.Base.{
  ◌+◌, ℕ, List, [], ◌∷◌, Bool, true, false, not, ◌&&◌, ◌==◌, ltb, if◌then◌else◌, Option, none, some,
}

-- slang::SourceLocation: a buffer and an offset in it; the buffer is missing in NoLocation.
pub record SourceLocation : Type 0 where
  pub buffer : Option ℕ
  pub offset : ℕ

pub record SourceRange : Type 0 where
  pub start : SourceLocation
  pub stop : SourceLocation

abbrev pub same_buffer : Option ℕ → Option ℕ → Bool
same_buffer none none = true
same_buffer none (some b) = false
same_buffer (some a) none = false
same_buffer (some a) (some b) = a == b

abbrev pub has_buffer : SourceLocation → Bool
has_buffer l = not (same_buffer l.buffer none)

-- A missing buffer comes before all others.
abbrev pub rank_of : Option ℕ → ℕ
rank_of none = 0
rank_of (some b) = b + 1

-- `<` of SourceLocation compares the buffers, and the offsets inside one buffer.
unfoldable pub loc_less : SourceLocation → SourceLocation → Bool
loc_less a b =
    if rank_of a.buffer == rank_of b.buffer
    then ltb a.offset b.offset
    else ltb (rank_of a.buffer) (rank_of b.buffer)

-- `std::min` and `std::max`
unfoldable pub earlier : SourceLocation → SourceLocation → SourceLocation
unfolding loc_less
earlier a b = if loc_less b a then b else a

unfoldable pub later : SourceLocation → SourceLocation → SourceLocation
unfolding loc_less
later a b = if loc_less a b then b else a

-- The fold of the ranges into one: a range in another buffer is passed over.
unfoldable pub join_ranges : SourceRange → List SourceRange → SourceRange
unfolding earlier later
join_ranges total [] = total
join_ranges total (r ∷ rs) =
    join_ranges
      (if same_buffer r.start.buffer total.start.buffer
        then record { start = earlier total.start r.start; stop = later total.stop r.stop }
        else total)
      rs

unfoldable pub join_location : SourceRange → SourceLocation → SourceRange
unfolding earlier later
join_location total loc =
    if has_buffer loc && same_buffer loc.buffer total.start.buffer
    then record { start = earlier total.start loc; stop = later total.stop loc }
    else total

-- What `getLocation` shows, if anything: a bare location, or a range.
pub data Shown : Type 0 where
  at : SourceLocation → Shown
  over : SourceRange → Shown

unfoldable pub get_location : SourceLocation → List SourceRange → Option Shown
unfolding join_ranges join_location
get_location loc [] = if has_buffer loc then some (at loc) else none
get_location loc (r ∷ rs) = some (over (join_location (join_ranges r rs) loc))
