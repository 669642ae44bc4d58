-- ===== src/Diagnostics/Ranges.antt =====
-- The range that a diagnostic is shown over, against the ranges that it joins.
use slang_server_extended.Base.{
  false, ℕ, List, [], ◌∷◌, true, if◌then◌else◌, Option, none, some, ◌≡◌, refl, sym, ap, ◌∙◌, ◌⊎◌,
  arith, Bool-cases, inl, inr,
}
use slang_server_extended.Diagnostics.Locations.{
  SourceRange, SourceLocation, loc_less, same_buffer, earlier, later, join_ranges,
}

-- One range lies inside the other in the order of the locations, that of the buffers first.
pub record Covers (big small : SourceRange) : Type 0 where
  pub starts : loc_less small.start big.start ≡ false
  pub stops : loc_less big.stop small.stop ≡ false

loc_less_irrefl : (a : SourceLocation) → loc_less a a ≡ false
unfolding loc_less
loc_less_irrefl a = ground arith

not_less_trans :
    (a b c : SourceLocation) → loc_less b a ≡ false → loc_less c b ≡ false → loc_less c a ≡ false
unfolding loc_less
not_less_trans a b c h k = ground arith

earlier_least :
    (a b : SourceLocation) → (loc_less a (earlier a b) ≡ false) × (loc_less b (earlier a b) ≡ false)
unfolding earlier loc_less
earlier_least a b = (ground arith, ground arith)

later_greatest :
    (a b : SourceLocation) → (loc_less (later a b) a ≡ false) × (loc_less (later a b) b ≡ false)
unfolding later loc_less
later_greatest a b = (ground arith, ground arith)

earlier-buffer : (a b : SourceLocation) → b.buffer ≡ a.buffer → (earlier a b).buffer ≡ a.buffer
unfolding earlier
earlier-buffer a b e = ground (arith, e)

same_buffer_refl : (b : Option ℕ) → same_buffer b b ≡ true
same_buffer_refl none = refl
same_buffer_refl (some b) = ground arith

same_buffer-eq : (a b : Option ℕ) → same_buffer a b ≡ true → a ≡ b
same_buffer-eq none none h = refl
same_buffer-eq none (some b) h = cc
same_buffer-eq (some a) none h = cc
same_buffer-eq (some a) (some b) h = ground arith

joined : SourceRange → SourceRange → SourceRange
joined total r =
    if same_buffer r.start.buffer total.start.buffer
    then record { start = earlier total.start r.start; stop = later total.stop r.stop }
    else total

Covers-refl : (r : SourceRange) → Covers r r
Covers-refl r = record { starts = loc_less_irrefl r.start; stops = loc_less_irrefl r.stop }

Covers-trans : (a b c : SourceRange) → Covers a b → Covers b c → Covers a c
Covers-trans a b c h k = record {
  starts = not_less_trans a.start b.start c.start h.starts k.starts;
  stops = not_less_trans c.stop b.stop a.stop k.stops h.stops;
}

joined-Covers : (total r : SourceRange) → Covers (joined total r) total
unfolding joined
joined-Covers total r = elim (Bool-cases (same_buffer r.start.buffer total.start.buffer)) [
  | inl same ↦ rw same (record {
    starts = (earlier_least total.start r.start).0;
    stops = (later_greatest total.stop r.stop).0;
  })
  | inr other ↦ rw other (Covers-refl total)
]

joined_new :
    (total r : SourceRange) → r.start.buffer ≡ total.start.buffer → Covers (joined total r) r
unfolding joined
joined_new total r e =
    let same : same_buffer r.start.buffer total.start.buffer ≡ true =
      ap (λ b. same_buffer b total.start.buffer) e ∙ same_buffer_refl total.start.buffer in
    rw same (record {
      starts = (earlier_least total.start r.start).1;
      stops = (later_greatest total.stop r.stop).1;
    })

joined-buffer : (total r : SourceRange) → (joined total r).start.buffer ≡ total.start.buffer
unfolding joined
joined-buffer total r = elim (Bool-cases (same_buffer r.start.buffer total.start.buffer)) [
  | inl same ↦
      rw same
        (earlier-buffer total.start r.start (same_buffer-eq r.start.buffer total.start.buffer same))
  | inr other ↦ rw other refl
]

join_ranges-Covers_first :
    (total : SourceRange) (rs : List SourceRange) → Covers (join_ranges total rs) total
unfolding join_ranges joined
join_ranges-Covers_first total [] = Covers-refl total
join_ranges-Covers_first total (r ∷ rs) =
    Covers-trans _ (joined total r) _ (join_ranges-Covers_first (joined total r) rs)
      (joined-Covers total r)

abbrev pub In : SourceRange → List SourceRange → Type 0
In x [] = ⊥
In x (r ∷ rs) = (x ≡ r) ⊎ In x rs

-- The joined range covers each of the ranges that starts in the buffer of the first: it starts no
-- later and ends no earlier, in the order of source locations, which compares buffers first.
pub join_ranges-Covers :
    (x total : SourceRange) (rs : List SourceRange)
    → In x (total ∷ rs)
    → x.start.buffer ≡ total.start.buffer
    → Covers (join_ranges total rs) x
unfolding join_ranges joined
join_ranges-Covers x total rs (inl first) e = rw first (join_ranges-Covers_first total rs)
join_ranges-Covers x total [] (inr h) e = absurd h
join_ranges-Covers x total (r ∷ rs) (inr (inl second)) e = rw second (
    Covers-trans _ (joined total r) _ (join_ranges-Covers_first (joined total r) rs)
      (joined_new total r (ap (λ (y : SourceRange). y.start.buffer) (sym second) ∙ e)))
join_ranges-Covers x total (r ∷ rs) (inr (inr later_on)) e =
    join_ranges-Covers x (joined total r) rs (inr later_on) (e ∙ sym (joined-buffer total r))
