-- ===== src/Indexer/Consistency/Steps.antt =====
-- The steps of the indexer's operations, and the record of each file.
use Prim.Native.String.{String}
use text.Mathlib.Text.{◌==◌ as str_eq}
use text.Mathlib.TextEquality.{eq_iff}
use slang_server_extended.Base.{
  ℕ, ◌+◌, List, [], ◌∷◌, true, false, if◌then◌else◌, ◌≡◌, refl, ◌∙◌, arith, Bool-cases, inl, inr,
  none, some, subst,
}
use slang_server_extended.MultiMap.{count}
use slang_server_extended.Indexer.Defs.{
  Index, IndexedPath, no_entries, lookup_file, store_file, erase_file, remove_entries, add_entries,
  store_entries,
}
use slang_server_extended.Indexer.Consistency.Files.{
  IsConsistent, Agrees, SameCounts, AreMapsClean, entry_of, added_here, added_elsewhere,
  removed_elsewhere, removed_here, add_entries-clean, remove_entries-clean,
}

pub lookup-store :
    (p q : String) (e : IndexedPath) (fs : List (String × IndexedPath))
    → lookup_file p (store_file q e fs) ≡ (if str_eq q p then some e else lookup_file p fs)
unfolding lookup_file store_file
lookup-store p q e [] = refl
lookup-store p q e ((r, d) ∷ fs) =
    ground (arith, eq_iff r q, eq_iff r p, eq_iff q p, lookup-store p q e fs)

pub lookup-erase :
    (p q : String) (fs : List (String × IndexedPath))
    → lookup_file p (erase_file q fs) ≡ (if str_eq q p then none else lookup_file p fs)
unfolding lookup_file erase_file
lookup-erase p q [] = ground arith
lookup-erase p q ((r, d) ∷ fs) =
    ground (arith, eq_iff r q, eq_iff r p, eq_iff q p, lookup-erase p q fs)

SameCounts-Agrees :
    (ix jx : Index) (p : String) (e : IndexedPath)
    → SameCounts ix jx p
    → Agrees ix p e
    → Agrees jx p e
SameCounts-Agrees ix jx p e s a =
    ((λ n k. s.0 n k ∙ a.0 n k), (λ n. s.1 n ∙ a.1 n), (λ n. s.2 n ∙ a.2 n))

zero_plus : (a b : ℕ) → a ≡ 0 → a + b ≡ b
zero_plus a b h = omega arith

-- An entry added where nothing is listed is what the index agrees with.
added-Agrees :
    (p : String) (e : IndexedPath) (ix : Index)
    → Agrees ix p no_entries
    → Agrees (add_entries p e ix) p e
unfolding count
added-Agrees p e ix a =
    let h = added_here p e ix in
    (
      (λ n k. h.0 n k ∙ zero_plus _ _ (a.0 n k)),
      (λ n. h.1 n ∙ zero_plus _ _ (a.1 n)),
      (λ n. h.2 n ∙ zero_plus _ _ (a.2 n)),
    )

pub entry-store_same :
    (p : String) (e : IndexedPath) (fs : List (String × IndexedPath))
    → entry_of p (store_file p e fs) ≡ e
unfolding entry_of
entry-store_same p e fs = ground (arith, lookup-store p p e fs, eq_iff p p)

pub entry-store_other :
    (p q : String) (e : IndexedPath) (fs : List (String × IndexedPath))
    → str_eq q p ≡ false
    → entry_of p (store_file q e fs) ≡ entry_of p fs
unfolding entry_of
entry-store_other p q e fs h = ground (arith, lookup-store p q e fs)

pub entry-erase_same :
    (p : String) (fs : List (String × IndexedPath)) → entry_of p (erase_file p fs) ≡ no_entries
unfolding entry_of
entry-erase_same p fs = ground (arith, lookup-erase p p fs, eq_iff p p)

pub entry-erase_other :
    (p q : String) (fs : List (String × IndexedPath))
    → str_eq q p ≡ false
    → entry_of p (erase_file q fs) ≡ entry_of p fs
unfolding entry_of
entry-erase_other p q fs h = ground (arith, lookup-erase p q fs)

-- Consistent but for one file, of which nothing is listed.
pub record IsCleared (p : String) (ix : Index) : Type 0 where
  pub clean : AreMapsClean ix
  pub here : Agrees ix p no_entries
  pub elsewhere : (q : String) → str_eq p q ≡ false → Agrees ix q (entry_of q ix.indexed_files)

same_text : (p q : String) → str_eq p q ≡ true → p ≡ q
same_text p q h = (eq_iff p q).0 h

pub stored-IsConsistent :
    (p : String) (e : IndexedPath) (ix : Index)
    → IsCleared p ix
    → IsConsistent (store_entries p e ix)
unfolding store_entries
stored-IsConsistent p e ix c = record {
  clean = add_entries-clean p e ix c.clean;
  agrees = λ q. elim (Bool-cases (str_eq p q)) [
    | inl same ↦
        rw (← same_text p q same, entry-store_same p e ix.indexed_files)
          (added-Agrees p e ix c.here)
    | inr other ↦ rw (entry-store_other q p e ix.indexed_files other) (
        SameCounts-Agrees ix (add_entries p e ix) q (entry_of q ix.indexed_files)
          (added_elsewhere p q e ix other) (c.elsewhere q other))
  ];
}

pub erased-IsConsistent :
    (p : String) (ix : Index)
    → IsCleared p ix
    → IsConsistent (record ix { indexed_files = erase_file p ix.indexed_files })
erased-IsConsistent p ix c = record {
  clean = c.clean;
  agrees = λ q. elim (Bool-cases (str_eq p q)) [
    | inl same ↦ rw (← same_text p q same, entry-erase_same p ix.indexed_files) c.here
    | inr other ↦ rw (entry-erase_other q p ix.indexed_files other) (c.elsewhere q other)
  ];
}

pub files-remove :
    (p : String) (e : IndexedPath) (ix : Index)
    → (remove_entries p e ix).indexed_files ≡ ix.indexed_files
unfolding remove_entries
files-remove p e ix = refl

pub remove_entries-IsCleared :
    (p : String) (e : IndexedPath) (ix : Index)
    → IsConsistent ix
    → entry_of p ix.indexed_files ≡ e
    → IsCleared p (remove_entries p e ix)
remove_entries-IsCleared p e ix c h = record {
  clean = remove_entries-clean p e ix c.clean;
  here = removed_here p e ix c.clean (subst (Agrees ix p) h (c.agrees p));
  elsewhere = λ q other. rw (files-remove p e ix) (
      SameCounts-Agrees ix (remove_entries p e ix) q (entry_of q ix.indexed_files)
        (removed_elsewhere p q e ix c.clean other) (c.agrees q));
}

pub unlisted-IsCleared :
    (p : String) (ix : Index)
    → IsConsistent ix
    → entry_of p ix.indexed_files ≡ no_entries
    → IsCleared p ix
unlisted-IsCleared p ix c h = record {
  clean = c.clean;
  here = subst (Agrees ix p) h (c.agrees p);
  elsewhere = λ q other. c.agrees q;
}
