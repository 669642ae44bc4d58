-- ===== src/Indexer/Consistency/Batch.antt =====
-- The loop over the events of a batch, and the whole handler.
use Prim.Native.String.{String}
use text.Mathlib.Text.{◌==◌ as str_eq}
use text.Mathlib.TextEquality.{eq_iff}
use slang_server_extended.Base.{
  List, [], ◌∷◌, ◌++◌, Bool, true, false, if◌then◌else◌, ◌≡◌, refl, arith, is_nil, Bool-cases, inl,
  inr, Option, none, Option-cases, All, All-append,
}
use slang_server_extended.Indexer.Defs.{
  Index, IndexedPath, FileSyntax, FileChangeType, lookup_file, contains, remove_path_from_index,
  apply_change, apply_changes, on_watched_files, add_documents, remove_entries,
}
use slang_server_extended.Indexer.Consistency.Files.{IsConsistent}
use slang_server_extended.Indexer.Consistency.Steps.{lookup-erase}
use slang_server_extended.Indexer.Consistency.Operations.{remove_path-IsConsistent}
use slang_server_extended.Indexer.Consistency.Watch.{
  AreNew, IsInterned, IsSound, named, add_documents-IsConsistent,
}

dropped : String → Index → Index
dropped p ix = if contains p ix.unique_uris then remove_path_from_index p ix else ix

-- What is missing in one record of files is missing in the other.
abbrev Fewer : List (String × IndexedPath) → List (String × IndexedPath) → Type 0
Fewer fs gs = (q : String) → lookup_file q fs ≡ none → lookup_file q gs ≡ none

AreNew-Fewer :
    (fs gs : List (String × IndexedPath)) (ps : List String)
    → Fewer fs gs
    → AreNew fs ps
    → AreNew gs ps
AreNew-Fewer fs gs [] h n = tt
AreNew-Fewer fs gs (p ∷ ps) h (miss, once, rest) = (h p miss, once, AreNew-Fewer fs gs ps h rest)

IsSound-Fewer :
    (fs gs : List (String × IndexedPath)) (cs : List (String × FileChangeType))
    → Fewer fs gs
    → IsSound fs cs
    → IsSound gs cs
IsSound-Fewer fs gs [] h s = tt
IsSound-Fewer fs gs ((p, FileChangeType.created) ∷ cs) h (miss, once, rest) =
    (h p miss, once, IsSound-Fewer fs gs cs h rest)
IsSound-Fewer fs gs ((p, FileChangeType.changed) ∷ cs) h (once, rest) =
    (once, IsSound-Fewer fs gs cs h rest)
IsSound-Fewer fs gs ((p, FileChangeType.deleted) ∷ cs) h (once, rest) =
    (once, IsSound-Fewer fs gs cs h rest)

remove_path-Fewer :
    (p : String) (ix : Index) → Fewer ix.indexed_files (remove_path_from_index p ix).indexed_files
unfolding remove_path_from_index remove_entries
remove_path-Fewer p ix q miss = elim (Option-cases (lookup_file p ix.indexed_files)) [
  | inl gone ↦ rw (gone, remove_path_from_index) miss
  | inr (e, found) ↦
      rw (found, remove_path_from_index) (ground (arith, lookup-erase q p ix.indexed_files))
]

remove_path-uris :
    (p : String) (ix : Index) → (remove_path_from_index p ix).unique_uris ≡ ix.unique_uris
unfolding remove_path_from_index remove_entries
remove_path-uris p ix = ground arith

dropped-Fewer : (p : String) (ix : Index) → Fewer ix.indexed_files (dropped p ix).indexed_files
unfolding dropped
dropped-Fewer p ix q miss = ground (arith, remove_path-Fewer p ix q miss)

dropped_gone :
    (p : String) (ix : Index)
    → IsConsistent ix
    → IsInterned ix
    → lookup_file p (dropped p ix).indexed_files ≡ none
unfolding dropped
dropped_gone p ix c i = elim (Bool-cases (contains p ix.unique_uris)) [
  | inl known ↦ rw known (remove_path-IsConsistent p ix c).1
  | inr new ↦ rw new (i p new)
]

dropped-IsConsistent : (p : String) (ix : Index) → IsConsistent ix → IsConsistent (dropped p ix)
unfolding dropped
dropped-IsConsistent p ix c = elim (Bool-cases (contains p ix.unique_uris)) [
  | inl known ↦ rw known (remove_path-IsConsistent p ix c).0
  | inr new ↦ rw new c
]

dropped-IsInterned : (p : String) (ix : Index) → IsInterned ix → IsInterned (dropped p ix)
dropped-IsInterned p ix i q h =
    dropped-Fewer p ix q (i q (unfold dropped in ground (arith, remove_path-uris p ix)))

-- The paths to add have no event left in the batch.
abbrev Apart : List (String × FileChangeType) → List String → Type 0
Apart cs = All (λ p. named p cs ≡ false)

Apart-absent :
    (p : String) (t : FileChangeType) (cs : List (String × FileChangeType)) (ps : List String)
    → Apart ((p, t) ∷ cs) ps
    → (contains p ps ≡ false) × Apart cs ps
Apart-absent p t cs [] a = (refl, tt)
Apart-absent p t cs (q ∷ ps) (h, a) =
    let rest = Apart-absent p t cs ps a in
    (ground (arith, eq_iff p q, eq_iff q p, rest.0), (ground arith, rest.1))

contains-snoc :
    (q p : String) (ps : List String)
    → contains q ps ≡ false
    → str_eq p q ≡ false
    → contains q (ps ++ p ∷ []) ≡ false
contains-snoc q p [] h e = ground arith
contains-snoc q p (r ∷ ps) h e = ground (arith, contains-snoc q p ps)

AreNew-snoc :
    (fs : List (String × IndexedPath)) (ps : List String) (p : String)
    → AreNew fs ps
    → lookup_file p fs ≡ none
    → contains p ps ≡ false
    → AreNew fs (ps ++ p ∷ [])
AreNew-snoc fs [] p n miss out = (miss, refl, tt)
AreNew-snoc fs (q ∷ ps) p (hq, once, rest) miss out = (
  hq,
  contains-snoc q p ps once (ground (arith, eq_iff q p, eq_iff p q)),
  AreNew-snoc fs ps p rest miss (ground arith),
)

-- What holds between two rounds of the loop, for the events that are left.
record Inv (cs : List (String × FileChangeType)) (ix : Index) (add : List String) : Type 0 where
  consistent : IsConsistent ix
  interned : IsInterned ix
  sound : IsSound ix.indexed_files cs
  new : AreNew ix.indexed_files add
  apart : Apart cs add

-- A round that forgets the file, and adds it where `again` says so.
drop_round :
    (p : String) (t : FileChangeType) (cs : List (String × FileChangeType)) (ix : Index)
    (add : List String) (again : Bool)
    → named p cs ≡ false
    → IsSound ix.indexed_files cs
    → Inv ((p, t) ∷ cs) ix add
    → Inv cs (dropped p ix) (if again then add ++ p ∷ [] else add)
drop_round p t cs ix add true once rest v =
    let away = Apart-absent p t cs add v.apart in
    record {
      consistent = dropped-IsConsistent p ix v.consistent;
      interned = dropped-IsInterned p ix v.interned;
      sound = IsSound-Fewer _ _ cs (dropped-Fewer p ix) rest;
      new =
          AreNew-snoc _ add p (AreNew-Fewer _ _ add (dropped-Fewer p ix) v.new)
            (dropped_gone p ix v.consistent v.interned) away.0;
      apart = All-append _ add (p ∷ []) away.1 (once, tt);
    }
drop_round p t cs ix add false once rest v = record {
  consistent = dropped-IsConsistent p ix v.consistent;
  interned = dropped-IsInterned p ix v.interned;
  sound = IsSound-Fewer _ _ cs (dropped-Fewer p ix) rest;
  new = AreNew-Fewer _ _ add (dropped-Fewer p ix) v.new;
  apart = (Apart-absent p t cs add v.apart).1;
}

module _ (read : String → Option FileSyntax) (exists : String → Bool) where
  apply_changes-Inv :
      (cs : List (String × FileChangeType)) (ix : Index) (add : List String)
      → Inv cs ix add
      → let done = apply_changes read exists cs (ix, add) in Inv [] done.0 done.1
  unfolding apply_changes apply_change
  apply_changes-Inv [] ix add v = v
  apply_changes-Inv ((p, FileChangeType.created) ∷ cs) ix add v =
      let away = Apart-absent p FileChangeType.created cs add v.apart in
      apply_changes-Inv cs ix (add ++ p ∷ []) (record {
        consistent = v.consistent;
        interned = v.interned;
        sound = v.sound.2;
        new = AreNew-snoc _ add p v.new v.sound.0 away.0;
        apart = All-append _ add (p ∷ []) away.1 (v.sound.1, tt);
      })
  apply_changes-Inv ((p, FileChangeType.changed) ∷ cs) ix add v = apply_changes-Inv cs _ _ (
      unfold dropped in
      drop_round p FileChangeType.changed cs ix add (exists p) v.sound.0 v.sound.1 v)
  apply_changes-Inv ((p, FileChangeType.deleted) ∷ cs) ix add v =
      apply_changes-Inv cs _ _ (
        unfold dropped in drop_round p FileChangeType.deleted cs ix add false v.sound.0 v.sound.1 v)

  -- A batch of watched-file events keeps the index consistent, where every recorded path is interned,
  -- no path has two events, and a file that is reported as created is not recorded already.
  pub on_watched_files-IsConsistent :
      (cs : List (String × FileChangeType)) (ix : Index)
      → IsConsistent ix
      → IsInterned ix
      → IsSound ix.indexed_files cs
      → IsConsistent (on_watched_files read exists cs ix)
  unfolding on_watched_files
  on_watched_files-IsConsistent cs ix c i s =
      let v =
        apply_changes-Inv cs ix []
          (record { consistent = c; interned = i; sound = s; new = tt; apart = tt }) in
      finish (apply_changes read exists cs (ix, [])).1 _ v
    where
      finish :
          (ps : List String) (jx : Index)
          → Inv [] jx ps
          → IsConsistent (if is_nil ps then jx else add_documents read exists ps jx)
      finish [] jx v = v.consistent
      finish (p ∷ ps) jx v = add_documents-IsConsistent read exists (p ∷ ps) jx v.consistent v.new
