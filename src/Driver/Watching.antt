-- ===== src/Driver/Watching.antt =====
-- That the changes of watched files end in a well-formed state.
use Prim.Native.String.{String}
use slang_server_extended.Base.{
  ℕ, ◌<◌, Bytes, List, [], ◌∷◌, not, Option, none, some, arith, inl, inr, if_both, length,
}
use slang_server_extended.Indexer.Defs.{FileChangeType, created, changed, deleted}
use slang_server_extended.Driver.Documents.{
  ServerDriver, World, is_document_open, get_document, analyze_document,
}
use slang_server_extended.Driver.Handlers.{
  close_document, reloaded, reload_changed, watched_change, watched_changes, analyze_each,
  on_workspace_did_change_watched_files,
}
use slang_server_extended.Driver.Owners.{IsWell, Follows}
use slang_server_extended.Driver.Making.{
  AreStored, no_owners, has_position-first, has_position-later,
}
use slang_server_extended.Driver.Refresh.{get_document-Makes}
use slang_server_extended.Driver.Binding.{has_position-last}
use slang_server_extended.Driver.Fuel.{EndsIn, EndsIn-done, EndsIn-bind}
use slang_server_extended.Driver.Buffers.{
  set_buffer-length, set_buffer-IsWell, close_document-IsWell, close_document-AreStored,
}
use slang_server_extended.Driver.Saving.{analyze_document-EndsIn}

module _ (world : World) where
  -- A well-formed state with some of its documents.
  pub record IsReloaded (r : ServerDriver × List ℕ) : Type 0 where
    pub well : IsWell r.0
    pub stored : AreStored r.0 r.1

  pub reloaded-IsReloaded :
      (st : ServerDriver) (h : ℕ) (text : Option Bytes) (updated : List ℕ)
      → IsWell st
      → h < length st.store
      → AreStored st updated
      → IsReloaded (reloaded world st h text updated)
  reloaded-IsReloaded st h none updated w lt a = record { well = w; stored = a }
  reloaded-IsReloaded st h (some text) updated w lt a = record {
    well = set_buffer-IsWell h text st w;
    stored = λ o k. elim (has_position-last updated h o k) [
      | inl before ↦ omega (arith, a o before, set_buffer-length h text st)
      | inr is ↦ omega (arith, lt, set_buffer-length h text st)
    ];
  }

  pub reload_changed-IsReloaded :
      (uri : String) (st : ServerDriver) (updated : List ℕ)
      → IsReloaded (st, updated)
      → IsReloaded (reload_changed world uri st updated)
  reload_changed-IsReloaded uri st updated i =
      if_both IsReloaded (not (is_document_open uri st)) (λ closed. i)
        (λ is_open.
          let r = get_document world uri st in
          let m = get_document-Makes world uri st i.well in
          reloaded-IsReloaded r.0 r.1 (world.reloads r.0 r.1) updated m.well m.stored
            (λ o k. omega (arith, i.stored o k, m.extends.longer)))

  pub watched_changes-IsReloaded :
      (cs : List (String × FileChangeType)) (st : ServerDriver) (updated : List ℕ)
      → IsReloaded (st, updated)
      → IsReloaded (watched_changes world cs st updated)
  unfolding watched_changes watched_change
  watched_changes-IsReloaded [] st updated i = i
  watched_changes-IsReloaded ((u, changed) ∷ cs) st updated i =
      let next = reload_changed world u st updated in
      watched_changes-IsReloaded cs next.0 next.1 (reload_changed-IsReloaded u st updated i)
  watched_changes-IsReloaded ((u, created) ∷ cs) st updated i =
      watched_changes-IsReloaded cs st updated i
  watched_changes-IsReloaded ((u, deleted) ∷ cs) st updated i =
      watched_changes-IsReloaded cs (close_document u st) updated (record {
        well = close_document-IsWell u st i.well;
        stored = close_document-AreStored u st updated i.stored;
      })

  pub analyze_each-EndsIn :
      (hs : List ℕ) (st : ServerDriver)
      → IsReloaded (st, hs)
      → EndsIn IsWell (λ n. analyze_each world n hs st)
  unfolding analyze_each
  analyze_each-EndsIn [] st i = EndsIn-done IsWell st i.well
  analyze_each-EndsIn (h ∷ hs) st i =
      EndsIn-bind (Follows st) IsWell (λ n. analyze_document world n h st)
        (λ n. analyze_each world n hs)
        (analyze_document-EndsIn world h st i.well (i.stored h (has_position-first h hs)))
        (λ next f. analyze_each-EndsIn hs next (record {
          well = f.well;
          stored = λ o k. omega (arith, i.stored o (has_position-later o h hs k), f.extends.longer);
        }))

  pub on_workspace_did_change_watched_files-EndsIn :
      (cs : List (String × FileChangeType)) (st : ServerDriver)
      → IsWell st
      → EndsIn IsWell (λ n. on_workspace_did_change_watched_files world n cs st)
  unfolding on_workspace_did_change_watched_files
  on_workspace_did_change_watched_files-EndsIn cs st w =
      let r = watched_changes world cs st [] in
      analyze_each-EndsIn r.1 r.0
        (watched_changes-IsReloaded cs st [] (record { well = w; stored = no_owners st }))
