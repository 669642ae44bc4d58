-- ===== src/Diagnostics/Operations.antt =====
-- The operations of the client, and what the editor shows of the documents that are not dirty.
use Prim.Native.String.{String}
use slang_server_extended.Base.{
  List, [], ◌∷◌, ◌≡◌, refl, sym, ◌∙◌, arith, Bool-cases, Option-cases, inl, inr,
}
use slang_server_extended.MultiMap.{find, entries, push, entries-push, entries-erase}
use slang_server_extended.Diagnostics.Defs.{
  DiagClient, Diagnostic, Engine, ReportedDiagnostic, DiagCode, emplace, keys, push_diags,
  push_diags_first, clear, clear_uri, clear_and_push, retract, report, report_code, is_note,
  is_no_top_modules, record_diagnostic, make_diagnostic, send,
}
use slang_server_extended.Diagnostics.Locations.{get_location}
use slang_server_extended.Diagnostics.Sync.{
  shown, held, IsSynced, contains-emplace, contains-emplace_all, missing-held, shown-retract,
  push_diags-shown, push_diags_first-shown,
}

-- A call of one of the client's operations.
pub data Call {ℓ} (Place : Type ℓ) : Type ℓ where
  reports : ReportedDiagnostic → Call Place
  clears_uri pushes_first : String → Call Place
  clears pushes clears_and_pushes : Call Place

module _ {ℓ} {Place : Type ℓ} where
  pushed-IsSynced :
      (u : String) (x : Diagnostic Place) (c : DiagClient Place)
      → IsSynced c
      → IsSynced
          (record c { diagnostics = push u x c.diagnostics; dirty_uris = emplace u c.dirty_uris })
  pushed-IsSynced u x c h v clean =
      ground (arith, h v, contains-emplace u v c.dirty_uris, entries-push u v x c.diagnostics)

  record_diagnostic-IsSynced :
      (e : Engine Place) (d : ReportedDiagnostic) (c : DiagClient Place)
      → IsSynced c
      → IsSynced (record_diagnostic e d c)
  unfolding record_diagnostic
  record_diagnostic-IsSynced e d c h =
      elim (Option-cases (get_location d.location (e.map_source_ranges d.location d.ranges))) [
        | inl nowhere ↦ rw (nowhere, record_diagnostic) h
        | inr (s, found) ↦
            rw (found, record_diagnostic)
              (pushed-IsSynced (e.to_location s).uri (make_diagnostic e d (e.to_location s)) c h)
      ]

  report_code-IsSynced :
      (k : DiagCode) (e : Engine Place) (d : ReportedDiagnostic) (c : DiagClient Place)
      → IsSynced c
      → IsSynced (report_code k e d c)
  unfolding report_code send shown
  report_code-IsSynced DiagCode.command_line_warning e d c h = h
  report_code-IsSynced DiagCode.command_line_error e d c h = h
  report_code-IsSynced _ e d c h = record_diagnostic-IsSynced e d c h

  pub report-IsSynced :
      (e : Engine Place) (d : ReportedDiagnostic) (c : DiagClient Place)
      → IsSynced c
      → IsSynced (report e d c)
  unfolding report
  report-IsSynced e d c h = elim (Bool-cases (is_no_top_modules d.code)) [
    | inl top ↦ rw top h
    | inr other ↦ elim (Bool-cases (is_note d.severity)) [
      | inl noted ↦ rw (other, noted) h
      | inr shows ↦ rw (other, shows) (report_code-IsSynced d.code e d c h)
    ]
  ]

  pub clear_uri-IsSynced :
      (u : String) (c : DiagClient Place) → IsSynced c → IsSynced (clear_uri u c)
  unfolding clear_uri
  clear_uri-IsSynced u c h v clean =
      ground (arith, h v, contains-emplace u v c.dirty_uris, entries-erase u v c.diagnostics)

  pub clear-IsSynced : (c : DiagClient Place) → IsSynced c → IsSynced (clear c)
  unfolding clear entries find
  clear-IsSynced c h v clean = ground (
    arith,
    h v,
    contains-emplace_all (keys c.diagnostics) v c.dirty_uris,
    missing-held v c.diagnostics,
  )

  -- Where the editor is up to date on the documents that are not dirty, after `clearAndPush` it shows
  -- nothing, and the server holds nothing.
  pub clear_and_push-shown :
      (c : DiagClient Place) (v : String)
      → IsSynced c
      → (shown v (clear_and_push c).sent ≡ []) × (held v (clear_and_push c) ≡ [])
  unfolding clear_and_push
  clear_and_push-shown c v h = (
    ground (
      arith,
      h v,
      shown-retract c.dirty_uris v (retract (keys c.diagnostics) c),
      shown-retract (keys c.diagnostics) v c,
      missing-held v c.diagnostics,
    ),
    unfold entries find in refl,
  )

  -- A dirty mark is dropped only where the editor is told.
  all-IsSynced : (c : DiagClient Place) → ((v : String) → shown v c.sent ≡ held v c) → IsSynced c
  all-IsSynced c h v clean = h v

  unfoldable pub step : Engine Place → Call Place → DiagClient Place → DiagClient Place
  step e (reports d) c = report e d c
  step e (clears_uri u) c = clear_uri u c
  step e (pushes_first u) c = push_diags_first u c
  step e clears c = clear c
  step e pushes c = push_diags c
  step e clears_and_pushes c = clear_and_push c

  unfoldable pub run : Engine Place → List (Call Place) → DiagClient Place → DiagClient Place
  unfolding step
  run e [] c = c
  run e (k ∷ ks) c = run e ks (step e k c)

  step-IsSynced :
      (e : Engine Place) (k : Call Place) (c : DiagClient Place)
      → IsSynced c
      → IsSynced (step e k c)
  unfolding step
  step-IsSynced e (reports d) c h = report-IsSynced e d c h
  step-IsSynced e (clears_uri u) c h = clear_uri-IsSynced u c h
  step-IsSynced e (pushes_first u) c h =
      all-IsSynced _ (λ v. let done = push_diags_first-shown c u v h in done.0 ∙ sym done.1)
  step-IsSynced e clears c h = clear-IsSynced c h
  step-IsSynced e pushes c h =
      all-IsSynced _ (λ v. let done = push_diags-shown c v h in done.0 ∙ sym done.1)
  step-IsSynced e clears_and_pushes c h =
      all-IsSynced _ (λ v. let done = clear_and_push-shown c v h in done.0 ∙ sym done.1)

  -- Every history of calls keeps it: what the editor shows for a document is what the server holds
  -- for it, unless the document is marked dirty.
  pub run-IsSynced :
      (e : Engine Place) (ks : List (Call Place)) (c : DiagClient Place)
      → IsSynced c
      → IsSynced (run e ks c)
  unfolding run
  run-IsSynced e [] c h = h
  run-IsSynced e (k ∷ ks) c h = run-IsSynced e ks (step e k c) (step-IsSynced e k c h)

  -- After any history and a publication, the editor shows for every document exactly what the server
  -- holds for it.
  pub run-push_diags-shown :
      (e : Engine Place) (ks : List (Call Place)) (c : DiagClient Place) (v : String)
      → IsSynced c
      → shown v (push_diags (run e ks c)).sent ≡ held v (push_diags (run e ks c))
  run-push_diags-shown e ks c v h =
      let done = push_diags-shown (run e ks c) v (run-IsSynced e ks c h) in done.0 ∙ sym done.1
