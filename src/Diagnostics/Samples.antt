-- ===== src/Diagnostics/Samples.antt =====
-- A run of the diagnostic client, and the theorems at it.
use slang_server_extended.Base.{ℕ, List, [], ◌∷◌, some, ◌≡◌, refl, inl, inr}
use slang_server_extended.MultiMap.{entries}
use slang_server_extended.Diagnostics.Defs.{
  Severity, DiagCode, Engine, ReportedDiagnostic, DiagClient, push_diags,
}
use slang_server_extended.Diagnostics.Locations.{SourceLocation, SourceRange, join_ranges}
use slang_server_extended.Diagnostics.Sync.{shown, held, IsSynced}
use slang_server_extended.Diagnostics.Ranges.{Covers, join_ranges-Covers}
use slang_server_extended.Diagnostics.Operations.{Call, run, run-push_diags-shown}

abbrev spot : ℕ → SourceLocation
spot n = record { buffer = some 1; offset = n }

abbrev span : ℕ → ℕ → SourceRange
span a b = record { start = spot a; stop = spot b }

abbrev engine : Engine ℕ
engine = record {
  map_source_ranges = λ l rs. rs;
  fully_original_loc = λ l. l;
  option_name = λ c. "unused-variable";
  to_location = λ s. record { uri = "file:///a.sv"; range = 3 };
}

abbrev unused : ReportedDiagnostic
unused = record {
  code = DiagCode.unused_variable;
  severity = Severity.warning;
  message = "unused variable";
  location = spot 4;
  ranges = span 4 9 ∷ [];
  expansion_locs = [];
  notes = [];
}

abbrev idle : DiagClient ℕ
idle = record { diagnostics = []; dirty_uris = []; sent = [] }

idle-IsSynced : IsSynced idle
unfolding shown entries
idle-IsSynced u h = refl

abbrev calls : List (Call ℕ)
calls = Call.reports unused ∷ Call.pushes ∷ Call.clears_uri "file:///a.sv" ∷ []

run-push_diags-shown_example :
    shown "file:///a.sv" (push_diags (run engine calls idle)).sent
    ≡ held "file:///a.sv" (push_diags (run engine calls idle))
run-push_diags-shown_example = run-push_diags-shown engine calls idle "file:///a.sv" idle-IsSynced

join_ranges-Covers_example : Covers (join_ranges (span 4 9) (span 2 5 ∷ [])) (span 2 5)
join_ranges-Covers_example =
    join_ranges-Covers (span 2 5) (span 4 9) (span 2 5 ∷ []) (inr (inl refl)) refl
