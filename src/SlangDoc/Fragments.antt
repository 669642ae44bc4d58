-- ===== src/SlangDoc/Fragments.antt =====
-- `issueIncludeFragmentDiagnostics` and its helpers: the diagnostics of a file that is only spliced
-- into others, collected from the trees and analyses of its owners. The queries of the source
-- manager on a diagnostic and the test of an open owner are parameters.
use slang_server_extended.Base.{
  ℕ, List, [], ◌∷◌, ◌++◌, Bool, true, false, not, ◌&&◌, ◌==◌, ltb, length, take, keep,
  if◌then◌else◌, Option, none, some,
}

pub record DedupeKey : Type 0 where
  pub code : ℕ
  pub line : ℕ
  pub col : ℕ

unfoldable pub is_same_problem : DedupeKey → DedupeKey → Bool
is_same_problem a b = a.code == b.code && a.line == b.line && a.col == b.col

-- The loop over `alreadyIssued`.
unfoldable pub has_key : List DedupeKey → DedupeKey → Bool
unfolding is_same_problem
has_key [] key = false
has_key (seen ∷ ks) key =
    let rest = has_key ks key in if is_same_problem seen key then true else rest

-- `alreadyIssued`, and what the engine was given, in order.
pub record Issuing {ℓ} (Diag : Type ℓ) : Type ℓ where
  pub already_issued : List DedupeKey
  pub issued : List Diag

-- What the function asks of an owner: the diagnostics of its tree, if it has one, the fragment's
-- buffer in that tree, and the diagnostics of its analysis.
pub record Owner {ℓ} (Diag : Type ℓ) : Type ℓ where
  pub tree : Option (List Diag)
  pub buffer_for_path : Option ℕ
  pub semantic_diagnostics : List Diag
  pub analysis_diags : List Diag

abbrev pub max_fragment_owners_analyzed : ℕ
max_fragment_owners_analyzed = 8

module _ {ℓ} {Diag : Type ℓ} (buffer_of : Diag → ℕ) (key_of : Diag → DedupeKey) where
  unfoldable pub issue_fragment_diagnostic : ℕ → Issuing Diag → Diag → Issuing Diag
  unfolding has_key
  issue_fragment_diagnostic fragment st diag =
      if not (buffer_of diag == fragment)
      then st
      else if has_key st.already_issued (key_of diag)
      then st
      else record {
        already_issued = st.already_issued ++ (key_of diag ∷ []);
        issued = st.issued ++ (diag ∷ []);
      }

  unfoldable pub issue_each : ℕ → Issuing Diag → List Diag → Issuing Diag
  unfolding issue_fragment_diagnostic
  issue_each fragment st [] = st
  issue_each fragment st (d ∷ ds) = issue_each fragment (issue_fragment_diagnostic fragment st d) ds

  abbrev pub issue_found : Owner Diag → Option (List Diag) → Option ℕ → Issuing Diag → Issuing Diag
  issue_found owner none b st = st
  issue_found owner (some parse) none st = st
  issue_found owner (some parse) (some b) st =
      issue_each b (issue_each b (issue_each b st parse) owner.semantic_diagnostics)
        owner.analysis_diags

  -- The body of the loop over the owners.
  unfoldable pub issue_owner : Owner Diag → Issuing Diag → Issuing Diag
  unfolding issue_each
  issue_owner owner st = issue_found owner owner.tree owner.buffer_for_path st

  unfoldable pub issue_owners : List (Owner Diag) → Issuing Diag → Issuing Diag
  unfolding issue_owner
  issue_owners [] st = st
  issue_owners (o ∷ os) st = issue_owners os (issue_owner o st)

-- `std::stable_partition`, and the cap.
unfoldable pub order_owners {ℓ} :
    {Diag : Type ℓ} → (Owner Diag → Bool) → List (Owner Diag) → List (Owner Diag)
order_owners is_open owners =
    let ordered = keep is_open owners ++ keep (λ o. not (is_open o)) owners in
    if ltb max_fragment_owners_analyzed (length ordered)
    then take max_fragment_owners_analyzed ordered
    else ordered

unfoldable pub issue_include_fragment_diagnostics {ℓ} :
    {Diag : Type ℓ} (buffer_of : Diag → ℕ) (key_of : Diag → DedupeKey)
    → (Owner Diag → Bool)
    → List (Owner Diag)
    → List Diag
unfolding order_owners issue_owners
issue_include_fragment_diagnostics buffer_of key_of is_open owners =
    (issue_owners buffer_of key_of (order_owners is_open owners)
      (record { already_issued = []; issued = [] })).issued
