-- ===== src/Diagnostics/Sync.antt =====
-- What the editor shows against what the server holds. The editor shows, for each document, the list
-- that was published for it last.
use Prim.Native.String.{String}
use text.Mathlib.Text.{◌==◌ as str_eq}
use text.Mathlib.TextEquality.{eq_iff}
use slang_server_extended.Base.{
  List, [], ◌∷◌, true, false, ◌||◌, if◌then◌else◌, none, some, ◌≡◌, refl, sym, ap, ◌∙◌, subst,
  arith, Bool-cases, inl, inr,
}
use slang_server_extended.MultiMap.{Map, find, entries}
use slang_server_extended.Diagnostics.Defs.{
  Message, publish, show_warning, show_error, DiagClient, Diagnostic, contains, emplace,
  emplace_all, keys, erase_uri, push_uri, push_uris, push_diags, push_diags_first, retract, send,
}

pub contains-emplace :
    (u v : String) (s : List String) → contains v (emplace u s) ≡ (str_eq u v || contains v s)
contains-emplace u v s = elim (Bool-cases (contains u s)) [
  | inl old ↦ elim (Bool-cases (str_eq u v)) [
    | inl same ↦ rw (old, same) (subst (λ w. contains w s ≡ true) ((eq_iff u v).0 same) old)
    | inr other ↦ rw (old, other)
  ]
  | inr new ↦ rw new
]

pub contains-emplace_all :
    (us : List String) (v : String) (s : List String)
    → contains v (emplace_all us s) ≡ (contains v us || contains v s)
unfolding emplace_all
contains-emplace_all [] v s = refl
contains-emplace_all (u ∷ us) v s =
    ground (arith, contains-emplace_all us v (emplace u s), contains-emplace u v s)

pub contains-erase_uri :
    (u v : String) (s : List String)
    → str_eq u v ≡ false
    → contains v (erase_uri u s) ≡ contains v s
contains-erase_uri u v [] h = refl
contains-erase_uri u v (w ∷ s) h =
    ground (arith, contains-erase_uri u v s h, eq_iff w u, eq_iff w v, eq_iff u v)

module _ {ℓ} {Place : Type ℓ} where
  unfoldable pub shown : String → List (Message Place) → List (Diagnostic Place)
  shown u [] = []
  shown u (publish v ds ∷ ms) = if str_eq v u then ds else shown u ms
  shown u (show_warning t ∷ ms) = shown u ms
  shown u (show_error t ∷ ms) = shown u ms

  abbrev pub held : String → DiagClient Place → List (Diagnostic Place)
  held u c = entries u c.diagnostics

  -- The editor is up to date on every document that is not marked dirty.
  abbrev pub IsSynced : DiagClient Place → Type ℓ
  IsSynced c = (u : String) → contains u c.dirty_uris ≡ false → shown u c.sent ≡ held u c

  shown-push_uri :
      (u v : String) (c : DiagClient Place)
      → shown v (push_uri u c).sent ≡ (if str_eq u v then held u c else shown v c.sent)
  unfolding shown push_uri entries
  shown-push_uri u v c = ground (arith, eq_iff u v)

  push_uri-diagnostics :
      (u : String) (c : DiagClient Place) → (push_uri u c).diagnostics ≡ c.diagnostics
  unfolding push_uri
  push_uri-diagnostics u c = ground arith

  push_uris-diagnostics :
      (us : List String) (c : DiagClient Place) → (push_uris us c).diagnostics ≡ c.diagnostics
  unfolding push_uris
  push_uris-diagnostics [] c = refl
  push_uris-diagnostics (u ∷ us) c =
      push_uris-diagnostics us (push_uri u c) ∙ push_uri-diagnostics u c

  shown-push_uris :
      (us : List String) (v : String) (c : DiagClient Place)
      → shown v (push_uris us c).sent ≡ (if contains v us then held v c else shown v c.sent)
  unfolding push_uris
  shown-push_uris [] v c = refl
  shown-push_uris (u ∷ us) v c = ground (
    arith,
    shown-push_uris us v (push_uri u c),
    shown-push_uri u v c,
    push_uri-diagnostics u c,
    eq_iff u v,
  )

  -- Where the editor is up to date on the documents that are not dirty, publishing brings it up to date
  -- on every document, and keeps what the server holds.
  pub push_diags-shown :
      (c : DiagClient Place) (v : String)
      → IsSynced c
      → (shown v (push_diags c).sent ≡ held v c)
        × (held v (push_diags c) ≡ held v c)
        × (contains v (push_diags c).dirty_uris ≡ false)
  unfolding push_diags
  push_diags-shown c v h = (
    elim (Bool-cases (contains v c.dirty_uris)) [
      | inl dirty ↦ rw (shown-push_uris c.dirty_uris v c, dirty) refl
      | inr clean ↦ rw (shown-push_uris c.dirty_uris v c, clean) (h v clean)
    ],
    rw (push_uris-diagnostics c.dirty_uris c) refl,
    refl,
  )

  told_first : String → DiagClient Place → DiagClient Place
  unfolding send find
  told_first u c =
      let told : DiagClient Place = elim (find u c.diagnostics) [
        | some ds ↦ send (publish u ds) c
        | none ↦ if contains u c.dirty_uris then send (publish u []) c else c
      ] in
      record told { dirty_uris = erase_uri u told.dirty_uris }

  told_first-facts :
      (u v : String) (c : DiagClient Place)
      → IsSynced c
      → (contains v (told_first u c).dirty_uris ≡ false → shown v (told_first u c).sent ≡ held v c)
        × ((told_first u c).diagnostics ≡ c.diagnostics)
  unfolding told_first entries shown send
  told_first-facts u v c h =
      (λ gone. ground (arith, h v, contains-erase_uri u v c.dirty_uris, eq_iff u v), ground arith)

  -- Where the editor is up to date on the documents that are not dirty, publishing with one document
  -- first brings it up to date on every document too, and keeps what the server holds.
  pub push_diags_first-shown :
      (c : DiagClient Place) (u v : String)
      → IsSynced c
      → (shown v (push_diags_first u c).sent ≡ held v c)
        × (held v (push_diags_first u c) ≡ held v c)
        × (contains v (push_diags_first u c).dirty_uris ≡ false)
  unfolding push_diags_first told_first
  push_diags_first-shown c u v h =
      let same = λ (w : String). (told_first-facts u w c h).1 in
      let done =
        push_diags-shown (told_first u c) v
          (λ w clean. (told_first-facts u w c h).0 clean ∙ ap (entries w) (sym (same w))) in
      (done.0 ∙ ap (entries v) (same v), done.1 ∙ ap (entries v) (same v), done.2)

  pub missing-held :
      (u : String) (m : Map (Diagnostic Place)) → contains u (keys m) ≡ false → entries u m ≡ []
  unfolding entries find
  missing-held u [] h = refl
  missing-held u ((j, ds) ∷ m) h = ground (arith, missing-held u m)

  pub shown-retract :
      (us : List String) (v : String) (c : DiagClient Place)
      → shown v (retract us c).sent ≡ (if contains v us then [] else shown v c.sent)
  unfolding retract shown
  shown-retract [] v c = refl
  shown-retract (u ∷ us) v c = ground (arith, shown-retract us v (send (publish u []) c))
