-- ===== src/Driver/Buffers.antt =====
-- That a new text of a document and the closing of one keep the state well-formed.
use Prim.Native.String.{String}
use slang_server_extended.Base.{
  ℕ, zero, suc, Bytes, List, [], ◌∷◌, true, Option, some, ◌≡◌, refl, ◌∙◌, subst, arith, length,
  get_elem?, update_at,
}
use slang_server_extended.Indexer.Defs.{contains}
use slang_server_extended.Driver.Documents.{Document, ServerDriver, has_position, owners_in, uri_in}
use slang_server_extended.Driver.Handlers.{set_buffer, erase_open, close_document}
use slang_server_extended.Driver.Owners.{length-update_at, Named, IsWell, All-map}
use slang_server_extended.Driver.Making.{AreStored}

-- An update that leaves the owners and the URI leaves them everywhere.
kept_at {ℓ} :
    {B : Type ℓ} (g : Option Document → B) (n x : ℕ) (f : Document → Document)
    → ((d : Document) → g (some (f d)) ≡ g (some d))
    → (ds : List Document) → g (get_elem? (update_at n f ds) x) ≡ g (get_elem? ds x)
kept_at g n x f e [] = refl
kept_at g zero zero f e (d ∷ ds) = e d
kept_at g zero (suc x) f e (d ∷ ds) = refl
kept_at g (suc n) zero f e (d ∷ ds) = refl
kept_at g (suc n) (suc x) f e (d ∷ ds) = kept_at g n x f e ds

pub set_buffer-length :
    (h : ℕ) (b : Bytes) (st : ServerDriver) → length (set_buffer h b st).store ≡ length st.store
unfolding set_buffer
set_buffer-length h b st = length-update_at h (λ d. record d { buffer = b }) st.store

pub set_buffer-IsWell :
    (h : ℕ) (b : Bytes) (st : ServerDriver) → IsWell st → IsWell (set_buffer h b st)
unfolding set_buffer
set_buffer-IsWell h b st w =
    let f : Document → Document = λ d. record d { buffer = b } in
    let size = length-update_at h f st.store in
    record {
      rank = w.rank;
      bound = w.bound;
      bounded = w.bounded;
      drops = λ x y k.
          let (lt, falls) = w.drops x y (
            subst (λ os. has_position y os ≡ true) (kept_at owners_in h x f (λ d. refl) st.store)
              k) in
          (omega (arith, lt, size), falls);
      named =
          All-map (Named st) (Named (record st { store = update_at h f st.store }))
            (λ d n. (omega (arith, n.0, size), kept_at uri_in h d.1 f (λ d. refl) st.store ∙ n.1))
            st.docs w.named;
      opened = w.opened;
    }

contains-erase_open :
    (u uri : String) (us : List String)
    → contains u (erase_open uri us) ≡ true
    → contains u us ≡ true
unfolding erase_open
contains-erase_open u uri [] h = h
contains-erase_open u uri (v ∷ us) h = ground (arith, h, contains-erase_open u uri us)

pub close_document-IsWell :
    (uri : String) (st : ServerDriver) → IsWell st → IsWell (close_document uri st)
unfolding close_document
close_document-IsWell uri st w = record {
  rank = w.rank;
  bound = w.bound;
  bounded = w.bounded;
  drops = w.drops;
  named = w.named;
  opened = λ u k. w.opened u (contains-erase_open u uri st.open_docs k);
}

pub close_document-AreStored :
    (uri : String) (st : ServerDriver) (os : List ℕ)
    → AreStored st os
    → AreStored (close_document uri st) os
unfolding close_document
close_document-AreStored uri st os a = a
