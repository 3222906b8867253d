-- ===== src/Deck/Save/Ids.antt =====
-- Which ids a save sends. An id of the server's is one that a layout of the query had; a new item's
-- id is one of `tmpID`.
use text.Mathlib.Text.{starts_with}
use text.Mathlib.TextPositions.{starts_with-append}
use mooring_line_management.Base.{
  ℕ, ◌≡◌, refl, sym, String, true, Option, none, some, List, ◌⊎◌, inl, inr, All, All-imp, Aligned,
  map-Aligned, false, ◌≢◌, ◌∙◌, subst, Bool-cases,
}
use mooring_line_management.Number.{Number}
use mooring_line_management.Schema.{Winch, Storage, Layout, LayoutBody, WinchBody, StorageBody}
use mooring_line_management.Deck.Layout.{
  tmp_id, is_tmp, new_winch, new_storage, assign_winch, assign_storage,
}
use mooring_line_management.Deck.Session.{
  WinchChange, StorageChange, use_auto, relabel, winch_patch, storage_patch, Event, run, initial,
  Page,
}
use mooring_line_management.Deck.Session.Draft.{OnDraft, AllBring, run-OnDraft}
use mooring_line_management.Deck.Session.Items.{ItemRules, AllItems-IsKept}
use mooring_line_management.Deck.Save.{sent_id, winch_body, storage_body, layout_body, save_request}

-- Every id that `tmpID` makes is recognised by `isTmp`, with and without `crypto.randomUUID`.
pub tmp_id-is_tmp : (uuid : Option String) (now seq : ℕ) → is_tmp (tmp_id uuid now seq).0 ≡ true
unfolding is_tmp tmp_id
tmp_id-is_tmp none now seq = starts_with-append "tmp:" _
tmp_id-is_tmp (some u) now seq = starts_with-append "tmp:" u

true-ne-false : true ≢ false
true-ne-false h = cc

module _ (Known : String → Type 0) where
  -- The server's, or new.
  abbrev pub IsOurs : String → Type 0
  IsOurs id = Known id ⊎ (is_tmp id ≡ true)

  -- What a save sends for the id of an item: no id for a temporary one, else that id, which is one of the
  -- server's.
  abbrev pub SentId : String → Option String → Type 0
  SentId id none = starts_with id "tmp:" ≡ true
  SentId id (some s) = (s ≡ id) × Known id × (starts_with id "tmp:" ≡ false)

  sent_id-SentId : (id : String) → IsOurs id → SentId id (sent_id id)
  unfolding sent_id is_tmp
  sent_id-SentId id h = elim (Bool-cases (is_tmp id)) [
    | inl e ↦ rw e e
    | inr e ↦ rw e (refl, elim h [ inl k ↦ k | inr t ↦ absurd (true-ne-false (sym t ∙ e)) ], e)
  ]

module _ {N : Type 0} ⦃num : Number N⦄ (Known : String → Type 0) where
  abbrev pub HasOurIds : Layout N → Type 0
  HasOurIds l = All (λ w. IsOurs Known w.id) l.winches × All (λ s. IsOurs Known s.id) l.storage

  assign_winch-id : (w v : Winch N) (c : WinchChange) → (assign_winch (winch_patch w c) v).id ≡ v.id
  unfolding assign_winch winch_patch
  assign_winch-id w v use_auto = refl
  assign_winch-id w v _ = refl

  assign_storage-id :
      (s : Storage N) (c : StorageChange) → (assign_storage (storage_patch c) s).id ≡ s.id
  unfolding assign_storage storage_patch
  assign_storage-id s (relabel text) = refl
  assign_storage-id s _ = refl

  HasOurIds-rules :
      ItemRules {N = N} (λ w. IsOurs Known w.id) (λ s. IsOurs Known s.id) (λ id. is_tmp id ≡ true)
  unfolding new_winch new_storage
  HasOurIds-rules = record {
    named = λ w label b. b;
    moved = λ w x y hx hy b. b;
    new = λ id s q. inr q;
    changed = λ c w v h b. subst (IsOurs Known) (sym (assign_winch-id w v c)) b;
    store_moved = λ s x y hx hy b. b;
    new_store = λ id s q. inr q;
    store_changed = λ c s b. subst (IsOurs Known) (sym (assign_storage-id s c)) b;
  }

  -- The body has exactly the items of the draft, in their order, each with the id that fits it; and there
  -- is a body exactly if there is a draft.
  abbrev pub SendsKnown : Option (Layout N) → Option (LayoutBody N) → Type 0
  SendsKnown none none = Unit {0}
  SendsKnown (some l) (some b) =
      Aligned (λ (w : Winch N) (v : WinchBody N). SentId Known w.id v.id) l.winches b.winches
      × Aligned (λ (s : Storage N) (t : StorageBody N). SentId Known s.id t.id) l.storage b.storage
  SendsKnown none (some b) = ⊥
  SendsKnown (some l) none = ⊥

  save_request-SendsKnown :
      (p : Page N) → OnDraft HasOurIds p.draft → SendsKnown p.draft (save_request p)
  unfolding save_request layout_body winch_body storage_body
  save_request-SendsKnown p h = go p.draft h
    where
      go :
          (o : Option (Layout N))
          → OnDraft HasOurIds o
          → SendsKnown o (elim o [ none ↦ none | some l ↦ some (layout_body l) ])
      go none h = tt
      go (some l) h = (
        map-Aligned _ winch_body l.winches
            (All-imp _ _ l.winches (λ w k. sent_id-SentId Known w.id k) h.0),
        map-Aligned _ storage_body l.storage
            (All-imp _ _ l.storage (λ s k. sent_id-SentId Known s.id k) h.1),
      )

  -- Whatever was edited, a save sends the items of the draft in their order, each of the server's with
  -- its id and each new one, whose id is temporary, without one, if every layout that the session loads
  -- has ids of the server's and every new item has an id that `isTmp` recognises.
  pub run-SendsKnown :
      (es : List (Event N))
      → AllBring HasOurIds (λ id. is_tmp id ≡ true) es
      → SendsKnown (run es initial).draft (save_request (run es initial))
  unfolding initial
  run-SendsKnown es b =
      save_request-SendsKnown (run es initial)
        (run-OnDraft HasOurIds _ (AllItems-IsKept _ _ _ HasOurIds-rules) es initial b tt)
