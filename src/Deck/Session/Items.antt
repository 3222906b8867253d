-- ===== src/Deck/Session/Items.antt =====
-- What holds of every winch and of every store of a draft, if each edit of one item keeps it.
use mooring_line_management.Base.{
  ◌≡◌, String, true, false, ◌||◌, some, List, is_some, find, update_first, if◌then◌else◌, All,
  All-append, All-filter, All-update_first, All-find,
}
use mooring_line_management.Number.{Number, InUnit, minimum, maximum}
use mooring_line_management.Schema.{Winch, Storage, Layout}
use mooring_line_management.Deck.Naming.{renumber_auto}
use mooring_line_management.Deck.Naming.Numbering.{All-renumber_auto}
use mooring_line_management.Deck.Layout.{
  Station, Kind, winch, storage, winch_is, storage_is, to_norm, move_kind, move_item, new_winch,
  new_storage, add_winch, add_storage, assign_winch, assign_storage, update_winch, update_storage,
  remove,
}
use mooring_line_management.Deck.Session.{WinchChange, StorageChange, winch_patch, storage_patch}
use mooring_line_management.Deck.Session.Draft.{IsKept}
use mooring_line_management.Base.{arith}

module _ {N : Type 0} ⦃num : Number N⦄ where
  -- The edits of one winch and of one store.
  pub record ItemRules (P : Winch N → Type 0) (S : Storage N → Type 0) (Q : String → Type 0)
      : Type 0 where
    pub named : (w : Winch N) (label : String) → P w → P (record w { label = label })
    pub moved : (w : Winch N) (x y : N) → InUnit x → InUnit y → P w → P (record w { x = x; y = y })
    pub new : (id : String) (s : Station) → Q id → P (new_winch id s)
    -- A change by the editor of the winch `w`, assigned to the winch `v`.
    pub changed :
        (c : WinchChange) (w v : Winch N) → P w → P v → P (assign_winch (winch_patch w c) v)
    pub store_moved :
        (s : Storage N) (x y : N) → InUnit x → InUnit y → S s → S (record s { x = x; y = y })
    pub new_store : (id : String) (s : Station) → Q id → S (new_storage id s)
    pub store_changed :
        (c : StorageChange) (s : Storage N) → S s → S (assign_storage (storage_patch c) s)

  abbrev pub AllItems : (Winch N → Type 0) → (Storage N → Type 0) → Layout N → Type 0
  AllItems P S l = All P l.winches × All S l.storage

  pub clamp-InUnit : (a : N) → InUnit (minimum num.one (maximum num.zero a))
  clamp-InUnit a = ground (
    arith,
    num.lt_asymm num.zero num.one,
    num.lt_asymm num.zero a,
    num.lt_asymm a num.one,
    num.lt_asymm num.zero num.zero,
    num.lt_asymm num.one num.one,
    num.zero-lt-one,
  )

  module _ (P : Winch N → Type 0) (S : Storage N → Type 0) (Q : String → Type 0)
      (rules : ItemRules P S Q) where
    All-named : (ws : List (Winch N)) → All P ws → All P (renumber_auto ws)
    All-named ws h = All-renumber_auto P ws (λ w label b. rules.named w label b) h

    move_kind-AllItems :
        (k : Kind) (id : String) (at : N × N) (l : Layout N)
        → InUnit at.0
        → InUnit at.1
        → AllItems P S l
        → AllItems P S (move_kind k id at l)
    unfolding move_kind
    move_kind-AllItems winch id (x, y) l hx hy h = (
      All-named _
          (All-update_first P (winch_is id) _ l.winches (λ w b. rules.moved w x y hx hy b) h.0),
      h.1,
    )
    move_kind-AllItems storage id (x, y) l hx hy h = (
      h.0,
      All-update_first S (storage_is id) _ l.storage (λ s b. rules.store_moved s x y hx hy b) h.1,
    )

    update_winch-AllItems :
        (key : String) (w : Winch N) (c : WinchChange) (l : Layout N)
        → find (winch_is key) l.winches ≡ some w
        → AllItems P S l
        → AllItems P S (update_winch key (winch_patch w c) l)
    unfolding update_winch
    update_winch-AllItems key w c l found h =
        rw found
          (elim (is_some (winch_patch w c).station || is_some (winch_patch w c).label_auto)
            as (λ b. All P (if b then renumber_auto next else next) × All S l.storage) [
              | true ↦ (All-named next All-next, h.1)
              | false ↦ (All-next, h.1)
            ])
      where
        next : List (Winch N)
        next = update_first (winch_is key) (assign_winch (winch_patch w c)) l.winches

        All-next : All P next
        All-next =
            All-update_first P (winch_is key) _ l.winches
              (λ v b. rules.changed c w v (All-find P (winch_is key) l.winches found h.0) b) h.0

    -- Rules for one item suffice for every edit of a draft.
    pub AllItems-IsKept : IsKept (AllItems P S) Q
    unfolding move_item to_norm add_winch add_storage update_storage remove
    AllItems-IsKept = record {
      move_item = λ d at l h.
          move_kind-AllItems d.kind d.id (to_norm at) l (clamp-InUnit _) (clamp-InUnit _) h;
      add_winch =
          λ id s l q h. (All-named _ (All-append P l.winches _ h.0 (rules.new id s q, tt)), h.1);
      add_storage = λ id s l q h. (h.0, All-append S l.storage _ h.1 (rules.new_store id s q, tt));
      update_winch = update_winch-AllItems;
      update_storage = λ key c l h. (
        h.0,
        All-update_first S (storage_is key) _ l.storage (λ s b. rules.store_changed c s b) h.1,
      );
      remove =
          λ key l h. (All-named _ (All-filter P _ l.winches h.0), All-filter S _ l.storage h.1);
    }
