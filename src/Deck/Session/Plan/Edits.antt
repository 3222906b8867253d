-- ===== src/Deck/Session/Plan/Edits.antt =====
-- Each edit of a draft is the plan's edit of its plan.
use mooring_line_management.Base.{
  ◌≡◌, refl, sym, ap, ◌∙◌, String, true, false, not, ◌||◌, List, [], ◌∷◌, ◌++◌, map, is_some, find,
  filter, update_first, if◌then◌else◌, if_true, if_false, Bool-cases, inl, inr, map-append,
  map-filter, map-update_first, update_first_none,
}
use mooring_line_management.Number.{Number}
use mooring_line_management.Schema.{Winch, Layout}
use mooring_line_management.Deck.Naming.{renumber_auto}
use mooring_line_management.Deck.Layout.{
  Station, Drag, Kind, winch, storage, winch_is, storage_is, move_kind, move_item, new_winch,
  new_storage, add_winch, add_storage, assign_winch, update_winch, update_storage, remove,
}
use mooring_line_management.Deck.Session.{
  WinchChange, StorageChange, use_auto, rename, set_drive, fewer_drums, more_drums, rotate,
  winch_patch, storage_patch,
}
use mooring_line_management.Deck.Session.Plan.{
  PlanWinch, Plan, plan_is, plan_of, plan_layout, plan_change, plan_move, plan_update,
  plan_update_storage, plan_remove, planned_new,
}
use mooring_line_management.Deck.Session.Plan.Shown.{map-plan_of-renumber_auto}

module _ {N : Type 0} ⦃num : Number N⦄ where
  -- A plan of the layout with these winches' plans.
  with_winches : Layout N → List (PlanWinch N) → Plan N
  with_winches l ps = record { storage = l.storage; vessel_id = l.vessel_id; winches = ps }

  pub plan_layout-move_item :
      (d : Drag) (at : N × N) (l : Layout N)
      → plan_layout (move_item d at l) ≡ plan_move d.kind d.id at (plan_layout l)
  unfolding move_item move_kind plan_layout plan_move plan_of with_winches
  plan_layout-move_item d at l = go d.kind d.id at
    where
      go :
          (k : Kind) (id : String) (at : N × N)
          → plan_layout (move_kind k id at l) ≡ plan_move k id at (plan_layout l)
      go winch id (x, y) = ap (with_winches l) (
          map-plan_of-renumber_auto _
          ∙ map-update_first plan_of (winch_is id) (plan_is id) _ _ l.winches (λ w. refl)
              (λ w. refl))
      go storage id (x, y) = refl

  plan_of-assign_winch :
      (w v : Winch N) (c : WinchChange)
      → plan_of (assign_winch (winch_patch w c) v) ≡ plan_change (plan_of w) c (plan_of v)
  unfolding plan_of assign_winch winch_patch plan_change
  plan_of-assign_winch w v use_auto = refl
  plan_of-assign_winch w v (rename text) = refl
  plan_of-assign_winch w v (set_drive d) = refl
  plan_of-assign_winch w v (WinchChange.set_station s) = refl
  plan_of-assign_winch w v fewer_drums = refl
  plan_of-assign_winch w v more_drums = refl
  plan_of-assign_winch w v (rotate o) = refl

  pub plan_layout-add_winch :
      (id : String) (s : Station) (l : Layout N)
      → plan_layout (add_winch id s l)
        ≡ record (plan_layout l) { winches = (plan_layout l).winches ++ planned_new id s ∷ [] }
  unfolding plan_layout add_winch with_winches plan_of new_winch planned_new
  plan_layout-add_winch id s l = ap (with_winches l) (
      map-plan_of-renumber_auto (l.winches ++ new_winch id s ∷ []) ∙ map-append plan_of l.winches _)

  pub plan_layout-add_storage :
      (id : String) (s : Station) (l : Layout N)
      → plan_layout (add_storage id s l)
        ≡ record (plan_layout l) { storage = (plan_layout l).storage ++ new_storage id s ∷ [] }
  unfolding plan_layout add_storage
  plan_layout-add_storage id s l = refl

  plan_of-id : (key : String) (w : Winch N) → plan_is key (plan_of w) ≡ winch_is key w
  unfolding plan_of
  plan_of-id key w = refl

  pub plan_layout-update_winch :
      (key : String) (w : Winch N) (c : WinchChange) (l : Layout N)
      → plan_layout (update_winch key (winch_patch w c) l)
        ≡ plan_update key (plan_of w) c (plan_layout l)
  unfolding plan_layout update_winch plan_update with_winches
  plan_layout-update_winch key w c l = elim (Bool-cases (is_some (find (winch_is key) l.winches))) [
    | inl e ↦
        ap plan_layout (if_true _ _ e)
        ∙ ap (with_winches l)
            (elim (is_some (winch_patch w c).station || is_some (winch_patch w c).label_auto)
              as (λ b.
                map plan_of (if b then renumber_auto next else next)
                ≡ update_first (plan_is key) (plan_change (plan_of w) c) (map plan_of l.winches)) [
                  | true ↦ map-plan_of-renumber_auto next ∙ changed
                  | false ↦ changed
                ])
    | inr e ↦
        ap plan_layout (if_false _ _ e)
        ∙ ap (with_winches l)
            (ap (map plan_of) (sym (update_first_none (winch_is key) _ l.winches e)) ∙ changed)
  ]
    where
      next : List (Winch N)
      next = update_first (winch_is key) (assign_winch (winch_patch w c)) l.winches

      changed :
          map plan_of (update_first (winch_is key) (assign_winch (winch_patch w c)) l.winches)
          ≡ update_first (plan_is key) (plan_change (plan_of w) c) (map plan_of l.winches)
      changed =
          map-update_first plan_of (winch_is key) (plan_is key) _ _ l.winches (plan_of-id key)
            (λ v. plan_of-assign_winch w v c)

  pub plan_layout-update_storage :
      (key : String) (c : StorageChange) (l : Layout N)
      → plan_layout (update_storage key (storage_patch c) l)
        ≡ plan_update_storage key c (plan_layout l)
  unfolding plan_layout update_storage plan_update_storage
  plan_layout-update_storage key c l = refl

  pub plan_layout-remove :
      (key : String) (l : Layout N) → plan_layout (remove key l) ≡ plan_remove key (plan_layout l)
  unfolding plan_layout remove plan_remove with_winches plan_of
  plan_layout-remove key l =
      ap
        (λ ws. record (with_winches l ws) {
          storage = filter (λ s. not (storage_is key s)) l.storage;
        })
        (map-plan_of-renumber_auto _ ∙ map-filter plan_of _ _ l.winches (λ w. refl))
