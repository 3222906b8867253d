-- ===== src/Deck/Session/Plan/Refines.antt =====
-- The deck page implements the plan.
use mooring_line_management.Base.{
  ◌≡◌, refl, sym, ap, ap₂, ◌∙◌, String, Bool, true, false, Option, none, some, List, [], ◌∷◌, find,
  truthy, option_map, find-map, if◌then◌else◌,
}
use mooring_line_management.Number.{Number}
use mooring_line_management.Schema.{Winch, Storage, Layout}
use mooring_line_management.Deck.Layout.{Drag, to_norm, remove}
use mooring_line_management.Deck.Session.{
  WinchChange, StorageChange, Page, Event, enter_edit, reset_edit, cancel_edit, saved, save_failed,
  moved, winch_added, storage_added, change_winch, change_storage, remove_selected, pointer_down,
  pointer_up, select, show_station, is_selected, edit_winch, edit_storage, in_edit, select_new,
  close, open_draft, reload_draft, drag_to, patch_selected, patch_storage, remove_key, set_draft,
  put_winch, put_storage, step, run, initial,
}
use mooring_line_management.Deck.Session.Draft.{OnDraft, AllBring}
use mooring_line_management.Deck.Session.Names.{IsNamed, run-IsNamed}
use mooring_line_management.Deck.Session.Plan.{
  PlanWinch, Plan, PlanPage, plan_of, plan_layout, plan_option, plan_page, on_plan, select_planned,
  when_editing, planned_winch, planned_storage, plan_close, plan_open, plan_reload, plan_remove,
  plan_patch, plan_patch_storage, plan_remove_key, plan_drag, plan_put, plan_put_storage, plan_step,
  plan_run, shown_page,
}
use mooring_line_management.Deck.Session.Plan.Shown.{shown_layout-plan_layout}
use mooring_line_management.Deck.Session.Plan.Edits.{
  plan_layout-move_item, plan_layout-add_winch, plan_layout-add_storage, plan_layout-update_winch,
  plan_layout-update_storage, plan_layout-remove,
}

module _ {N : Type 0} ⦃num : Number N⦄ where
  with_draft : Page N → Option (Plan N) → PlanPage N
  with_draft p o = record {
    station = p.station;
    edit = p.edit;
    draft = o;
    drag = p.drag;
    sel_key = p.sel_key;
  }

  edited :
      (f : Layout N → Layout N) (g : Plan N → Plan N) (o : Option (Layout N))
      → ((l : Layout N) → plan_layout (f l) ≡ g (plan_layout l))
      → plan_option (elim o [ none ↦ none | some l ↦ some (f l) ])
        ≡ elim (plan_option o) [ none ↦ none | some l ↦ some (g l) ]
  edited f g none h = refl
  edited f g (some l) h = ap some (h l)

  plan_page-set_draft :
      (f : Layout N → Layout N) (g : Plan N → Plan N) (p : Page N)
      → ((l : Layout N) → plan_layout (f l) ≡ g (plan_layout l))
      → plan_page (set_draft f p) ≡ on_plan g (plan_page p)
  unfolding plan_page with_draft
  plan_page-set_draft f g p h = ap (with_draft p) (edited f g p.draft h)

  plan_page-in_edit :
      (f : Page N → Page N) (g : PlanPage N → PlanPage N) (p : Page N)
      → plan_page (f p) ≡ g (plan_page p)
      → plan_page (in_edit f p) ≡ when_editing g (plan_page p)
  unfolding in_edit plan_page
  plan_page-in_edit f g p h =
      elim p.edit
        as (λ b. plan_page (if b then f p else p) ≡ (if b then g (plan_page p) else plan_page p)) [
          | true ↦ h
          | false ↦ refl
        ]

  planned_winch-plan_page :
      (p : Page N) → planned_winch (plan_page p) ≡ option_map plan_of (edit_winch p)
  unfolding planned_winch plan_page edit_winch plan_layout plan_of
  planned_winch-plan_page p =
      elim p.draft
        as (λ o.
          (elim (plan_option o) [
            | none ↦ none
            | some l ↦ find (λ (w : PlanWinch N). is_selected p.sel_key w.id) l.winches
          ])
          ≡ option_map plan_of (elim o [
            | none ↦ none
            | some l ↦ find (λ (w : Winch N). is_selected p.sel_key w.id) l.winches
          ])) [ none ↦ refl | some l ↦ find-map plan_of _ _ l.winches (λ w. refl) ]

  planned_storage-plan_page : (p : Page N) → planned_storage (plan_page p) ≡ edit_storage p
  unfolding planned_storage plan_page edit_storage plan_layout
  planned_storage-plan_page p =
      elim p.draft
        as (λ o.
          (elim (plan_option o) [
            | none ↦ none
            | some l ↦ find (λ (s : Storage N). is_selected p.sel_key s.id) l.storage
          ])
          ≡ (elim o [
            | none ↦ none
            | some l ↦ find (λ (s : Storage N). is_selected p.sel_key s.id) l.storage
          ])) [ none ↦ refl | some l ↦ refl ]

  plan_open-plan_page :
      (b c : Bool) (o : Option (Layout N)) (p : Page N)
      → plan_page (open_draft b c o p) ≡ plan_open b c (plan_option o) (plan_page p)
  unfolding open_draft plan_open plan_page
  plan_open-plan_page false true (some l) p = refl
  plan_open-plan_page false true none p = refl
  plan_open-plan_page false false o p = refl
  plan_open-plan_page true c o p = refl

  plan_reload-plan_page :
      (o : Option (Layout N)) (p : Page N)
      → plan_page (reload_draft o p) ≡ plan_reload (plan_option o) (plan_page p)
  unfolding reload_draft plan_reload plan_page
  plan_reload-plan_page none p = refl
  plan_reload-plan_page (some l) p = refl

  plan_drag-plan_page :
      (b : Bool) (d : Option Drag) (at : N × N) (p : Page N)
      → plan_page (drag_to b d at p) ≡ plan_drag b d at (plan_page p)
  unfolding drag_to plan_drag
  plan_drag-plan_page true (some d) at p =
      plan_page-set_draft _ _ p (plan_layout-move_item d (to_norm at))
  plan_drag-plan_page true none at p = refl
  plan_drag-plan_page false d at p = refl

  plan_patch-plan_page :
      (b : Bool) (w : Option (Winch N)) (k : Option String) (c : WinchChange) (p : Page N)
      → plan_page (patch_selected b w k c p) ≡ plan_patch b (option_map plan_of w) k c (plan_page p)
  unfolding patch_selected plan_patch
  plan_patch-plan_page true (some w) (some key) c p =
      plan_page-set_draft _ _ p (plan_layout-update_winch key w c)
  plan_patch-plan_page true (some w) none c p = refl
  plan_patch-plan_page true none k c p = refl
  plan_patch-plan_page false w k c p = refl

  plan_patch_storage-plan_page :
      (b : Bool) (w : Option (Winch N)) (s : Option (Storage N)) (k : Option String)
      (c : StorageChange) (p : Page N)
      → plan_page (patch_storage b w s k c p)
        ≡ plan_patch_storage b (option_map plan_of w) s k c (plan_page p)
  unfolding patch_storage plan_patch_storage
  plan_patch_storage-plan_page true none (some s) (some key) c p =
      plan_page-set_draft _ _ p (plan_layout-update_storage key c)
  plan_patch_storage-plan_page true none (some s) none c p = refl
  plan_patch_storage-plan_page true none none k c p = refl
  plan_patch_storage-plan_page true (some w) s k c p = refl
  plan_patch_storage-plan_page false w s k c p = refl

  plan_remove_key-plan_page :
      (k : Option String) (p : Page N)
      → plan_page (remove_key k p) ≡ plan_remove_key k (plan_page p)
  unfolding remove_key plan_remove_key
  plan_remove_key-plan_page none p = refl
  plan_remove_key-plan_page (some key) p =
      elim (truthy key)
        as (λ b.
          plan_page (if b then set_draft (remove key) p else p)
          ≡ (if b then on_plan (plan_remove key) (plan_page p) else plan_page p)) [
            | true ↦ plan_page-set_draft _ _ p (plan_layout-remove key)
            | false ↦ refl
          ]

  -- A new item is selected where there is a draft.
  selected :
      (id : String) (f : Layout N → Layout N) (g : Plan N → Plan N) (p : Page N)
      (o : Option (Layout N))
      → ((l : Layout N) → plan_layout (f l) ≡ g (plan_layout l))
      → plan_page (select_new id (set_draft f (record p { draft = o })))
        ≡ select_planned id (on_plan g (plan_page (record p { draft = o })))
  unfolding plan_page
  selected id f g p none h = refl
  selected id f g p (some l) h =
      ap {B = PlanPage N}
        (λ d. record {
          station = p.station;
          edit = p.edit;
          draft = some d;
          drag = p.drag;
          sel_key = some id;
        })
        (h l)

  plan_page-step : (e : Event N) (p : Page N) → plan_page (step e p) ≡ plan_step e (plan_page p)
  unfolding step plan_step close put_winch put_storage plan_page plan_close plan_put
      plan_put_storage
  plan_page-step (enter_edit c o) p = plan_open-plan_page p.edit c o p
  plan_page-step (reset_edit o) p =
      plan_page-in_edit (reload_draft o) (plan_reload (plan_option o)) p (plan_reload-plan_page o p)
  plan_page-step cancel_edit p = plan_page-in_edit close plan_close p refl
  plan_page-step saved p = refl
  plan_page-step save_failed p = refl
  plan_page-step (moved at) p = plan_drag-plan_page p.edit p.drag at p
  plan_page-step (winch_added id) p =
      plan_page-in_edit (put_winch id) (plan_put id) p
        (selected id _ _ p p.draft (plan_layout-add_winch id p.station))
  plan_page-step (storage_added id) p =
      plan_page-in_edit (put_storage id) (plan_put_storage id) p
        (selected id _ _ p p.draft (plan_layout-add_storage id p.station))
  plan_page-step (change_winch c) p =
      plan_patch-plan_page p.edit (edit_winch p) p.sel_key c p
      ∙ ap (λ w. plan_patch p.edit w p.sel_key c (plan_page p)) (sym (planned_winch-plan_page p))
  plan_page-step (change_storage c) p =
      plan_patch_storage-plan_page p.edit (edit_winch p) (edit_storage p) p.sel_key c p
      ∙ ap₂ (λ w s. plan_patch_storage p.edit w s p.sel_key c (plan_page p))
          (sym (planned_winch-plan_page p)) (sym (planned_storage-plan_page p))
  plan_page-step remove_selected p = plan_remove_key-plan_page p.sel_key p
  plan_page-step (pointer_down d) p =
      elim p.edit
        as (λ b. plan_page (if b then record p { drag = some d; sel_key = some d.id } else p) ≡ (
          if b then record (plan_page p) { drag = some d; sel_key = some d.id } else plan_page p)) [
            | true ↦ refl
            | false ↦ refl
          ]
  plan_page-step pointer_up p = refl
  plan_page-step (select id) p = refl
  plan_page-step (show_station s) p = refl

  plan_page-run :
      (es : List (Event N)) (p : Page N) → plan_page (run es p) ≡ plan_run es (plan_page p)
  unfolding run plan_run
  plan_page-run [] p = refl
  plan_page-run (e ∷ es) p = plan_page-run es (step e p) ∙ ap (plan_run es) (plan_page-step e p)

  shown_page-plan_page : (p : Page N) → OnDraft IsNamed p.draft → shown_page (plan_page p) ≡ p
  unfolding shown_page plan_page
  shown_page-plan_page p h = go p.draft h
    where
      go :
          (o : Option (Layout N))
          → OnDraft IsNamed o
          → shown_page (plan_page (record p { draft = o })) ≡ record p { draft = o }
      go none h = refl
      go (some l) h =
          ap {B = Page N} (λ m. record p { draft = some m }) (shown_layout-plan_layout l h)

  -- The deck page implements the plan: after any sequence of events its state, the draft with all
  -- derived names included, is what the plan shows that was edited by the same events without any
  -- renumbering, if each layout that the session loads is named by its places.
  pub run-shown_page :
      (es : List (Event N))
      → AllBring IsNamed (λ id. Unit {0}) es
      → run es initial ≡ shown_page (plan_run es (plan_page initial))
  run-shown_page es b =
      sym (shown_page-plan_page (run es initial) (run-IsNamed es b))
      ∙ ap shown_page (plan_page-run es initial)
