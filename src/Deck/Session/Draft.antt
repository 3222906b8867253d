-- ===== src/Deck/Session/Draft.antt =====
-- An induction principle for the deck page: what every edit of a draft keeps, and every layout that a
-- session opens has, holds of the draft throughout.
use mooring_line_management.Base.{
  ◌≡◌, refl, String, Bool, true, false, Option, none, some, List, [], ◌∷◌, find, truthy, str_eq,
  if◌then◌else◌,
}
use mooring_line_management.Number.{Number}
use mooring_line_management.Schema.{Winch, Storage, Layout}
use mooring_line_management.Deck.Layout.{
  Station, Drag, to_norm, move_item, add_winch, add_storage, update_winch, update_storage, remove,
}
use mooring_line_management.Deck.Session.{
  WinchChange, StorageChange, winch_patch, storage_patch, Page, Event, enter_edit, reset_edit,
  cancel_edit, saved, save_failed, moved, winch_added, storage_added, change_winch, change_storage,
  remove_selected, pointer_down, pointer_up, select, show_station, edit_winch, edit_storage,
  in_edit, close, open_draft, reload_draft, drag_to, patch_selected, patch_storage, remove_key,
  set_draft, put_winch, put_storage, step, run,
}

module _ {N : Type 0} where
  abbrev pub OnDraft : (Layout N → Type 0) → Option (Layout N) → Type 0
  OnDraft P none = Unit {0}
  OnDraft P (some l) = P l

  set_draft-OnDraft :
      (P : Layout N → Type 0) (f : Layout N → Layout N) (p : Page N) (o : Option (Layout N))
      → p.draft ≡ o
      → ((l : Layout N) → p.draft ≡ some l → P l → P (f l))
      → OnDraft P o
      → OnDraft P (set_draft f p).draft
  set_draft-OnDraft P f p none e keep h = rw e tt
  set_draft-OnDraft P f p (some l) e keep h = rw e (keep l e h)

  in_edit-OnDraft :
      (P : Layout N → Type 0) (f : Page N → Page N) (p : Page N)
      → OnDraft P (f p).draft
      → OnDraft P p.draft
      → OnDraft P (in_edit f p).draft
  unfolding in_edit
  in_edit-OnDraft P f p h k = elim p.edit as (λ b. OnDraft P (if b then f p else p).draft) [
    | true ↦ h
    | false ↦ k
  ]

module _ {N : Type 0} ⦃num : Number N⦄ where
  -- What an event brings from outside: layouts of the query and ids of new items.
  abbrev pub Brings : (Layout N → Type 0) → (String → Type 0) → Event N → Type 0
  Brings P Q (enter_edit can_write o) = OnDraft P o
  Brings P Q (reset_edit o) = OnDraft P o
  Brings P Q (winch_added id) = Q id
  Brings P Q (storage_added id) = Q id
  Brings P Q _ = Unit {0}

  abbrev pub AllBring : (Layout N → Type 0) → (String → Type 0) → List (Event N) → Type 0
  AllBring P Q [] = Unit {0}
  AllBring P Q (e ∷ es) = Brings P Q e × AllBring P Q es

  pub record IsKept (P : Layout N → Type 0) (Q : String → Type 0) : Type 0 where
    pub move_item : (d : Drag) (at : N × N) (l : Layout N) → P l → P (move_item d (to_norm at) l)
    pub add_winch : (id : String) (s : Station) (l : Layout N) → Q id → P l → P (add_winch id s l)
    pub add_storage :
        (id : String) (s : Station) (l : Layout N) → Q id → P l → P (add_storage id s l)
    pub update_winch :
        (key : String) (w : Winch N) (c : WinchChange) (l : Layout N)
        → find (λ v. str_eq v.id key) l.winches ≡ some w
        → P l
        → P (update_winch key (winch_patch w c) l)
    pub update_storage :
        (key : String) (c : StorageChange) (l : Layout N)
        → P l
        → P (update_storage key (storage_patch c) l)
    pub remove : (key : String) (l : Layout N) → P l → P (remove key l)

  module _ (P : Layout N → Type 0) (Q : String → Type 0) (kept : IsKept P Q) where
    open_draft-OnDraft :
        (b c : Bool) (o : Option (Layout N)) (p : Page N)
        → OnDraft P o
        → OnDraft P p.draft
        → OnDraft P (open_draft b c o p).draft
    unfolding open_draft
    open_draft-OnDraft false true (some l) p h k = h
    open_draft-OnDraft false true none p h k = k
    open_draft-OnDraft false false o p h k = k
    open_draft-OnDraft true c o p h k = k

    reload_draft-OnDraft :
        (o : Option (Layout N)) (p : Page N)
        → OnDraft P o
        → OnDraft P p.draft
        → OnDraft P (reload_draft o p).draft
    unfolding reload_draft
    reload_draft-OnDraft none p h k = k
    reload_draft-OnDraft (some l) p h k = h

    drag_to-OnDraft :
        (b : Bool) (d : Option Drag) (at : N × N) (p : Page N)
        → OnDraft P p.draft
        → OnDraft P (drag_to b d at p).draft
    unfolding drag_to
    drag_to-OnDraft true (some d) at p h =
        set_draft-OnDraft P _ p p.draft refl (λ l e k. kept.move_item d at l k) h
    drag_to-OnDraft true none at p h = h
    drag_to-OnDraft false d at p h = h

    patch_selected-OnDraft :
        (b : Bool) (w : Option (Winch N)) (k : Option String) (c : WinchChange) (p : Page N)
        → edit_winch p ≡ w
        → p.sel_key ≡ k
        → OnDraft P p.draft
        → OnDraft P (patch_selected b w k c p).draft
    unfolding patch_selected edit_winch
    patch_selected-OnDraft true (some w) (some key) c p found sel h =
        set_draft-OnDraft P _ p p.draft refl
          (λ l e k. kept.update_winch key w c l (rw (e, sel) at found) k) h
    patch_selected-OnDraft true (some w) none c p found sel h = h
    patch_selected-OnDraft true none k c p found sel h = h
    patch_selected-OnDraft false w k c p found sel h = h

    patch_storage-OnDraft :
        (b : Bool) (w : Option (Winch N)) (s : Option (Storage N)) (k : Option String)
        (c : StorageChange) (p : Page N)
        → OnDraft P p.draft
        → OnDraft P (patch_storage b w s k c p).draft
    unfolding patch_storage
    patch_storage-OnDraft true none (some s) (some key) c p h =
        set_draft-OnDraft P _ p p.draft refl (λ l e k. kept.update_storage key c l k) h
    patch_storage-OnDraft true none (some s) none c p h = h
    patch_storage-OnDraft true none none k c p h = h
    patch_storage-OnDraft true (some w) s k c p h = h
    patch_storage-OnDraft false w s k c p h = h

    remove_key-OnDraft :
        (k : Option String) (p : Page N) → OnDraft P p.draft → OnDraft P (remove_key k p).draft
    unfolding remove_key
    remove_key-OnDraft none p h = h
    remove_key-OnDraft (some key) p h =
        elim (truthy key) as (λ b. OnDraft P (if b then set_draft (remove key) p else p).draft) [
          | true ↦ set_draft-OnDraft P (remove key) p p.draft refl (λ l e k. kept.remove key l k) h
          | false ↦ h
        ]

    pub step-OnDraft :
        (e : Event N) (p : Page N) → Brings P Q e → OnDraft P p.draft → OnDraft P (step e p).draft
    unfolding step close put_winch put_storage
    step-OnDraft (enter_edit c o) p b h = open_draft-OnDraft p.edit c o p b h
    step-OnDraft (reset_edit o) p b h =
        in_edit-OnDraft P (reload_draft o) p (reload_draft-OnDraft o p b h) h
    step-OnDraft cancel_edit p b h = in_edit-OnDraft P close p tt h
    step-OnDraft saved p b h = tt
    step-OnDraft save_failed p b h = h
    step-OnDraft (moved at) p b h = drag_to-OnDraft p.edit p.drag at p h
    step-OnDraft (winch_added id) p b h =
        in_edit-OnDraft P (put_winch id) p
          (set_draft-OnDraft P (add_winch id p.station) p p.draft refl
            (λ l e k. kept.add_winch id p.station l b k) h)
          h
    step-OnDraft (storage_added id) p b h =
        in_edit-OnDraft P (put_storage id) p
          (set_draft-OnDraft P (add_storage id p.station) p p.draft refl
            (λ l e k. kept.add_storage id p.station l b k) h)
          h
    step-OnDraft (change_winch c) p b h =
        patch_selected-OnDraft p.edit (edit_winch p) p.sel_key c p refl refl h
    step-OnDraft (change_storage c) p b h =
        patch_storage-OnDraft p.edit (edit_winch p) (edit_storage p) p.sel_key c p h
    step-OnDraft remove_selected p b h = remove_key-OnDraft p.sel_key p h
    step-OnDraft (pointer_down d) p b h =
        elim p.edit
          as (λ x.
            OnDraft P (if x then record p { drag = some d; sel_key = some d.id } else p).draft) [
              | true ↦ h
              | false ↦ h
            ]
    step-OnDraft pointer_up p b h = h
    step-OnDraft (select id) p b h = h
    step-OnDraft (show_station s) p b h = h

    pub run-OnDraft :
        (es : List (Event N)) (p : Page N)
        → AllBring P Q es
        → OnDraft P p.draft
        → OnDraft P (run es p).draft
    unfolding run
    run-OnDraft [] p b h = h
    run-OnDraft (e ∷ es) p b h = run-OnDraft es (step e p) b.1 (step-OnDraft e p b.0 h)
