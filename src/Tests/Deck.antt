-- ===== src/Tests/Deck.antt =====
-- The deck page on a vessel with a forward port winch and a store.
use mooring_line_management.Base.{
  ℕ, ◌≡◌, refl, String, true, false, none, some, List, [], ◌∷◌, map, inl, inr, show, to_upper_case,
  arith, Memᴰ,
}
use mooring_line_management.Int.{pos}
use mooring_line_management.Schema.{Winch, Storage, Layout}
use mooring_line_management.Deck.Naming.{renumber_auto, key_of, side_of, auto_label}
use mooring_line_management.Deck.Naming.Labels.{DistinctLabels}
use mooring_line_management.Deck.Layout.{is_tmp, winch, move_item, to_norm, add_winch, update_winch}
use mooring_line_management.Deck.Session.{
  Page, Event, initial, enter_edit, winch_added, moved, step, pointer_down, pointer_up,
  change_winch, more_drums, run,
}
use mooring_line_management.Deck.Session.Draft.{OnDraft}
use mooring_line_management.Deck.Session.Bounds.{InBounds, run-InBounds}
use mooring_line_management.Deck.Session.Names.{IsNamed, run-IsNamed}
use mooring_line_management.Deck.Session.Distinct.{run-DistinctLabels}
use mooring_line_management.Deck.Session.Plan.{plan_page, plan_run, shown_page}
use mooring_line_management.Deck.Session.Plan.Refines.{run-shown_page}
use mooring_line_management.Deck.Save.{save_request}
use mooring_line_management.Deck.Save.Ids.{SendsKnown, run-SendsKnown}
use mooring_line_management.Tests.Thousandths.{thousandths}

abbrev bow_winch : Winch ℕ
bow_winch = record {
  drive_type = "electric";
  drum_count = 2;
  drums = [];
  id = "w1";
  label = "FWD-P1";
  label_auto = true;
  orientation = pos 0;
  station = "fwd";
  worst_status = none;
  x = 300;
  y = 200;
}

abbrev stern_winch : Winch ℕ
stern_winch = record bow_winch {
  id = "w2";
  label = "Old Bill";
  label_auto = false;
  station = "aft";
}

abbrev bow_store : Storage ℕ
bow_store = record {
  id = "s1";
  label = "Store";
  line_count = 1;
  station = "fwd";
  worst_status = none;
  x = 500;
  y = 700;
}

abbrev luna : Layout ℕ
luna = record { storage = bow_store ∷ []; vessel_id = "v"; winches = bow_winch ∷ stern_winch ∷ [] }

-- A winch is added, dragged to port beside the first one, given a third drum, and saved.
abbrev pub editing : List (Event ℕ)
editing =
    enter_edit true (some luna)
    ∷ winch_added "tmp:7"
    ∷ pointer_down (record { id = "tmp:7"; kind = winch })
    ∷ moved (200_000, 90_000)
    ∷ pointer_up
    ∷ change_winch more_drums
    ∷ []

labels : Page ℕ → List String
labels p = elim p.draft [ none ↦ [] | some l ↦ map (λ w. w.label) l.winches ]

-- What a run on concrete data has to see through.
page : Unit {0}
unfolding labels run step initial renumber_auto key_of side_of auto_label show to_upper_case
    move_item to_norm add_winch update_winch
page = tt

labels-run-editing : labels (run editing initial) ≡ "FWD-P1" ∷ "Old Bill" ∷ "FWD-P2" ∷ []
unfolding page
labels-run-editing = refl

luna_winches : List (Winch ℕ)
luna_winches = luna.winches

luna-InBounds : InBounds luna
luna-InBounds = (
  (
    record {
      x = (refl, refl);
      y = (refl, refl);
      some_drum = omega arith;
      few_drums = omega arith;
      station = inl refl;
    },
    (
      record {
        x = (refl, refl);
        y = (refl, refl);
        some_drum = omega arith;
        few_drums = omega arith;
        station = inr refl;
      },
      tt,
    ),
  ),
  (record { x = (refl, refl); y = (refl, refl); station = inl refl }, tt),
)

run-InBounds_example : OnDraft InBounds (run editing initial).draft
run-InBounds_example = run-InBounds editing (luna-InBounds, (tt, (tt, (tt, (tt, (tt, tt))))))

luna-IsNamed : IsNamed luna
unfolding page
luna-IsNamed = (λ h. refl, (λ h. cc, tt))

run-IsNamed_example : OnDraft IsNamed (run editing initial).draft
run-IsNamed_example = run-IsNamed editing (luna-IsNamed, (tt, (tt, (tt, (tt, (tt, tt))))))

run-DistinctLabels_example : OnDraft (λ l. DistinctLabels l.winches) (run editing initial).draft
run-DistinctLabels_example =
    run-DistinctLabels editing (luna-IsNamed, (tt, (tt, (tt, (tt, (tt, tt))))))
      (luna-InBounds, (tt, (tt, (tt, (tt, (tt, tt))))))

abbrev OfLuna : String → Type 0
OfLuna id = Memᴰ id ("w1" ∷ "w2" ∷ "s1" ∷ [])

run-SendsKnown_example :
    SendsKnown OfLuna (run editing initial).draft (save_request (run editing initial))
unfolding is_tmp
run-SendsKnown_example = run-SendsKnown OfLuna editing (
  (
    (inl (Memᴰ.head refl), (inl (Memᴰ.tail (Memᴰ.head refl)), tt)),
    (inl (Memᴰ.tail (Memᴰ.tail (Memᴰ.head refl))), tt),
  ),
  (refl, (tt, (tt, (tt, (tt, tt))))),
)

run-shown_page_example :
    run editing initial ≡ shown_page (plan_run editing (plan_page (initial {N = ℕ})))
run-shown_page_example = run-shown_page editing (luna-IsNamed, (tt, (tt, (tt, (tt, (tt, tt))))))
