-- ===== src/Deck/Session/Bounds.antt =====
-- Every item of a draft stays on the deck, and every winch has one to six drums.
use mooring_line_management.Base.{◌≤◌, ◌≡◌, refl, List, inl, inr, arith, All}
use mooring_line_management.Number.{Number, InUnit}
use mooring_line_management.Schema.{Winch, Storage, Layout}
use mooring_line_management.Deck.Naming.Labels.{IsStation}
use mooring_line_management.Deck.Layout.{
  Station, fwd, aft, station_text, new_winch, new_storage, assign_storage, assign_winch,
}
use mooring_line_management.Deck.Session.{
  WinchChange, StorageChange, fewer_drums, more_drums, relabel, winch_patch, storage_patch, Event,
  run, initial,
}
use mooring_line_management.Deck.Session.Draft.{OnDraft, AllBring, run-OnDraft}
use mooring_line_management.Deck.Session.Items.{ItemRules, AllItems-IsKept}

station_text-IsStation : (s : Station) → IsStation (station_text s)
station_text-IsStation fwd = inl refl
station_text-IsStation aft = inr refl

module _ {N : Type 0} ⦃num : Number N⦄ where
  -- The winch stands on the deck and its station is one of the two; it has one to six drums.
  pub record WinchInBounds (w : Winch N) : Type 0 where
    pub x : InUnit w.x
    pub y : InUnit w.y
    pub some_drum : 1 ≤ w.drum_count
    pub few_drums : w.drum_count ≤ 6
    pub station : IsStation w.station

  pub record StorageInBounds (s : Storage N) : Type 0 where
    pub x : InUnit s.x
    pub y : InUnit s.y
    pub station : IsStation s.station

  abbrev pub InBounds : Layout N → Type 0
  InBounds l = All WinchInBounds l.winches × All StorageInBounds l.storage

  half-InUnit : (a : N) → a ≡ num.half → InUnit a
  half-InUnit a e = rw e (
    num.lt_asymm num.zero num.half num.zero-lt-half,
    num.lt_asymm num.half num.one num.half-lt-one,
  )

  -- A change by the editor of the winch `w`, assigned to the winch `v`.
  assign_winch-InBounds :
      (c : WinchChange) (w v : Winch N)
      → WinchInBounds w
      → WinchInBounds v
      → WinchInBounds (assign_winch (winch_patch w c) v)
  unfolding assign_winch winch_patch
  assign_winch-InBounds (WinchChange.set_station s) w v h b = record {
    x = b.x;
    y = b.y;
    some_drum = b.some_drum;
    few_drums = b.few_drums;
    station = station_text-IsStation s;
  }
  assign_winch-InBounds fewer_drums w v h b = record {
    x = b.x;
    y = b.y;
    some_drum = omega arith;
    few_drums = omega (arith, h.few_drums);
    station = b.station;
  }
  assign_winch-InBounds more_drums w v h b = record {
    x = b.x;
    y = b.y;
    some_drum = omega arith;
    few_drums = omega arith;
    station = b.station;
  }
  assign_winch-InBounds _ w v h b = record {
    x = b.x;
    y = b.y;
    some_drum = b.some_drum;
    few_drums = b.few_drums;
    station = b.station;
  }

  assign_storage-InBounds :
      (c : StorageChange) (s : Storage N)
      → StorageInBounds s
      → StorageInBounds (assign_storage (storage_patch c) s)
  unfolding assign_storage storage_patch
  assign_storage-InBounds (relabel text) s b = record { x = b.x; y = b.y; station = b.station }
  assign_storage-InBounds (StorageChange.set_station st) s b = record {
    x = b.x;
    y = b.y;
    station = station_text-IsStation st;
  }

  InBounds-rules : ItemRules WinchInBounds StorageInBounds (λ id. Unit {0})
  unfolding new_winch new_storage
  InBounds-rules = record {
    named = λ w label b. record {
      x = b.x;
      y = b.y;
      some_drum = b.some_drum;
      few_drums = b.few_drums;
      station = b.station;
    };
    moved = λ w x y hx hy b. record {
      x = hx;
      y = hy;
      some_drum = b.some_drum;
      few_drums = b.few_drums;
      station = b.station;
    };
    new = λ id s q. record {
      x = half-InUnit num.half refl;
      y = half-InUnit num.half refl;
      some_drum = omega arith;
      few_drums = omega arith;
      station = station_text-IsStation s;
    };
    changed = assign_winch-InBounds;
    store_moved = λ s x y hx hy b. record { x = hx; y = hy; station = b.station };
    new_store = λ id s q. record {
      x = half-InUnit num.half refl;
      y = half-InUnit num.half refl;
      station = station_text-IsStation s;
    };
    store_changed = assign_storage-InBounds;
  }

  -- Whatever the user does, every winch and store of the draft lies on the deck (both coordinates
  -- between 0 and 1) at one of the two stations, and every winch has one to six drums, if that holds
  -- of each layout from which the session starts or resets its draft.
  pub run-InBounds :
      (es : List (Event N))
      → AllBring InBounds (λ id. Unit {0}) es
      → OnDraft InBounds (run es initial).draft
  unfolding initial
  run-InBounds es b =
      run-OnDraft InBounds _ (AllItems-IsKept WinchInBounds StorageInBounds _ InBounds-rules) es
        initial b tt
