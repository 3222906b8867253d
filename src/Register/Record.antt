-- ===== src/Register/Record.antt =====
-- web/src/features/register/RopeRecord.tsx and web/src/features/turning: the tab of a line's sides, and the
-- button that turns the line. Page is the page around them.
pub mod Turning
pub mod Page
use mooring_line_management.Base.{
  ℕ, String, Bool, true, false, not, ◌&&◌, ◌||◌, Option, none, some, List, [], ◌∷◌, truthy, str_eq,
  or_else, concat, show, if◌then◌else◌,
}
use mooring_line_management.Int.{ℤ}
use mooring_line_management.Schema.{Line}
use mooring_line_management.Api.Http.{
  Outcome, resolved, rejected, plain, ◌>>=◌, ◌>>◌, throw_if, Fetched, Response, is_ok, read_json,
}
use mooring_line_management.Format.{age_label, date_label}

-- `useTurnLine`: any answer but a 2xx fails.
unfoldable pub turn_line : {A : Type 0} → Fetched A → Outcome A
turn_line fetched = do
  res ← fetched
  throw_if (not (is_ok res.status)) (plain (concat ("Turn failed (" ∷ show res.status ∷ ")" ∷ [])))
  read_json res

abbrev pub side_is : String → Option String → Bool
side_is s none = false
side_is s (some t) = str_eq t s

abbrev pub no_side : Option String → Bool
no_side none = true
no_side (some s) = not (truthy s)

-- What the card of `TurnButton` has below its button.
pub data TurnNote : Type 0 where
  cannot_turn read_only : TurnNote

pub record TurnCard : Type 0 where
  pub disabled : Bool
  pub notes : List TurnNote

module _ {N : Type 0} where
  unfoldable pub not_turnable : Line N → Bool
  not_turnable l = not l.can_be_turned || side_is "n/a" l.current_side || no_side l.current_side

  unfoldable pub turn_card : Line N → (can_write is_pending : Bool) → TurnCard
  unfolding not_turnable
  turn_card l can_write is_pending = record {
    disabled = (not_turnable l || not can_write) || is_pending;
    notes = if not_turnable l then cannot_turn ∷ [] else if can_write then [] else read_only ∷ [];
  }

  -- `onClick`: nothing while a turn is pending, and nothing without the user's consent.
  unfoldable pub click_turn : (is_pending confirmed : Bool) → Line N → Option String
  click_turn is_pending confirmed l =
      if is_pending then none else if confirmed then some l.id else none

-- A card of the tab "Side tracking".
pub record SideCard : Type 0 where
  pub side : String
  pub in_use : Bool
  pub age : String
  pub last_change : String
  pub condition : Option String

pub data SideTab : Type 0 where
  not_reversible : SideTab
  sides : (turn_recommended : Bool) → SideCard → SideCard → TurnCard → SideTab

module _ {N : Type 0} (locale_date : String → String) where
  side_card : Line N → String → ℤ → Option String → Option String → SideCard
  side_card l side days change condition = record {
    side = side;
    in_use = side_is side l.current_side;
    age = age_label (some days);
    last_change = date_label locale_date change;
    condition = condition;
  }

  unfoldable pub side_tracking : Line N → (can_write is_pending : Bool) → SideTab
  unfolding side_card turn_card
  side_tracking l can_write is_pending =
      if side_is "n/a" l.current_side || not l.can_be_turned
      then not_reversible
      else sides l.turn_due
          (side_card l "A" l.side_a_age_days l.side_a_change_date l.side_a_condition)
          (side_card l "B" l.side_b_age_days l.side_b_change_date l.side_b_condition)
          (turn_card l can_write is_pending)
