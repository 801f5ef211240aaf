-- ===== src/Monitor/Rows.antt =====
-- `ProtectedPosition.to_row` and `from_row`, the rebuilding of the guards in `on_start`, and the table
-- of `ProtectionRepository` (libs/persistence/repositories.py). A row holds
-- the direction as text; `none` is the ValueError of a text that names no direction.
use crypto_research_platform.Prelude.{
  ℕ, String, ◌≡◌, refl, Bool, Option, none, some, List, [], ◌∷◌, string_eq, ◌==◌, if◌then◌else◌,
}
use crypto_research_platform.Prelude.Dict.{Dict, lookup, insert, erase}
use crypto_research_platform.Schemas.{Direction}
use crypto_research_platform.Monitor.Guard.{ProtectedPosition}
use crypto_research_platform.Monitor.Defs.{Write}

pub record ProtectionRow (D : Type 0) : Type 0 where
  pub symbol : String
  pub direction : String
  pub size : D
  pub entry_price : D
  pub stop_price : Option D
  pub take_profit_price : Option D
  pub trailing_stop_pct : Option D
  pub extreme_price : Option D
  pub exit_pending : Bool
  pub correlation_id : Option ℕ
  pub decision_id : Option ℕ
  pub opened_at : D
  pub updated_at : D

-- `Direction.value`
abbrev pub direction_value : Direction → String
direction_value Direction.long = "long"
direction_value Direction.short = "short"
direction_value Direction.flat = "flat"

-- `Direction(text)`
unfoldable pub direction_from : String → Option Direction
direction_from text =
    if text == "long"
    then some Direction.long
    else if text == "short"
    then some Direction.short
    else if text == "flat"
    then some Direction.flat
    else none

direction_from-direction_value : (dir : Direction) → direction_from (direction_value dir) ≡ some dir
unfolding direction_from
direction_from-direction_value Direction.long = refl
direction_from-direction_value Direction.short = refl
direction_from-direction_value Direction.flat = refl

module _ {D : Type 0} where
  unfoldable pub to_row : D → ProtectedPosition D → ProtectionRow D
  to_row now p = record {
    symbol = p.symbol;
    direction = direction_value p.direction;
    size = p.size;
    entry_price = p.entry_price;
    stop_price = p.stop_price;
    take_profit_price = p.take_profit_price;
    trailing_stop_pct = p.trailing_stop_pct;
    extreme_price = p.extreme_price;
    exit_pending = p.exit_pending;
    correlation_id = p.correlation_id;
    decision_id = p.decision_id;
    opened_at = p.opened_at;
    updated_at = now;
  }

  abbrev pub rebuilt : ProtectionRow D → Option Direction → Option (ProtectedPosition D)
  rebuilt row none = none
  rebuilt row (some direction) = some (record {
    symbol = row.symbol;
    direction = direction;
    size = row.size;
    entry_price = row.entry_price;
    stop_price = row.stop_price;
    take_profit_price = row.take_profit_price;
    trailing_stop_pct = row.trailing_stop_pct;
    extreme_price = row.extreme_price;
    exit_pending = row.exit_pending;
    correlation_id = row.correlation_id;
    decision_id = row.decision_id;
    opened_at = row.opened_at;
    updated_at = row.updated_at;
  })

  unfoldable pub from_row : ProtectionRow D → Option (ProtectedPosition D)
  unfolding direction_from
  from_row row = rebuilt row (direction_from row.direction)

  abbrev pub placed :
      Option (ProtectedPosition D)
      → Dict String (ProtectedPosition D)
      → Option (Dict String (ProtectedPosition D))
  placed none m = none
  placed (some p) m = some (insert p.symbol p m)

  abbrev pub then_all :
      Option (Dict String (ProtectedPosition D))
      → (Dict String (ProtectedPosition D) → Option (Dict String (ProtectedPosition D)))
      → Option (Dict String (ProtectedPosition D))
  then_all none f = none
  then_all (some m) f = f m

  -- The loop of `on_start` over the rows of the repository.
  unfoldable pub load_all :
      List (ProtectionRow D)
      → Dict String (ProtectedPosition D)
      → Option (Dict String (ProtectedPosition D))
  unfolding from_row
  load_all [] m = some m
  load_all (row ∷ rows) m = then_all (placed (from_row row) m) (load_all rows)

  -- `ON CONFLICT (symbol) DO UPDATE`: everything but the time of opening.
  abbrev pub merged : ProtectionRow D → Option (ProtectionRow D) → ProtectionRow D
  merged row none = row
  merged row (some old) = record row { opened_at = old.opened_at }

  -- `ProtectionRepository.save` and `delete`, on the table by symbol.
  unfoldable pub save_row :
      ProtectionRow D → Dict String (ProtectionRow D) → Dict String (ProtectionRow D)
  save_row row table = insert row.symbol (merged row (lookup row.symbol table)) table

  unfoldable pub delete_row : String → Dict String (ProtectionRow D) → Dict String (ProtectionRow D)
  delete_row symbol table = erase symbol table

  -- `_persist` and the deletion of `_forget`.
  abbrev pub written : D → Write D → Dict String (ProtectionRow D) → Dict String (ProtectionRow D)
  written now (Write.save p) table = save_row (to_row now p) table
  written now (Write.delete symbol) table = delete_row symbol table

  abbrev pub all_written :
      D → List (Write D) → Dict String (ProtectionRow D) → Dict String (ProtectionRow D)
  all_written now [] table = table
  all_written now (w ∷ ws) table = all_written now ws (written now w table)

  pub from_row-merged :
      (now : D) (p : ProtectedPosition D) (old : Option (ProtectionRow D))
      → (at : D) × (from_row (merged (to_row now p) old)
          ≡ some (record p { updated_at = now; opened_at = at }))
  unfolding from_row to_row
  from_row-merged now p none = (p.opened_at, simp (direction_from-direction_value p.direction) refl)
  from_row-merged now p (some old) =
      (old.opened_at, simp (direction_from-direction_value p.direction) refl)
