-- ===== src/Monitor/Defs.antt =====
-- `class PositionMonitor`: the handlers. What is written to the protection repository is returned, as
-- a list of writes; fresh ids and the clock are arguments.
use crypto_research_platform.Prelude.{
  ℕ, suc, String, Bool, true, false, not, Option, none, some, List, [], ◌∷◌, ◌++◌, nat_eq,
  string_eq, if◌then◌else◌,
}
use crypto_research_platform.Prelude.Dict.{Dict, lookup, insert, erase}
use crypto_research_platform.Decimal.{Decimal, ◌+◌, ◌-◌, of_ℕ, leb, eqb}
use crypto_research_platform.Schemas.{
  Side, same_direction, is_long, direction_of_side, ExitReason, exit_reason_value, OrderType,
  Position, PortfolioSnapshot, OrderIntent, Fill, mid_price, Topic, Event, Publication,
}
use crypto_research_platform.Monitor.Guard.{
  ProtectedPosition, observe, effective_stop, breach, from_position,
}

pub record Monitor (D : Type 0) : Type 0 where
  pub default_trailing_stop_pct : Option D
  pub is_paper : Bool
  pub positions : Dict String (ProtectedPosition D)
  pub pending_orders : Dict ℕ (OrderIntent D)
  pub exits_fired : ℕ
  pub ticks_processed : ℕ

-- The calls of the repository.
pub data Write (D : Type 0) : Type 0 where
  save : ProtectedPosition D → Write D
  delete : String → Write D

abbrev pub or_id : Option ℕ → ℕ → ℕ
or_id none i = i
or_id (some j) i = j

abbrev pub or_else : {A : Type 0} → Option A → Option A → Option A
or_else none b = b
or_else (some a) b = some a

abbrev pub Result : Type 0 → Type 0
Result D = Monitor D × List (Write D)

module _ {D : Type 0} ⦃d : Decimal D⦄ where
  -- `order.trailing_stop_pct or default`: a percentage of zero counts as none.
  abbrev pub truthy : Option D → Option D
  truthy none = none
  truthy (some pct) = if eqb pct (of_ℕ 0) then none else some pct

  unfoldable pub forget : String → Monitor D → Result D
  forget symbol m = (record m { positions = erase symbol m.positions }, delete symbol ∷ [])

  abbrev pub put : String → ProtectedPosition D → Monitor D → Result D
  put symbol p m = (record m { positions = insert symbol p m.positions }, save p ∷ [])

  unfoldable pub remember_order : OrderIntent D → Monitor D → Monitor D
  remember_order o m =
      if o.reduce_only
      then m
      else record m { pending_orders = insert o.order_id o m.pending_orders }

  abbrev pub guard_fill : D → Fill D → OrderIntent D → Option D → ProtectedPosition D
  guard_fill now f o fallback = record {
    symbol = f.symbol;
    direction = direction_of_side f.side;
    size = f.size;
    entry_price = f.price;
    stop_price = o.stop_price;
    take_profit_price = o.take_profit_price;
    trailing_stop_pct = or_else (truthy o.trailing_stop_pct) fallback;
    extreme_price = some f.price;
    exit_pending = false;
    correlation_id = some f.correlation_id;
    decision_id = f.decision_id;
    opened_at = now;
    updated_at = now;
  }

  -- The part of `_apply_fill` for a fill against the guarded position.
  unfoldable pub reduce_guard : Fill D → ProtectedPosition D → Monitor D → Result D
  unfolding forget
  reduce_guard f p m =
      let remaining = p.size - f.size in
      if leb remaining (of_ℕ 0)
      then forget f.symbol m
      else put f.symbol (record p { size = remaining; exit_pending = false }) m

  abbrev pub open_guard : D → Fill D → Option (OrderIntent D) → Monitor D → Result D
  open_guard now f none m = (m, [])
  open_guard now f (some o) m = put f.symbol (guard_fill now f o m.default_trailing_stop_pct) m

  unfoldable pub fill_guard : D → Fill D → Option (ProtectedPosition D) → Monitor D → Result D
  unfolding reduce_guard
  fill_guard now f none m =
      open_guard now f (lookup f.order_id m.pending_orders)
        (record m { pending_orders = erase f.order_id m.pending_orders })
  fill_guard now f (some p) m =
      if same_direction p.direction (direction_of_side f.side)
      then put f.symbol (record p { size = p.size + f.size; updated_at = now })
          (record m { pending_orders = erase f.order_id m.pending_orders })
      else reduce_guard f p m

  unfoldable pub apply_fill : D → Fill D → Monitor D → Result D
  unfolding fill_guard
  apply_fill now f m = fill_guard now f (lookup f.symbol m.positions) m

  -- `live = {position.symbol: position ...}`
  abbrev pub live_positions :
      List (Position D) → Dict String (Position D) → Dict String (Position D)
  live_positions [] live = live
  live_positions (p ∷ ps) live = live_positions ps (insert p.symbol p live)

  abbrev pub drop_one : String → Option (Position D) → Monitor D → Result D
  drop_one symbol none m = forget symbol m
  drop_one symbol (some p) m = (m, [])

  -- The first loop of `_reconcile`, over the symbols that were tracked when it began.
  unfoldable pub drop_closed :
      Dict String (ProtectedPosition D) → Dict String (Position D) → Monitor D → Result D
  drop_closed [] live m = (m, [])
  drop_closed ((symbol, _) ∷ tracked) live m =
      let (m', ws) = drop_one symbol (lookup symbol live) m in
      let (m'', ws') = drop_closed tracked live m' in (m'', ws ++ ws')

  abbrev pub adopted : D → Position D → Monitor D → ProtectedPosition D
  adopted now p m = record (from_position now p) {
    trailing_stop_pct = or_else p.trailing_stop_pct m.default_trailing_stop_pct;
  }

  abbrev pub adopt_one :
      D → String → Position D → Option (ProtectedPosition D) → Monitor D → Result D
  adopt_one now symbol p none m = put symbol (adopted now p m) m
  adopt_one now symbol p (some _) m = (m, [])

  unfoldable pub adopt_all : D → Dict String (Position D) → Monitor D → Result D
  adopt_all now [] m = (m, [])
  adopt_all now ((symbol, p) ∷ live) m =
      let (m', ws) = adopt_one now symbol p (lookup symbol m.positions) m in
      let (m'', ws') = adopt_all now live m' in (m'', ws ++ ws')

  unfoldable pub reconcile : D → PortfolioSnapshot D → Monitor D → Result D
  reconcile now s m =
      let live = live_positions s.positions [] in
      let (m', ws) = drop_closed m.positions live m in
      let (m'', ws') = adopt_all now live m' in (m'', ws ++ ws')

  -- `record.effective_stop != previous_stop`
  abbrev pub moved : Option D → Option D → Bool
  moved none none = false
  moved (some a) (some b) = not (eqb a b)
  moved _ _ = true

  unfoldable pub exit_order : Bool → ℕ → String → ProtectedPosition D → ExitReason → OrderIntent D
  exit_order is_paper fresh symbol p reason = record {
    order_id = fresh;
    decision_id = or_id p.decision_id (suc fresh);
    symbol = symbol;
    side = if is_long p.direction then Side.sell else Side.buy;
    size = p.size;
    order_type = OrderType.market;
    reduce_only = true;
    stop_price = none;
    take_profit_price = none;
    trailing_stop_pct = none;
    exit_reason = some (exit_reason_value reason);
    is_paper = is_paper;
    correlation_id = or_id p.correlation_id (suc (suc fresh));
  }

  -- `on_price` once the mark has been moved: `p` is the record before, `q` the record after.
  abbrev pub fire :
      ℕ
      → String
      → ProtectedPosition D
      → ProtectedPosition D
      → Option ExitReason
      → Monitor D
      → Monitor D × List (Write D) × List (Publication D)
  fire fresh symbol p q none m =
      (m, (if moved (effective_stop q) (effective_stop p) then save q ∷ [] else []), [])
  fire fresh symbol p q (some reason) m =
      let q' = record q { exit_pending = true } in
      (
        record m { positions = insert symbol q' m.positions; exits_fired = suc m.exits_fired },
        save q' ∷ [],
        (Topic.order_intents, Event.order (exit_order m.is_paper fresh symbol q reason)) ∷ [],
      )

  unfoldable pub price_guard :
      ℕ
      → String
      → D
      → Option (ProtectedPosition D)
      → Monitor D
      → Monitor D × List (Write D) × List (Publication D)
  price_guard fresh symbol price none m = (m, [], [])
  price_guard fresh symbol price (some p) m =
      if leb price (of_ℕ 0)
      then (m, [], [])
      else let q = observe price p in
        let m' = record m {
          positions = insert symbol q m.positions;
          ticks_processed = suc m.ticks_processed;
        } in
        if p.exit_pending then (m', [], []) else fire fresh symbol p q (breach price q) m'

  unfoldable pub on_price :
      ℕ → String → D → Monitor D → Monitor D × List (Write D) × List (Publication D)
  unfolding price_guard
  on_price fresh symbol price m = price_guard fresh symbol price (lookup symbol m.positions) m

  abbrev pub quiet : Result D → Monitor D × List (Write D) × List (Publication D)
  quiet (m, ws) = (m, ws, [])

  abbrev pub on_mid :
      ℕ → String → Option D → Monitor D → Monitor D × List (Write D) × List (Publication D)
  on_mid fresh symbol none m = (m, [], [])
  on_mid fresh symbol (some mid) m = on_price fresh symbol mid m

  unfoldable pub handle :
      D → ℕ → Event D → Monitor D → Monitor D × List (Write D) × List (Publication D)
  handle now fresh (Event.order o) m = (remember_order o m, [], [])
  handle now fresh (Event.fill f) m = quiet (apply_fill now f m)
  handle now fresh (Event.portfolio s) m = quiet (reconcile now s m)
  handle now fresh (Event.trade t) m = on_price fresh t.symbol t.price m
  handle now fresh (Event.book b) m = on_mid fresh b.symbol (mid_price b) m
  handle now fresh _ m = (m, [], [])
