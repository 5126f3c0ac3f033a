-- ===== src/Engine/Close.antt =====
-- internal/engine/engine.go: the parts of a session of `Engine.Run` that move the pending orders and
-- the book but call no other component.
use verdict_machine.Base.{List, [], ◌∷◌, ◌++◌, map, none, some, ◌&&◌, ◌||◌, if◌then◌else◌}
use verdict_machine.Base.Int.{ℤ, pos, leb_ℤ}
use verdict_machine.Base.Text.{Text}
use verdict_machine.Base.Format.{format_int}
use verdict_machine.Base.Map.{Map, lookup, int_key}
use verdict_machine.Float.{Float, nought, whole}
use verdict_machine.Time.{Time}
use verdict_machine.Cost.Model.{unset, is_not}
use verdict_machine.Risk.Model.{Intent, Book}
use verdict_machine.Engine.Model.{Order, Position, Portfolio}
use verdict_machine.Engine.Portfolio.{worth}

pub record Bar (F : Type 0) : Type 0 where
  pub entity_id : ℤ
  pub scrip : Text
  pub open_price : F
  pub high : F
  pub low : F
  pub close_price : F

pub record SuspiciousDrop (F : Type 0) : Type 0 where
  pub date : Time
  pub entity_id : ℤ
  pub scrip : Text
  pub from : F
  pub to : F
  pub change : F
  pub quantity : ℤ

module _ {F : Type 0} where
  -- The loop body of `relabel`.
  abbrev pub relabel_one : Map ℤ (Bar F) → ℤ × Position F → ℤ × Position F
  relabel_one bars (id, held) = elim (lookup id bars) [
    | none ↦ (id, held)
    | some b ↦
        if is_not b.scrip unset && is_not b.scrip held.scrip
        then (id, record held { scrip = b.scrip })
        else (id, held)
  ]

  -- `Portfolio.relabel`
  unfoldable pub relabel : Map ℤ (Bar F) → Portfolio F → Portfolio F
  relabel bars p = record p { positions = map (relabel_one bars) p.positions }

  -- The label of an order: the ticker that the entity has this session, where it has one.
  abbrev pub label_of : Map ℤ (Bar F) → Intent F → Text
  label_of bars i = elim (lookup i.entity_id bars) [
    | none ↦ i.scrip
    | some b ↦ if is_not b.scrip unset then b.scrip else i.scrip
  ]

  -- What an accepted intent leaves pending.
  unfoldable pub order_of : Map ℤ (Bar F) → Time → Intent F → Order
  order_of bars on i = record {
    entity_id = i.entity_id;
    scrip = label_of bars i;
    side = i.side;
    product = i.product;
    quantity = i.quantity;
    decided_on = on;
  }

module _ {F : Type 0} ⦃fl : Float F⦄ where
  open fl use {sub, mul, div, lt, le, of_int, to_int}

  -- A pending order's quantity after a corporate action; at least 1.
  abbrev pub scaled : ℤ → F → ℤ
  scaled qty ratio = let q = to_int (mul (of_int qty) ratio) in if leb_ℤ q (pos 0) then pos 1 else q

  unfoldable pub scale_order : Map ℤ F → Order → Order
  scale_order ratios o = elim (lookup o.entity_id ratios) [
    | none ↦ o
    | some r ↦ if lt nought r then record o { quantity = scaled o.quantity r } else o
  ]

  -- `book`
  abbrev pub marked_value : Map ℤ F → ℤ → Position F → F
  marked_value closes id held =
      mul (of_int held.quantity) (elim (lookup id closes) [ some c ↦ c | none ↦ held.last_mark ])

  abbrev pub book_positions : Map ℤ F → Map ℤ (Position F) → Map Text F
  book_positions closes m =
      map (λ (e : ℤ × Position F). (format_int e.0, marked_value closes e.0 e.1)) m

  unfoldable pub book_of : Map ℤ F → F → Portfolio F → Book F
  book_of closes worth p = record {
    equity = worth;
    positions = book_positions closes p.positions;
    day_pnl = nought;
    kill_switch = unset;
  }

  abbrev pub suspicious_drop_threshold : F
  suspicious_drop_threshold = sub nought (fl.decimal 33 2)

  -- The drop that one position shows at the close, against its last mark.
  unfoldable pub drop_of : Time → Map ℤ F → Map ℤ F → ℤ → Position F → List (SuspiciousDrop F)
  drop_of on adj closes id held = elim (lookup id closes) [
    | none ↦ []
    | some c ↦
        let change = sub (div c held.last_mark) (whole 1) in
        if le c nought || le held.last_mark nought then [] else elim (lookup id adj) [
          | some _ ↦ []
          | none ↦
              if le change suspicious_drop_threshold
              then record {
                date = on;
                entity_id = id;
                scrip = held.scrip;
                from = held.last_mark;
                to = c;
                change = change;
                quantity = held.quantity;
              }
                ∷ []
              else []
        ]
  ]

  unfoldable pub drops : Time → Map ℤ F → Map ℤ F → Map ℤ (Position F) → List (SuspiciousDrop F)
  drops on adj closes [] = []
  drops on adj closes ((id, held) ∷ m) = drop_of on adj closes id held ++ drops on adj closes m
