-- ===== src/Engine/Marks.antt =====
-- internal/engine: what marking and relabelling at the close leave as it was.
use verdict_machine.Base.{
  ◌≡◌, refl, ap, ◌∙◌, inl, inr, [], ◌∷◌, map, ◌&&◌, Bool-cases, Option-cases,
}
use verdict_machine.Base.Int.{ℤ}
use verdict_machine.Base.Map.{Map, lookup, int_key}
use verdict_machine.Float.{Float, nought}
use verdict_machine.Cost.Model.{unset, is_not}
use verdict_machine.Engine.Model.{Position, Portfolio}
use verdict_machine.Engine.Portfolio.{mark, mark_one, equity, sum_worth, worth}
use verdict_machine.Engine.Close.{Bar, relabel, relabel_one}

module _ {F : Type 0} ⦃fl : Float F⦄ (closes : Map ℤ F) where
  -- The position that `f` leaves of one is under the same entity, and worth the same.
  abbrev IsNeutral : (ℤ × Position F → ℤ × Position F) → Type 0
  IsNeutral f =
      (id : ℤ) (held : Position F)
      → (held' : Position F) × (f (id, held) ≡ (id, held'))
        × (worth closes id held' ≡ worth closes id held)

  sum_worth-map :
      (f : ℤ × Position F → ℤ × Position F)
      → IsNeutral f
      → (m : Map ℤ (Position F)) (acc : F) → sum_worth closes acc (map f m) ≡ sum_worth closes acc m
  unfolding sum_worth
  sum_worth-map f n [] acc = refl
  sum_worth-map f n ((id, held) ∷ m) acc =
      let (held', e, w) = n id held in
      ap (λ x. sum_worth closes acc (x ∷ map f m)) e
      ∙ (ap (λ v. sum_worth closes (fl.add acc v) (map f m)) w ∙ sum_worth-map f n m _)

  mark_one-IsNeutral : IsNeutral (mark_one closes)
  mark_one-IsNeutral id held = elim (Option-cases (lookup id closes)) [
    | inl e ↦ (held, rw (mark_one, e) refl, refl)
    | inr (c, e) ↦ elim (Bool-cases (fl.lt nought c)) [
      | inl up ↦ (record held { last_mark = c }, rw (mark_one, e, up) refl, rw (worth, e) refl)
      | inr low ↦ (held, rw (mark_one, e, low) refl, refl)
    ]
  ]

  relabel_one-IsNeutral : (bars : Map ℤ (Bar F)) → IsNeutral (relabel_one bars)
  relabel_one-IsNeutral bars id held = elim (Option-cases (lookup id bars)) [
    | inl e ↦ (held, rw (relabel_one, e) refl, refl)
    | inr (b, e) ↦ elim (Bool-cases (is_not b.scrip unset && is_not b.scrip held.scrip)) [
      | inl new ↦ (record held { scrip = b.scrip }, rw (relabel_one, e, new) refl, refl)
      | inr same ↦ (held, rw (relabel_one, e, same) refl, refl)
    ]
  ]

  -- The equity that a session records is that of the book before `Mark` and `relabel`, at the same
  -- closes: neither changes what the book is worth at them.
  pub equity-relabel-mark :
      (bars : Map ℤ (Bar F)) (p : Portfolio F)
      → equity closes (relabel bars (mark closes p)) ≡ equity closes p
  unfolding equity relabel mark
  equity-relabel-mark bars p =
      sum_worth-map (relabel_one bars) (relabel_one-IsNeutral bars)
        (map (mark_one closes) p.positions) p.cash
      ∙ sum_worth-map (mark_one closes) mark_one-IsNeutral p.positions p.cash
