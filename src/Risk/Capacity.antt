-- ===== src/Risk/Capacity.antt =====
-- How many names the working book may hold.
use verdict_machine.Base.{
  ℕ, ◌+◌, ◌≤◌, ◌≡◌, inl, inr, List, [], ◌∷◌, none, true, false, arith, length, All, Bool-cases,
  Option-cases,
}
use verdict_machine.Base.Int.{ℤ, pos, ◌≤ℤ◌, leb_ℤ}
use verdict_machine.Base.Map.{
  lookup, text_key, length-erase-le, length-insert-le, length-insert_old,
}
use native.Mathlib.Nat.{le_trans, le_of_eq}
use verdict_machine.Float.{Float, nought}
use verdict_machine.Cost.Side
use verdict_machine.Cost.Model.{is}
use verdict_machine.Risk.Model.{Intent, Book, Gate, key_of, notional}
use verdict_machine.Risk.Gate.{
  Working, is_malformed, is_killed, is_held, held_value, accept_sell, accept_buy, buy_refusal,
  check_intent, check_intents,
}

-- What float64 promises of a sale at a price that is a number: 0 less a product of positive numbers
-- is not above 0.
abbrev pub SaleIsNotPositive : (F : Type 0) ⦃fl : Float F⦄ → Type 0
SaleIsNotPositive F ⦃fl⦄ =
    (q : ℤ) (p : F)
    → leb_ℤ q (pos 0) ≡ false
    → fl.lt nought p ≡ true
    → fl.le (fl.sub nought (fl.mul (fl.of_int q) p)) nought ≡ true

module _ {F : Type 0} ⦃fl : Float F⦄ (g : Gate F) (b : Book F) (floor : F) where
  well_sized : (i : Intent F) → is_malformed i ≡ false → leb_ℤ i.quantity (pos 0) ≡ false
  well_sized i h = ground arith

  accept_sell-le :
      (w : Working F) (i : Intent F)
      → SaleIsNotPositive F
      → is_malformed i ≡ false
      → fl.lt nought i.price ≡ true
      → length (accept_sell w i).positions ≤ length w.positions
  unfolding accept_sell
  accept_sell-le w i sale good num = elim (Option-cases (lookup (key_of i) w.positions)) [
    | inl new ↦
        rw (new, held_value, sale i.quantity i.price (well_sized i good) num)
          (length-erase-le (key_of i) w.positions)
    | inr (v, old) ↦ elim (Bool-cases (fl.le (fl.sub v (notional i)) nought)) [
      | inl e ↦ rw (old, held_value, e) (length-erase-le (key_of i) w.positions)
      | inr e ↦
          rw (old, held_value, e)
            (le_of_eq (length-insert_old (key_of i) (fl.sub v (notional i)) v w.positions old))
    ]
  ]

  room :
      (w : Working F) (i : Intent F)
      → buy_refusal g b floor w i ≡ none
      → is_held w.positions (key_of i) ≡ false
      → leb_ℤ g.limits.max_positions (pos (length w.positions)) ≡ false
  unfolding buy_refusal
  room w i free new = ground arith

  accept_buy-le :
      (w : Working F) (i : Intent F) (n : ℕ)
      → length w.positions ≤ n
      → g.limits.max_positions ≤ℤ pos n
      → buy_refusal g b floor w i ≡ none
      → length (accept_buy w i).positions ≤ n
  unfolding accept_buy
  accept_buy-le w i n h m free = elim (Option-cases (lookup (key_of i) w.positions)) [
    | inl new ↦
        let v = fl.add (held_value w.positions (key_of i)) (notional i) in
        let spare = room w i free (rw (new, is_held)) in
        below (length w.positions) g.limits.max_positions spare
          (length-insert-le (key_of i) v w.positions) m
    | inr (v, old) ↦
        let v' = fl.add (held_value w.positions (key_of i)) (notional i) in
        rw (length-insert_old (key_of i) v' v w.positions old) h
  ]
    where
      below :
          (k : ℕ) (limit : ℤ) {l : ℕ}
          → leb_ℤ limit (pos k) ≡ false
          → l ≤ k + 1
          → limit ≤ℤ pos n
          → l ≤ n
      below k limit spare le top = ground arith

  check_intent-le :
      (w : Working F) (i : Intent F) (n : ℕ)
      → SaleIsNotPositive F
      → fl.lt nought i.price ≡ true
      → g.limits.max_positions ≤ℤ pos n
      → length w.positions ≤ n
      → length (check_intent g b floor w i).positions ≤ n
  unfolding check_intent
  check_intent-le w i n sale num m h = elim (Bool-cases (is_malformed i)) [
    | inl bad ↦ rw bad h
    | inr good ↦ elim (Bool-cases (is_killed b)) [
      | inl dead ↦ rw (good, dead) h
      | inr alive ↦ elim (Bool-cases (is i.side Side.sell)) [
        | inl sells ↦ rw (good, alive, sells) (le_trans (accept_sell-le w i sale good num) h)
        | inr buys ↦ elim (Option-cases (buy_refusal g b floor w i)) [
          | inl free ↦ rw (good, alive, buys, free) (accept_buy-le w i n h m free)
          | inr (rule, hit) ↦ rw (good, alive, buys, hit) h
        ]
      ]
    ]
  ]

  -- Where every price of the batch is a number above 0, the working book of `Check` never holds more
  -- names than the larger of `MaxPositions` and the number of names that it held before.
  pub check_intents_capacity :
      (w : Working F) (intents : List (Intent F)) (n : ℕ)
      → SaleIsNotPositive F
      → All (λ i. fl.lt nought i.price ≡ true) intents
      → g.limits.max_positions ≤ℤ pos n
      → length w.positions ≤ n
      → length (check_intents g b floor w intents).positions ≤ n
  unfolding check_intents
  check_intents_capacity w [] n sale nums m h = h
  check_intents_capacity w (i ∷ rest) n sale (num, nums) m h =
      check_intents_capacity (check_intent g b floor w i) rest n sale nums m
        (check_intent-le w i n sale num m h)
