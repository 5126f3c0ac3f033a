-- ===== src/Cost/Depository.antt =====
-- The DP charge of a session: levied by `Day`, once for each distinct scrip sold.
use verdict_machine.Base.{
  ◌≡◌, refl, ◌∙◌, ◌⊎◌, inl, inr, List, [], ◌∷◌, Bool, true, false, ◌&&◌, ◌||◌, arith, any, length,
  All, sym, ◌++◌, Bool-cases,
}
use mathlib.Core.List.{append_assoc, append-nil}
use mathlib.Core.Path.{subst}
use verdict_machine.Base.Text.{Text, eqb_text, eqb_text_iff, less_text}
use verdict_machine.Base.Sort.{IsSorted, sort_by-IsSorted, contains, IsNodup}
use verdict_machine.Base.Distinct.{contains-sort_by, sort_by-IsNodup}
use verdict_machine.Base.Map.{Map, text_key, keys, IsMap, contains-keys-insert, insert-IsMap}
use verdict_machine.Float.{Float, nought, whole}
use verdict_machine.Time.{Time}
use verdict_machine.Cost.Product.{Product}
use verdict_machine.Cost.Side
use verdict_machine.Cost.Component
use verdict_machine.Cost.Component.{Component}
use verdict_machine.Cost.Model.{ok, ◌>>=◌, Trade, Charges, round2, >>=-eq-ok, ok-injective, is}
use verdict_machine.Cost.Schedule.{Rate, Schedule, rate_for}
use verdict_machine.Cost.Unverified.{less_text-IsOrder}
use verdict_machine.Cost.Trade.{price_trade}
use verdict_machine.Cost.Day.{
  DayCharges, Session, no_trades, same_day, book_trade, price_trades, levy_sold, price_day,
}

or_comm : (a b : Bool) → (a || b) ≡ (b || a)
or_comm a b = ground arith

or_false : (a : Bool) → a ≡ (a || false)
or_false a = ground arith

or_assoc : (a b c : Bool) → (a || b || c) ≡ (a || (b || c))
or_assoc a b c = ground arith

contains-head : (x : Text) (xs : List Text) → contains eqb_text (x ∷ xs) x ≡ true
unfolding contains
contains-head x xs = rw ((eqb_text_iff x x).1 refl) refl

module _ {F : Type 0} ⦃fl : Float F⦄ where
  -- Some trade of the session sells the scrip.
  abbrev pub is_sold : List (Trade F) → Text → Bool
  is_sold ts scrip = any (λ t. is t.side Side.sell && eqb_text t.scrip scrip) ts

  -- The charges are those of `Trade` for each of the trades, in their order.
  abbrev pub ArePriced : Schedule F → List (Trade F) → List (Charges F) → Type 0
  ArePriced s [] [] = Unit
  ArePriced s [] (c ∷ cs) = ⊥
  ArePriced s (t ∷ ts) [] = ⊥
  ArePriced s (t ∷ ts) (c ∷ cs) = (price_trade s t ≡ ok c) × ArePriced s ts cs

  -- The product of a sell that no other sell comes after.
  abbrev pub IsLastSold : Product → List (Trade F) → Type 0
  IsLastSold p [] = ⊥
  IsLastSold p (t ∷ ts) =
      IsLastSold p ts
      ⊎ ((p ≡ t.product) × (is t.side Side.sell ≡ true) × All (λ u. is u.side Side.sell ≡ false) ts)

  none_sold :
      (ts : List (Trade F)) (x : Text)
      → All (λ t. is t.side Side.sell ≡ false) ts
      → is_sold ts x ≡ false
  none_sold [] x h = refl
  none_sold (t ∷ ts) x (p, h) = rw (p, none_sold ts x h) refl

  last_sold :
      (p : Product) (ts : List (Trade F)) (x : Text)
      → is_sold ts x ≡ true
      → (IsLastSold p ts) ⊎ All (λ t. is t.side Side.sell ≡ false) ts
      → IsLastSold p ts
  last_sold p ts x sold (inl h) = h
  last_sold p ts x sold (inr h) = cc (none_sold ts x h)

  -- The loop's variables after some trades, from what they were before.
  record IsBooked (s : Schedule F) (on : Time) (st : Session F) (ts : List (Trade F))
      (st' : Session F) : Type 0 where
    one_day : All (λ t. same_day t.date on ≡ true) ts
    priced : (cs : List (Charges F)) × (st'.priced ≡ st.priced ++ cs) × ArePriced s ts cs
    product :
        IsLastSold st'.product ts
        ⊎ ((st'.product ≡ st.product) × All (λ t. is t.side Side.sell ≡ false) ts)
    distinct : IsMap st.sold → IsMap st'.sold
    sold_iff :
        (x : Text)
        → contains eqb_text (keys st'.sold) x ≡ (contains eqb_text (keys st.sold) x || is_sold ts x)

  book_trade-IsMap :
      (st : Session F) (t : Trade F) (c : Charges F)
      → IsMap st.sold
      → IsMap (book_trade st t c).sold
  unfolding book_trade
  book_trade-IsMap st t c h = elim (Bool-cases (is t.side Side.sell)) [
    | inl e ↦ rw e (insert-IsMap t.scrip true st.sold h)
    | inr e ↦ rw e h
  ]

  contains-book_trade :
      (st : Session F) (t : Trade F) (c : Charges F) (x : Text)
      → contains eqb_text (keys (book_trade st t c).sold) x
        ≡ (contains eqb_text (keys st.sold) x || (is t.side Side.sell && eqb_text t.scrip x))
  unfolding book_trade
  contains-book_trade st t c x = elim (Bool-cases (is t.side Side.sell)) [
    | inl e ↦ rw e (contains-keys-insert t.scrip true st.sold x ∙ or_comm (eqb_text t.scrip x) _)
    | inr e ↦ rw e (ground arith)
  ]

  book_trade-priced :
      (st : Session F) (t : Trade F) (c : Charges F) (cs : List (Charges F))
      → (book_trade st t c).priced ++ cs ≡ st.priced ++ (c ∷ cs)
  unfolding book_trade
  book_trade-priced st t c cs = append_assoc st.priced (c ∷ []) cs

  product-book_trade :
      (st : Session F) (t : Trade F) (c : Charges F) (ts : List (Trade F)) (p : Product)
      → (IsLastSold p ts)
        ⊎ ((p ≡ (book_trade st t c).product) × All (λ u. is u.side Side.sell ≡ false) ts)
      → (IsLastSold p (t ∷ ts))
        ⊎ ((p ≡ st.product) × All (λ u. is u.side Side.sell ≡ false) (t ∷ ts))
  unfolding book_trade
  product-book_trade st t c ts p (inl h) = inl (inl h)
  product-book_trade st t c ts p (inr (e, none)) = elim (Bool-cases (is t.side Side.sell)) [
    | inl q ↦ inl (inr (rw (q) at e, q, none))
    | inr q ↦ inr (rw (q) at e, (q, none))
  ]

  price_trades-IsBooked :
      (s : Schedule F) (on : Time) (st : Session F) (ts : List (Trade F)) (st' : Session F)
      → price_trades s on st ts ≡ ok st'
      → IsBooked s on st ts st'
  unfolding price_trades
  price_trades-IsBooked s on st [] st' h = rw (← ok-injective st st' h) (record {
    one_day = tt;
    priced = ([], sym (append-nil st.priced), tt);
    product = inr (refl, tt);
    distinct = λ d. d;
    sold_iff = λ x. or_false _;
  })
  price_trades-IsBooked s on st (t ∷ ts) st' h =
      let (c, paid, rest) = >>=-eq-ok (price_trade s t) _ st' (accepted h).1 in
      let ih = price_trades-IsBooked s on (book_trade st t c) ts st' rest in
      let (cs, e, each) = ih.priced in
      record {
        one_day = ((accepted h).0, ih.one_day);
        priced = (c ∷ cs, e ∙ book_trade-priced st t c cs, (paid, each));
        product = product-book_trade st t c ts st'.product ih.product;
        distinct = λ d. ih.distinct (book_trade-IsMap st t c d);
        sold_iff = λ x.
            rw (ih.sold_iff x, contains-book_trade st t c x)
              (or_assoc (contains eqb_text (keys st.sold) x)
                (is t.side Side.sell && eqb_text t.scrip x) (is_sold ts x));
      }
    where
      accepted :
          price_trades s on st (t ∷ ts) ≡ ok st'
          → (same_day t.date on ≡ true)
            × ((price_trade s t >>= λ c. price_trades s on (book_trade st t c) ts) ≡ ok st')
      accepted h = ground arith

  -- What `Day` promises of its result.
  pub record IsLevied (s : Schedule F) (on : Time) (ts : List (Trade F)) (d : DayCharges F)
      : Type 0 where
    pub one_day : All (λ t. same_day t.date on ≡ true) ts
    pub charges : ArePriced s ts d.trades
    pub sorted : IsSorted less_text d.dp_scrips
    pub distinct : IsNodup eqb_text d.dp_scrips
    pub scrips_iff : (x : Text) → contains eqb_text d.dp_scrips x ≡ is_sold ts x
    pub charge :
        ((d.dp_scrips ≡ []) × (d.dp_charge ≡ nought))
        ⊎ ((p : Product) × (r : Rate F) × IsLastSold p ts
            × (rate_for s Component.dp_charge p Side.sell on ≡ ok r)
            × (d.dp_charge ≡ round2 (fl.mul (whole (length d.dp_scrips)) r.value)))

  levy_sold-IsLevied :
      (s : Schedule F) (on : Time) (ts : List (Trade F)) (st : Session F) (sold : Map Text Bool)
      (d : DayCharges F)
      → All (λ t. same_day t.date on ≡ true) ts
      → ArePriced s ts st.priced
      → (IsLastSold st.product ts) ⊎ All (λ t. is t.side Side.sell ≡ false) ts
      → IsMap sold
      → ((x : Text) → contains eqb_text (keys sold) x ≡ is_sold ts x)
      → levy_sold s on st sold ≡ ok d
      → IsLevied s on ts d
  unfolding levy_sold contains
  levy_sold-IsLevied s on ts st [] d days each last m x_iff h = rw (← ok-injective _ d h) (record {
    one_day = days;
    charges = each;
    sorted = tt;
    distinct = tt;
    scrips_iff = x_iff;
    charge = inl (refl, refl);
  })
  levy_sold-IsLevied s on ts st (e ∷ rest) d days each last m x_iff h =
      let (r, found, p) =
        >>=-eq-ok (rate_for s Component.dp_charge st.product Side.sell on) _ d h in
      let scrips = keys (e ∷ rest) in
      rw (← ok-injective _ d p) (record {
        one_day = days;
        charges = each;
        sorted = sort_by-IsSorted less_text less_text-IsOrder scrips;
        distinct = sort_by-IsNodup eqb_text eqb_text_iff less_text scrips m;
        scrips_iff = λ x. contains-sort_by eqb_text less_text scrips x ∙ x_iff x;
        charge = inr (
          st.product,
          r,
          last_sold st.product ts e.0 (sym (x_iff e.0) ∙ contains-head e.0 (keys rest)) last,
          found,
          refl,
        );
      })

  -- When `Day` prices a session, every trade is of the session's date and is charged as `Trade` charges
  -- it, in the order of the trades; `DPScrips` are the scrips that some trade sells, each once and in
  -- order, however many trades sell it; and the DP charge is the rate in force for the product of the last
  -- sell times the number of those scrips, or nothing if none is sold.
  pub price_day-IsLevied :
      (s : Schedule F) (on : Time) (ts : List (Trade F)) (d : DayCharges F)
      → price_day s on ts ≡ ok d
      → IsLevied s on ts d
  unfolding price_day contains
  price_day-IsLevied s on ts d h =
      let (st, booked, p) = >>=-eq-ok (price_trades s on no_trades ts) _ d h in
      let b = price_trades-IsBooked s on no_trades ts st booked in
      let (cs, e, each) = b.priced in
      levy_sold-IsLevied s on ts st st.sold d b.one_day (subst (ArePriced s ts) (sym e) each)
        (elim b.product [ inl l ↦ inl l | inr (_, none) ↦ inr none ]) (b.distinct tt) b.sold_iff p
