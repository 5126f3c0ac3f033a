-- ===== src/Risk/Verdicts.antt =====
-- What the gate's verdicts rest on, and that it gives each intent exactly one.
use mathlib.Core.List.{Perm, perm_middle, perm_append_singleton}
use mathlib.Core.List.Perm
use mathlib.Core.List.{append_assoc, append-nil, map-append}
use verdict_machine.Base.{
  ◌≡◌, refl, ◌⊎◌, inl, inr, List, [], ◌∷◌, ◌++◌, map, none, some, true, false, if◌then◌else◌, arith,
  All, All-append, Bool-cases, Option-cases,
}
use verdict_machine.Base.Map.{text_key}
use verdict_machine.Float.{Float}
use verdict_machine.Time.{Time}
use verdict_machine.Cost.Side
use verdict_machine.Cost.Model.{is}
use verdict_machine.Risk.Rule
use verdict_machine.Risk.Rule.{Rule}
use verdict_machine.Risk.Model.{
  ok, >>=-eq-ok, ok-injective, Intent, Book, Rejection, Decision, Gate, notional,
}
use verdict_machine.Risk.Gate.{
  Working, is_malformed, is_killed, is_loss_breached, reject, accept_sell, accept_buy, buy_refusal,
  check_intent, check_intents, opening, floor_of, check,
}

module _ {F : Type 0} ⦃fl : Float F⦄ where
  abbrev pub intents_of : List (Rejection F) → List (Intent F)
  intents_of = map (λ r. r.intent)

  -- What holds of an accepted intent: it is well formed, the kill switch is off and, if it is no
  -- sell, the day's loss is inside the cap and its notional is not below the floor.
  pub record IsPermitted (g : Gate F) (b : Book F) (floor : F) (i : Intent F) : Type 0 where
    pub well_formed : is_malformed i ≡ false
    pub alive : is_killed b ≡ false
    pub within_loss : is i.side Side.sell ≡ false → is_loss_breached g b ≡ false
    pub above_floor : is i.side Side.sell ≡ false → fl.lt (notional i) floor ≡ false

  -- What holds of a rejected intent that sells: no cap refused it.
  abbrev pub IsStopped : Book F → Rejection F → Type 0
  IsStopped b r =
      is r.intent.side Side.sell ≡ true
      → ((r.rule ≡ Rule.malformed) × (is_malformed r.intent ≡ true))
        ⊎ ((r.rule ≡ Rule.kill_switch) × (is_killed b ≡ true))

  module _ (g : Gate F) (b : Book F) (floor : F) where
    abbrev IsJust : Working F → Type 0
    IsJust w = All (IsPermitted g b floor) w.accepted × All (IsStopped b) w.rejected

    -- The effect of a round on the two lists: the intent joins one of them.
    data Verdict (w : Working F) (i : Intent F) : Working F → Type 0 where
      allow :
          {w' : Working F}
          → IsPermitted g b floor i
          → w'.accepted ≡ w.accepted ++ (i ∷ [])
          → w'.rejected ≡ w.rejected
          → Verdict w i w'
      refuse :
          {w' : Working F} (rule : Rule)
          → IsStopped b (record { intent = i; rule = rule })
          → w'.accepted ≡ w.accepted
          → w'.rejected ≡ w.rejected ++ (record { intent = i; rule = rule } ∷ [])
          → Verdict w i w'

    buy_permitted :
        (w : Working F) (i : Intent F)
        → buy_refusal g b floor w i ≡ none
        → (is_loss_breached g b ≡ false) × (fl.lt (notional i) floor ≡ false)
    unfolding buy_refusal
    buy_permitted w i h = ground arith

    well_formed :
        (w : Working F) (i : Intent F)
        → is_malformed i ≡ false
        → is_killed b ≡ false
        → Verdict w i (
            if is i.side Side.sell then accept_sell w i else elim (buy_refusal g b floor w i) [
              | some rule ↦ reject w i rule
              | none ↦ accept_buy w i
            ])
    unfolding accept_sell accept_buy
    well_formed w i good alive = elim (Bool-cases (is i.side Side.sell)) [
      | inl e ↦ rw e (
          allow
            (record {
              well_formed = good;
              alive = alive;
              within_loss = λ ne. cc;
              above_floor = λ ne. cc;
            })
            refl refl)
      | inr e ↦ rw e (elim (Option-cases (buy_refusal g b floor w i)) [
        | inl free ↦ rw free (
            allow
              (record {
                well_formed = good;
                alive = alive;
                within_loss = λ _. (buy_permitted w i free).0;
                above_floor = λ _. (buy_permitted w i free).1;
              })
              refl refl)
        | inr (rule, hit) ↦ rw hit (refuse rule (λ sells. cc) refl refl)
      ])
    ]

    check_intent-Verdict : (w : Working F) (i : Intent F) → Verdict w i (check_intent g b floor w i)
    unfolding check_intent
    check_intent-Verdict w i = elim (Bool-cases (is_malformed i)) [
      | inl bad ↦ rw bad (refuse Rule.malformed (λ _. inl (refl, bad)) refl refl)
      | inr good ↦ elim (Bool-cases (is_killed b)) [
        | inl dead ↦ rw (good, dead) (refuse Rule.kill_switch (λ _. inr (refl, dead)) refl refl)
        | inr alive ↦ rw (good, alive) (well_formed w i good alive)
      ]
    ]

    Verdict-IsJust : {w w' : Working F} {i : Intent F} → Verdict w i w' → IsJust w → IsJust w'
    Verdict-IsJust {w} {i = i} (allow p ea er) (a, r) =
        (rw ea (All-append _ w.accepted (i ∷ []) a (p, tt)), rw er r)
    Verdict-IsJust {w} {i = i} (refuse rule p ea er) (a, r) = (
      rw ea a,
      rw er (All-append _ w.rejected (record { intent = i; rule = rule } ∷ []) r (p, tt)),
    )

    check_intents-IsJust :
        (w : Working F) (is : List (Intent F)) → IsJust w → IsJust (check_intents g b floor w is)
    unfolding check_intents
    check_intents-IsJust w [] h = h
    check_intents-IsJust w (i ∷ rest) h =
        check_intents-IsJust (check_intent g b floor w i) rest
          (Verdict-IsJust (check_intent-Verdict w i) h)

    -- All intents decided so far.
    abbrev decided : Working F → List (Intent F)
    decided w = w.accepted ++ intents_of w.rejected

    Verdict-perm :
        {w w' : Working F} {i : Intent F}
        → Verdict w i w'
        → Perm (decided w') (decided w ++ (i ∷ []))
    Verdict-perm {w} {i = i} (allow p ea er) =
        rw (ea, er, append_assoc)
          (Perm.trans (perm_middle w.accepted (intents_of w.rejected))
            (Perm.symm (perm_append_singleton i (decided w))))
    Verdict-perm {w} {i = i} (refuse rule p ea er) =
        rw (ea, er) (simp (map-append, append_assoc) (Perm.refl _))

    check_intents-perm :
        (w : Working F) (is : List (Intent F))
        → Perm (decided (check_intents g b floor w is)) (decided w ++ is)
    unfolding check_intents
    check_intents-perm w [] = rw append-nil (Perm.refl (decided w))
    check_intents-perm w (i ∷ rest) = rw (append_assoc (decided w) (i ∷ []) rest) at (
        Perm.trans (check_intents-perm (check_intent g b floor w i) rest)
          (Perm.append (Verdict-perm (check_intent-Verdict w i)) (Perm.refl rest)))

  check-inv :
      (g : Gate F) (on : Time) (b : Book F) (is : List (Intent F)) (d : Decision F)
      → check g on b is ≡ ok d
      → (floor : F) × (floor_of g on ≡ ok floor)
        × (d.min_notional ≡ floor)
        × (d.accepted ≡ (check_intents g b floor (opening b) is).accepted)
        × (d.rejected ≡ (check_intents g b floor (opening b) is).rejected)
  unfolding check
  check-inv g on b is d h =
      let (floor, found, p) = >>=-eq-ok (floor_of g on) _ d h in
      rw (← ok-injective _ d p) (floor, found, refl, refl, refl)

  -- Whenever `Check` returns a decision, each intent of the batch is accepted or rejected, and only
  -- once: the accepted intents and those of the rejections are a rearrangement of the batch.
  pub check-perm :
      (g : Gate F) (on : Time) (b : Book F) (is : List (Intent F)) (d : Decision F)
      → check g on b is ≡ ok d
      → Perm (d.accepted ++ intents_of d.rejected) is
  check-perm g on b is d h =
      let (floor, found, _, ea, er) = check-inv g on b is d h in
      rw (ea, er) (check_intents-perm g b floor (opening b) is)

  -- Whenever `Check` returns a decision, it rejects a sell only because the intent is malformed or the
  -- kill switch is on: no cap, floor or loss limit ever blocks a reduction.
  pub sells_pass :
      (g : Gate F) (on : Time) (b : Book F) (is : List (Intent F)) (d : Decision F)
      → check g on b is ≡ ok d
      → All (IsStopped b) d.rejected
  sells_pass g on b is d h =
      let (floor, found, _, ea, er) = check-inv g on b is d h in
      rw er (check_intents-IsJust g b floor (opening b) is (tt, tt)).1

  -- Whenever `Check` returns a decision, every accepted intent is well formed and the kill switch is
  -- off, and every accepted intent that is no sell has a notional that is not below the floor that the
  -- decision reports, with the day's loss inside its cap.
  pub accepted-IsPermitted :
      (g : Gate F) (on : Time) (b : Book F) (is : List (Intent F)) (d : Decision F)
      → check g on b is ≡ ok d
      → All (IsPermitted g b d.min_notional) d.accepted
  accepted-IsPermitted g on b is d h =
      let (floor, found, em, ea, er) = check-inv g on b is d h in
      rw (em, ea) (check_intents-IsJust g b floor (opening b) is (tt, tt)).0
