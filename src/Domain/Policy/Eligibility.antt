-- ===== src/Domain/Policy/Eligibility.antt =====
-- What an eligible offer satisfies: the limits of the mandate, stated apart from the code.
use volta_hackathon.Prelude.{
  ℕ, ◌+◌, ◌≤◌, ◌<◌, String, ◌≡◌, ◌≢◌, ◌↔◌, ◌⊎◌, refl, Bool, true, false, ◌&&◌, ◌||◌, List, [], ◌∷◌,
  ◌++◌, arith, eq_iff, ◌==◌, if◌then◌else◌,
}
use volta_hackathon.Prelude.Text.{text_lt, includes}
use volta_hackathon.Domain.Types.{Operation, Mandate, OfferInput}
use volta_hackathon.Domain.Policy.{counter_budget, condition_count, flag, evaluate_offer}

-- The limits of the briefing, for one offer at one revision.
pub record WithinMandate (op : Operation) (m : Mandate) (o : OfferInput) (revision : ℕ)
    : Type 0 where
  pub counters : revision ≤ counter_budget m + 1
  pub currency : o.currency ≡ m.currency
  pub rate : o.amount ≤ m.maximum_rate
  pub day : o.pickup_date ≡ op.pickup_date
  pub not_early : text_lt o.pickup_time op.pickup_window_start ≡ false
  pub not_late : text_lt op.pickup_window_end o.pickup_time ≡ false
  pub accessorials : (m.accept_accessorials ≡ true) ⊎ (condition_count o ≡ 0)

includes-append :
    (xs ys : List String) (c : String) → includes (xs ++ ys) c ≡ (includes xs c || includes ys c)
includes-append [] ys c = refl
includes-append (x ∷ xs) ys c = ground (arith, includes-append xs ys c)

includes-flag : (b : Bool) (x c : String) → includes (flag b x) c ≡ (b && x == c)
includes-flag true x c = ground arith
includes-flag false x c = refl

eq-if : (b : Bool) (x y c : String) → ((if b then x else y) == c) ≡ (if b then x == c else y == c)
eq-if true x y c = refl
eq-if false x y c = refl

module _ (op : Operation) (m : Mandate) (o : OfferInput) (revision : ℕ) where
  eligible-WithinMandate :
      (evaluate_offer op m o revision).eligible ≡ true → WithinMandate op m o revision
  unfolding evaluate_offer
  eligible-WithinMandate h =
      ground (arith, eq_iff o.currency m.currency, eq_iff o.pickup_date op.pickup_date)

  WithinMandate-eligible :
      WithinMandate op m o revision → (evaluate_offer op m o revision).eligible ≡ true
  unfolding evaluate_offer
  WithinMandate-eligible w =
      ground (arith, eq_iff o.currency m.currency, eq_iff o.pickup_date op.pickup_date)

  -- An offer is eligible exactly when it lies within every limit of the mandate: the counter
  -- budget, the currency, the maximum rate, the pickup day, the pickup window at both ends, and the
  -- accessorial conditions.
  pub eligible_iff :
      ((evaluate_offer op m o revision).eligible ≡ true) ↔ WithinMandate op m o revision
  eligible_iff = (eligible-WithinMandate, WithinMandate-eligible)

  abbrev reported : String → Bool
  reported = includes (evaluate_offer op m o revision).violations

  -- The codes for the counter-offers: the limit counts where the rate may be negotiated, and where it
  -- may not, any revision past the first is reported.
  counter_codes_iff :
      ((reported "counter_limit_exhausted" ≡ true)
        ↔ ((m.negotiate_rate ≡ true) × (m.maximum_counters + 1 < revision)))
      × ((reported "rate_negotiation_not_authorized" ≡ true)
          ↔ ((m.negotiate_rate ≡ false) × (1 < revision)))
  unfolding evaluate_offer
  counter_codes_iff =
      simp (includes-append, includes-flag, eq-if)
        (ground (arith, eq_iff o.currency m.currency, eq_iff o.pickup_date op.pickup_date))

  -- Each code for a term is reported exactly when the offer breaks that term.
  pub term_codes_iff :
      ((reported "currency_mismatch" ≡ true) ↔ (o.currency ≢ m.currency))
      × ((reported "rate_above_mandate" ≡ true) ↔ (m.maximum_rate < o.amount))
      × ((reported "pickup_day_outside_mandate" ≡ true) ↔ (o.pickup_date ≢ op.pickup_date))
      × ((reported "pickup_time_outside_window" ≡ true) ↔ (
          (text_lt o.pickup_time op.pickup_window_start ≡ true)
          ⊎ (text_lt op.pickup_window_end o.pickup_time ≡ true)))
      × ((reported "unsupported_accessorial" ≡ true)
          ↔ ((m.accept_accessorials ≡ false) × (0 < condition_count o)))
  unfolding evaluate_offer
  term_codes_iff =
      simp (includes-append, includes-flag, eq-if)
        (ground (arith, eq_iff o.currency m.currency, eq_iff o.pickup_date op.pickup_date))
