-- ===== src/Examples/Market.antt =====
-- Runs of the policy and of the confirmation rules.
use volta_hackathon.Prelude.{
  true, false, some, [], ◌∷◌, inl, inr, ◌≡◌, ◌↔◌, ◌⊎◌, ◌≤◌, ◌≢◌, refl, ok, In,
}
use volta_hackathon.Prelude.Sort.{sort}
use volta_hackathon.Domain.Types.{Carrier, Offer, OperationSnapshot}
use volta_hackathon.Domain.Seed.{seed_operation, seed_mandate}
use volta_hackathon.Domain.Policy.{
  evaluate_offer, latest_offers, winner, assert_offer_bookable, may_close_on_quote,
}
use volta_hackathon.Domain.Policy.Eligibility.{WithinMandate, eligible_iff}
use volta_hackathon.Domain.Policy.Ranking.{
  IsLatest, IsStanding, Wins, latest_offers-IsLatest, winner-Wins, winner-none,
}
use volta_hackathon.Domain.Policy.Booking.{Answered, assert_offer_bookable_iff, may_close_sound}
use volta_hackathon.Examples.{runtime, market, rutapac_offer, better_terms, two_ids}

eligible_example :
    ((evaluate_offer seed_operation seed_mandate better_terms 2).eligible ≡ true)
    ↔ WithinMandate seed_operation seed_mandate better_terms 2
eligible_example = eligible_iff seed_operation seed_mandate better_terms 2

latest_offers_example : IsLatest market.offers (latest_offers market.offers)
latest_offers_example = latest_offers-IsLatest market.offers

winner_example : Wins runtime.locale_compare market rutapac_offer
unfolding winner sort
winner_example = winner-Wins runtime.locale_compare market rutapac_offer refl

abbrev blocked_offer : Offer
blocked_offer = record rutapac_offer { eligible = false }

abbrev blocked_market : OperationSnapshot
blocked_market = record market { offers = blocked_offer ∷ [] }

blocked_offer-IsStanding : IsStanding blocked_market.offers blocked_offer
blocked_offer-IsStanding = record {
  listed = inl refl;
  live = refl;
  newest = λ p i live same. elim i [ inl e ↦ inl e | inr none_left ↦ absurd none_left ];
}

no_winner_example : blocked_offer.eligible ≡ false
unfolding winner sort
no_winner_example =
    winner-none runtime.locale_compare blocked_market refl blocked_offer blocked_offer-IsStanding

bookable_example :
    (assert_offer_bookable runtime.locale_compare market "offer-rutapac" ≡ ok rutapac_offer)
    ↔ (winner runtime.locale_compare market ≡ some rutapac_offer)
bookable_example = assert_offer_bookable_iff runtime.locale_compare market rutapac_offer two_ids

may_close_example :
    (o : Offer) × (o.id ≡ "offer-rutapac")
    × (winner runtime.locale_compare market ≡ some o)
    × ((o.amount ≤ 8500)
        ⊎ ((carrier : Carrier)
            → In carrier market.carriers
            → carrier.id ≢ o.carrier_id
            → Answered runtime.locale_compare market carrier))
unfolding may_close_on_quote winner sort
may_close_example = may_close_sound runtime.locale_compare market "offer-rutapac" two_ids refl
