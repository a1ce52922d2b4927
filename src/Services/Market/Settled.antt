-- ===== src/Services/Market/Settled.antt =====
-- lib/services/operations.ts: `autoBookIfSettled`, and the markets that it acts on.
use volta_hackathon.Prelude.{
  String, Option, none, List, [], ◌∷◌, Bool, true, false, not, ◌&&◌, any, all, In, In-all,
  In-filter, In-filter_of, Result, ok, err, if◌then◌else◌, ◌≡◌, ◌⊎◌, inl, inr, refl, arith, sym,
  subst,
}
use volta_hackathon.Domain.Types.{CallAttempt, Carrier, Commitment, OperationSnapshot}
use volta_hackathon.Store.Environment.{Environment}
use volta_hackathon.Store.Mutation.{World, get_snapshot}
use volta_hackathon.Store.Mutation.Isolation.{Result-cases}
use volta_hackathon.Store.Session.{Session, Interference, answer, ◌>>=◌}
use volta_hackathon.Services.Operations.{Legs, standing_commitment}
use volta_hackathon.Services.Verification.{Channels}
use volta_hackathon.Services.Market.{
  is_booking, is_quote, is_failed, has_ended, quotes_of, booking_under_way, has_standing, settle,
  settle_if_ended, auto_book_if_settled,
}

-- No agreement stands, no booking call is under way, and there are quote calls, all of which ended.
pub record Settled (s : OperationSnapshot) : Type 0 where
  pub no_agreement : standing_commitment s.commitment ≡ none
  pub no_booking :
      (c : CallAttempt) → In c s.calls → is_booking c.mode ≡ true → is_failed c.status ≡ true
  pub quote : CallAttempt
  pub quoted : In quote s.calls × (is_quote quote.mode ≡ true)
  pub ended : (c : CallAttempt) → In c s.calls → is_quote c.mode ≡ true → has_ended c.status ≡ true

none_any :
    (p : CallAttempt → Bool) (xs : List CallAttempt) (c : CallAttempt)
    → any p xs ≡ false
    → In c xs
    → p c ≡ false
none_any p [] c h i = absurd i
none_any p (x ∷ xs) c h (inl e) = subst (λ y. p y ≡ false) (sym e) (ground arith)
none_any p (x ∷ xs) c h (inr i) = none_any p xs c (ground arith) i

module _ (env : Environment) (interference : Interference) (channels : Channels)
    (dial_voice_call : CallAttempt → Carrier → Result Legs) (live : Bool) where
  -- Nothing is done, or the market is settled.
  abbrev Acts : Session (Option OperationSnapshot) → OperationSnapshot → World → Type 0
  Acts m s w = (m w ≡ (ok none, w)) ⊎ Settled s

  no_standing :
      (c : Option Commitment)
      → has_standing env interference channels dial_voice_call live c ≡ false
      → standing_commitment c ≡ none
  no_standing c h = ground arith

  idle_unless :
      (b : Bool) (m : Session (Option OperationSnapshot)) (s : OperationSnapshot) (w : World)
      → (b ≡ false → Acts m s w)
      → Acts (if b then answer none else m) s w
  idle_unless true m s w f = inl refl
  idle_unless false m s w f = f refl

  act_when :
      (b : Bool) (m : Session (Option OperationSnapshot)) (s : OperationSnapshot) (w : World)
      → (b ≡ true → Acts m s w)
      → Acts (if b then m else answer none) s w
  act_when true m s w f = f refl
  act_when false m s w f = inl refl

  quotes-Acts :
      (operation_id : String) (s : OperationSnapshot) (w : World)
      → standing_commitment s.commitment ≡ none
      → booking_under_way s ≡ false
      → (qs : List CallAttempt) → quotes_of s ≡ qs
      → Acts
          (elim qs [
            | [] ↦ answer none
            | c ∷ calls ↦
                if all (λ q. has_ended q.status) (c ∷ calls)
                then settle env interference channels dial_voice_call live operation_id s
                else answer none
          ])
          s
          w
  quotes-Acts operation_id s w a b [] e = inl refl
  quotes-Acts operation_id s w a b (c ∷ calls) e =
      act_when (all (λ q. has_ended q.status) (c ∷ calls)) _ s w (λ h. inr (record {
        no_agreement = a;
        no_booking = λ x i m.
            let n = none_any (λ y. is_booking y.mode && not (is_failed y.status)) s.calls x b i in
            ground arith;
        quote = c;
        quoted =
            In-filter (λ y. is_quote y.mode) s.calls c (subst (λ qs. In c qs) (sym e) (inl refl));
        ended = λ x i q.
            In-all (λ y. has_ended y.status) (c ∷ calls) x h
              (subst (λ qs. In x qs) e (In-filter_of (λ y. is_quote y.mode) s.calls x i q));
      }))

  settle_if_ended-Acts :
      (operation_id : String) (s : OperationSnapshot) (w : World)
      → Acts (settle_if_ended env interference channels dial_voice_call live operation_id s) s w
  unfolding settle_if_ended
  settle_if_ended-Acts operation_id s w =
      idle_unless (has_standing env interference channels dial_voice_call live s.commitment) _ s w
        (λ a.
          idle_unless (booking_under_way s) _ s w
            (λ b. quotes-Acts operation_id s w (no_standing s.commitment a) b (quotes_of s) refl))

  -- `autoBookIfSettled` either does nothing at all, or the operation that it read has no standing
  -- agreement, no booking call that has not failed, and at least one quote call, and every quote call
  -- has completed or failed.
  pub auto_book_if_settled_acts :
      (operation_id : String) (w : World)
      → (auto_book_if_settled env interference channels dial_voice_call live operation_id w
          ≡ (ok none, w))
        ⊎ ((message : String) × (auto_book_if_settled env interference channels dial_voice_call live
                operation_id w
              ≡ (err message, w)))
        ⊎ ((s : OperationSnapshot) × (get_snapshot operation_id w ≡ ok s) × Settled s)
  unfolding auto_book_if_settled
  auto_book_if_settled_acts operation_id w = elim (Result-cases (get_snapshot operation_id w)) [
    | inr (message, e) ↦ inr (inl (message, rw (e, auto_book_if_settled, ◌>>=◌) refl))
    | inl (s, e) ↦ elim (settle_if_ended-Acts operation_id s w) [
      | inl idle ↦ inl (rw (e, auto_book_if_settled, ◌>>=◌) idle)
      | inr settled ↦ inr (inr (s, e, settled))
    ]
  ]
