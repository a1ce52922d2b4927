-- ===== src/Store/Configuration/Identity.antt =====
-- What no configuration changes.
use volta_hackathon.Prelude.{
  String, Option, none, some, List, [], ◌∷◌, map, ◌≡◌, refl, ap, ◌∙◌, arith, eq_iff, Option-cases,
  inl, inr, ok,
}
use volta_hackathon.Domain.Types.{Carrier, OperationSnapshot}
use volta_hackathon.Store.Environment.{Environment}
use volta_hackathon.Store.Action.{Draft}
use volta_hackathon.Store.Ledger.{write_event}
use volta_hackathon.Store.Configuration.{
  CarrierPatch, ConfigurationInput, update_of, patched_carrier, patched_carriers, patched_mandate,
  patched_operation, update_configuration,
}

update_of-id :
    (id : String) (patches : List CarrierPatch) (p : CarrierPatch)
    → update_of id patches ≡ some p
    → p.id ≡ id
unfolding update_of
update_of-id id [] p h = absurd (ground arith)
update_of-id id (patch ∷ patches) p h =
    ground (arith, eq_iff patch.id id, update_of-id id patches p)

same_id :
    (operation_id : String) (patches : List CarrierPatch) (c : Carrier)
    → (patched_carrier operation_id (update_of c.id patches) c).id ≡ c.id
unfolding patched_carrier
same_id operation_id patches c = elim (Option-cases (update_of c.id patches)) [
  | inl e ↦ rw (e, patched_carrier) refl
  | inr (p, e) ↦ rw (e, patched_carrier) (update_of-id c.id patches p e)
]

same_ids :
    (operation_id : String) (patches : List CarrierPatch) (carriers : List Carrier)
    → map
        (λ (c : Carrier). c.id)
        (map (λ c. patched_carrier operation_id (update_of c.id patches) c) carriers)
      ≡ map (λ (c : Carrier). c.id) carriers
same_ids operation_id patches [] = refl
same_ids operation_id patches (c ∷ carriers) =
    ap
      (λ x.
        x
        ∷ map (λ (c : Carrier). c.id)
            (map (λ c. patched_carrier operation_id (update_of c.id patches) c) carriers))
      (same_id operation_id patches c)
    ∙ ap (λ xs. c.id ∷ xs) (same_ids operation_id patches carriers)

patched-ids :
    (operation_id : String) (patches : Option (List CarrierPatch)) (carriers : List Carrier)
    → map (λ (c : Carrier). c.id) (patched_carriers operation_id patches carriers)
      ≡ map (λ (c : Carrier). c.id) carriers
patched-ids operation_id none carriers = refl
patched-ids operation_id (some patches) carriers = same_ids operation_id patches carriers

module _ (env : Environment) where
  returned :
      (operation_id : String) (input : ConfigurationInput) (d : Draft) (s : OperationSnapshot)
      → (update_configuration env operation_id input d).0 ≡ ok s
      → ((update_configuration env operation_id input d).1.snapshot.carriers
          ≡ patched_carriers operation_id input.carriers d.snapshot.carriers)
        × ((update_configuration env operation_id input d).1.snapshot.operation.id
            ≡ d.snapshot.operation.id)
        × ((update_configuration env operation_id input d).1.snapshot.mandate.operation_id
            ≡ operation_id)
        × ((update_configuration env operation_id input d).1.snapshot.offers ≡ d.snapshot.offers)
        × ((update_configuration env operation_id input d).1.snapshot.commitment
            ≡ d.snapshot.commitment)
  unfolding update_configuration write_event patched_operation patched_mandate
  returned operation_id input d s h = ground arith

  -- A configuration that is accepted keeps the operation's id, the ids of the carriers in their order,
  -- the offers and the commitment, whatever ids the input carries, and its mandate is the operation's
  -- own.
  pub update_configuration_identity :
      (operation_id : String) (input : ConfigurationInput) (d : Draft) (s : OperationSnapshot)
      → (update_configuration env operation_id input d).0 ≡ ok s
      → (map
            (λ (c : Carrier). c.id)
            (update_configuration env operation_id input d).1.snapshot.carriers
          ≡ map (λ (c : Carrier). c.id) d.snapshot.carriers)
        × ((update_configuration env operation_id input d).1.snapshot.operation.id
            ≡ d.snapshot.operation.id)
        × ((update_configuration env operation_id input d).1.snapshot.mandate.operation_id
            ≡ operation_id)
        × ((update_configuration env operation_id input d).1.snapshot.offers ≡ d.snapshot.offers)
        × ((update_configuration env operation_id input d).1.snapshot.commitment
            ≡ d.snapshot.commitment)
  update_configuration_identity operation_id input d s h =
      let (carriers, id, mandate, offers, commitment) = returned operation_id input d s h in
      (
        ap (map (λ (c : Carrier). c.id)) carriers
            ∙ patched-ids operation_id input.carriers d.snapshot.carriers,
        id,
        mandate,
        offers,
        commitment,
      )
