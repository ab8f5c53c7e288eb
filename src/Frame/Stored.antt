-- ===== src/Frame/Stored.antt =====
-- Storing a block number and recording its event, as both pallets do.
use polkadot_confidential_of.Base.{ℕ, ◌<◌, ◌≡◌, ◌∙◌, ap, some, [], ◌∷◌, ◌++◌}
use polkadot_confidential_of.Frame.{something_stored, Frame, FrameLaws}

module _ (f : Frame) (laws : FrameLaws f) where
  open f use {State, AccountId, get, put, deposit_event}

  abbrev pub after : ℕ → AccountId → State → State
  after bn who s = deposit_event (something_stored bn who) (put (record { block_number = bn }) s)

  pub after_lem :
      (bn : ℕ) (who : AccountId) (s : State)
      → 0 < laws.number s
      → (get (after bn who s) ≡ some (record { block_number = bn }))
        × (laws.events (after bn who s) ≡ laws.events s ++ something_stored bn who ∷ [])
  after_lem bn who s later =
      let stored = put (record { block_number = bn }) s in
      (
        laws.get_deposit (something_stored bn who) stored ∙ laws.get_put _ s,
        laws.events_deposit (something_stored bn who) stored (rw laws.number_put later)
            ∙ ap (λ es. es ++ something_stored bn who ∷ []) (laws.events_put _ s),
      )
