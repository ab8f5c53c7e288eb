-- ===== src/Runtime/Collators/Tests.antt =====
-- Two ends of sessions, and a message of the staking admin.
use polkadot_confidential_of.Base.{
  ℕ, ◌+◌, ◌-◌, ◌*◌, ◌≤◌, ◌<◌, ◌≡◌, ◌↔◌, refl, true, some, [], ◌∷◌, arith,
}
use polkadot_confidential_of.Runtime.{milli_secs_per_block}
use polkadot_confidential_of.Runtime.Xcm.{
  defense, plurality, Location, xcm_kind, xcm, to_dispatch_origin, location_to_account_id,
}
use polkadot_confidential_of.Runtime.Xcm.Memory.{
  numbers, plain_converters, plain_converters-ConverterLaws,
}
use polkadot_confidential_of.Runtime.Collators.{
  should_end_session, is_lazy_candidate, may_update_collators,
}
use polkadot_confidential_of.Runtime.Collators.Sessions.{sessions_lem}
use polkadot_confidential_of.Runtime.Collators.Updates.{message-may_update_collators}
use polkadot_confidential_of.Runtime.Collators.Memory.{
  plain_sessions, plain_sessions-SessionLaws, plain_checks, plain_checks-CheckLaws,
}

ends_at :
    (should_end_session plain_sessions 3600 ≡ true)
    × (should_end_session plain_sessions 7200 ≡ true)
unfolding should_end_session
ends_at = (refl, refl)

no_end_between : (n : ℕ) → 3600 < n → n < 7200 → should_end_session plain_sessions n ≡ true → ⊥
unfolding should_end_session
no_end_between n lo hi h = ground arith

sessions_lem_example :
    (7200 ≡ 3600 + 3600)
    × ((7200 - 3600) * milli_secs_per_block ≡ 6 * 60 * 60 * 1000)
    × ((is_lazy_candidate plain_sessions 7200 3599 ≡ true) ↔ (3599 ≤ 3600))
sessions_lem_example =
    sessions_lem plain_sessions plain_sessions-SessionLaws 3600 7200 3599 ends_at.0 ends_at.1
      (omega arith) no_end_between

abbrev staking_admin : Location numbers
staking_admin = record { parents = 1; interior = plurality defense 0 ∷ [] }

admin_converted :
    to_dispatch_origin numbers plain_converters staking_admin xcm_kind ≡ some (xcm staking_admin)
unfolding to_dispatch_origin location_to_account_id
admin_converted = refl

admin_accepted : may_update_collators numbers plain_checks (xcm staking_admin) ≡ true
unfolding may_update_collators
admin_accepted = refl

message-may_update_collators_example : (xcm_kind ≡ xcm_kind) × (staking_admin ≡ staking_admin)
message-may_update_collators_example =
    message-may_update_collators numbers plain_checks plain_checks-CheckLaws plain_converters
      plain_converters-ConverterLaws staking_admin xcm_kind (xcm staking_admin) admin_converted
      admin_accepted
