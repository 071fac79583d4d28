-- ===== src/Template.antt =====
-- The template pallet, pallets/template/src/lib.rs.
pub mod Weights
pub mod Counter
use ghost_blockchain.Base.{ℕ, Option, none, some, List, [], ◌∷◌, ◌++◌, checked_add_u32}
use ghost_blockchain.Types.{Origin}

-- `enum Event`
pub data TemplateEvent : Type 0 where
  something_stored : (something who : ℕ) → TemplateEvent

-- `enum Error`, with the bad origin.
pub data TemplateError : Type 0 where
  none_value storage_overflow bad_origin : TemplateError

pub data TemplateResult : Type 0 where
  succeeded : TemplateResult
  failed : TemplateError → TemplateResult

-- The storage item `Something`, and the events.
pub record TemplateState : Type 0 where
  pub something : Option ℕ
  pub events : List TemplateEvent

unfoldable pub do_something :
    Origin → (something : ℕ) → TemplateState → TemplateResult × TemplateState
do_something Origin.root something s = (failed bad_origin, s)
do_something Origin.none_origin something s = (failed bad_origin, s)
do_something (Origin.signed who) something s = (
  succeeded,
  record { something = some something; events = s.events ++ something_stored something who ∷ [] },
)

-- `checked_add(1).ok_or(StorageOverflow)?` and the write.
unfoldable pub increment : Option ℕ → TemplateState → TemplateResult × TemplateState
increment none s = (failed storage_overflow, s)
increment (some new) s = (succeeded, record s { something = some new })

-- The `match` on the stored value.
unfoldable pub cause_error_at : Option ℕ → TemplateState → TemplateResult × TemplateState
unfolding increment
cause_error_at none s = (failed none_value, s)
cause_error_at (some old) s = increment (checked_add_u32 old 1) s

unfoldable pub cause_error : Origin → TemplateState → TemplateResult × TemplateState
unfolding cause_error_at
cause_error Origin.root s = (failed bad_origin, s)
cause_error Origin.none_origin s = (failed bad_origin, s)
cause_error (Origin.signed who) s = cause_error_at s.something s
