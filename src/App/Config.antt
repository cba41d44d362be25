-- ===== src/App/Config.antt =====
-- src/config.c: the settings in the non-volatile storage.
pub mod Laws
use ledger_app.Base.{ℕ, Bool, ◌==◌, if◌then◌else◌}

-- `internalStorage_t`; the fields are bytes.
pub record InternalStorage : Type 0 where
  pub unknown_action_allowed : ℕ
  pub verbose : ℕ
  pub initialized : ℕ

unfoldable pub config_init : InternalStorage → InternalStorage
config_init s =
    if s.initialized == 1
    then s
    else record { unknown_action_allowed = 0; verbose = 0; initialized = 1 }

unfoldable pub is_unknown_action_allowed : InternalStorage → Bool
is_unknown_action_allowed s = s.unknown_action_allowed == 1

unfoldable pub toogle_unknown_action_allowed : InternalStorage → InternalStorage
toogle_unknown_action_allowed s = record s {
  unknown_action_allowed = if is_unknown_action_allowed s then 0 else 1;
}

unfoldable pub is_verbose : InternalStorage → Bool
is_verbose s = s.verbose == 1

pub toogle_verbose_config : InternalStorage → InternalStorage
toogle_verbose_config s = record s { verbose = if is_verbose s then 0 else 1 }
