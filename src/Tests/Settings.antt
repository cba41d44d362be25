-- ===== src/Tests/Settings.antt =====
-- The settings' functions on small storages.
use ledger_app.Base.{◌≡◌, refl, false, not}
use ledger_app.App.Config.{
  InternalStorage, config_init, is_unknown_action_allowed, toogle_unknown_action_allowed,
  is_verbose, toogle_verbose_config,
}
use ledger_app.App.Config.Laws.{toogle_independent, config_init_first}

abbrev used : InternalStorage
used = record { unknown_action_allowed = 1; verbose = 0; initialized = 1 }

abbrev erased : InternalStorage
erased = record { unknown_action_allowed = 255; verbose = 255; initialized = 255 }

toogle_independent_example :
    (is_unknown_action_allowed (toogle_unknown_action_allowed used)
      ≡ not (is_unknown_action_allowed used))
    × (is_verbose (toogle_unknown_action_allowed used) ≡ is_verbose used)
    × (config_init (toogle_unknown_action_allowed used) ≡ toogle_unknown_action_allowed used)
    × (is_verbose (toogle_verbose_config used) ≡ not (is_verbose used))
    × (is_unknown_action_allowed (toogle_verbose_config used) ≡ is_unknown_action_allowed used)
    × (config_init (toogle_verbose_config used) ≡ toogle_verbose_config used)
toogle_independent_example = toogle_independent used refl

erased_reset :
    (is_unknown_action_allowed (config_init erased) ≡ false)
    × (is_verbose (config_init erased) ≡ false)
    × (config_init (config_init erased) ≡ config_init erased)
erased_reset = config_init_first erased refl
