-- ===== src/App/Config/Laws.antt =====
-- What the settings' functions keep and change.
use ledger_app.Base.{◌≡◌, not, arith, false, ◌==◌}
use ledger_app.App.Config.{
  InternalStorage, config_init, is_unknown_action_allowed, toogle_unknown_action_allowed,
  is_verbose, toogle_verbose_config,
}

-- In a storage that is initialised a setting is toggled by its function and kept by the other's;
-- neither resets the storage, so that `config_init` leaves it.
pub toogle_independent :
    (s : InternalStorage)
    → s.initialized ≡ 1
    → let u = toogle_unknown_action_allowed s in
      let v = toogle_verbose_config s in
      (is_unknown_action_allowed u ≡ not (is_unknown_action_allowed s))
      × (is_verbose u ≡ is_verbose s)
      × (config_init u ≡ u)
      × (is_verbose v ≡ not (is_verbose s))
      × (is_unknown_action_allowed v ≡ is_unknown_action_allowed s)
      × (config_init v ≡ v)
unfolding config_init is_unknown_action_allowed is_verbose toogle_unknown_action_allowed
    toogle_verbose_config
toogle_independent s h = ground arith

-- A start with a storage that is not initialised turns both settings off, and a second start
-- changes nothing.
pub config_init_first :
    (s : InternalStorage)
    → (s.initialized == 1) ≡ false
    → (is_unknown_action_allowed (config_init s) ≡ false)
      × (is_verbose (config_init s) ≡ false)
      × (config_init (config_init s) ≡ config_init s)
unfolding config_init is_unknown_action_allowed is_verbose
config_init_first s h = ground arith
