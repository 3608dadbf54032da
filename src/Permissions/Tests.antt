-- ===== src/Permissions/Tests.antt =====
-- A run of the validation of capabilities.
use woyengi.Base.{
  text, raise, range_error, ◌≡◌, refl, normalize_instant, text_discrete, compare_units,
}
use woyengi.Permissions.Capability.{define_capability}
use woyengi.Permissions.Engine.Tests.{root}
use woyengi.Samples.{plain_host}

refuses_empty_interval :
    define_capability (record root { valid_from = text "9Z" })
    ≡ raise range_error (text "capability expiry must be after validFrom")
unfolding define_capability normalize_instant text text_discrete compare_units
refuses_empty_interval = refl
