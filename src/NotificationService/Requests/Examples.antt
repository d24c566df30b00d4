-- ===== src/NotificationService/Requests/Examples.antt =====
-- A concrete request of a user, on a route that requires a permission.
use backend_core_platform.Common.Errors.{ok}
use backend_core_platform.Common.Permission.Examples.{
  hashes, texts, nothing_cached, guarded, reply, join,
}
use backend_core_platform.Common.Tokens.Examples.{config, decode, verifies, shown}
use backend_core_platform.NotificationService.Requests.{authorize}
use backend_core_platform.NotificationService.Requests.Passing.{Passes, authorize_iff}
use backend_core_platform.Base.{◌≡◌, refl, ◌↔◌, true, some}

authorize_iff_example :
    ((authorize decode verifies shown config hashes texts
        (λ s. 0)
        join
        guarded
        (some "t")
        reply
        nothing_cached).1
      ≡ ok true)
    ↔ Passes decode verifies shown config hashes texts
        (λ s. 0)
        join
        reply
        nothing_cached
        guarded.required_permissions
        (some "t")
authorize_iff_example =
    authorize_iff decode verifies shown config hashes texts (λ s. 0) join reply nothing_cached
      guarded refl refl (some "t")
