-- ===== src/Access/Tests.antt =====
-- The permission table at concrete roles.
use voice_call.Base.{◌≡◌, refl, true, false, ◌&&◌, All, any}
use voice_call.Access.{Role, Permission, can}
use voice_call.Access.Laws.{configuration, operations, can-separate}

can-separate_example :
    All
      (λ p.
        All (λ q. (can Role.campaign_manager p && can Role.campaign_manager q) ≡ false) operations)
      configuration
can-separate_example = can-separate Role.campaign_manager

manager_resolves_reviews : can Role.operations_manager Permission.review_resolve ≡ true
unfolding can any
manager_resolves_reviews = refl
