-- ===== src/Realtime/Hub/Examples.antt =====
-- Tests of the hub, and its theorems at concrete inputs.
use ai_cctv_platform.Common.{◌≡◌, ◌≢◌, refl, true, String, [], ◌∷◌, eq_iff, arith}
use ai_cctv_platform.Realtime.Hub.{Channels, subscribe, unsubscribe, publish_tenant_event}
use ai_cctv_platform.Realtime.Hub.Channels.{publish_tenant_event-subscribe_other}

abbrev org_a : String
org_a = "a"

abbrev org_b : String
org_b = "b"

different : org_a ≢ org_b
different = ground (arith, eq_iff org_a org_b)

abbrev two_channels : Channels
two_channels = (org_a, 1 ∷ 2 ∷ []) ∷ (org_b, 3 ∷ []) ∷ []

last_leaves : unsubscribe "b" 3 two_channels ≡ ("a", 1 ∷ 2 ∷ []) ∷ []
unfolding unsubscribe
last_leaves = refl

publish_tenant_event-subscribe_other_example :
    publish_tenant_event (λ s. true) org_b (subscribe org_a 4 two_channels)
    ≡ publish_tenant_event (λ s. true) org_b two_channels
publish_tenant_event-subscribe_other_example =
    publish_tenant_event-subscribe_other (λ s. true) org_a org_b 4 two_channels different
