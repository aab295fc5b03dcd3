-- ===== src/Realtime/Hub/Channels.antt =====
-- A message reaches the sockets of its own organization's channel.
use ai_cctv_platform.Common.{
  ℕ, ◌≡◌, ◌≢◌, refl, ap, ◌∙◌, Bool, false, String, some, List, [], ◌∷◌, ◌==◌, eq_iff, coalesce,
  filter, map_get, map_get-set, arith, if◌then◌else◌,
}
use ai_cctv_platform.Realtime.Hub.{
  Channels, has_socket, add_socket, without, subscribe, unsubscribe_all, publish_tenant_event,
}

differ-eq : (org other : String) → org ≢ other → (org == other) ≡ false
differ-eq org other apart = ground (arith, eq_iff org other)

-- A socket that joins one organization's channel changes no recipient of another's messages.
pub publish_tenant_event-subscribe_other :
    (is_open : ℕ → Bool) (org other : String) (socket : ℕ) (channels : Channels)
    → org ≢ other
    → publish_tenant_event is_open other (subscribe org socket channels)
      ≡ publish_tenant_event is_open other channels
unfolding publish_tenant_event subscribe
publish_tenant_event-subscribe_other is_open org other socket channels apart =
    ap (λ o. filter is_open (coalesce o []))
      (map_get-set channels org other _
        ∙ ap (λ b. if b then some joined else map_get channels other) (differ-eq org other apart))
  where
    joined : List ℕ
    joined = add_socket socket (coalesce (map_get channels org) [])

without-gone : (socket : ℕ) (sockets : List ℕ) → has_socket socket (without socket sockets) ≡ false
without-gone socket [] = refl
without-gone socket (s ∷ ss) = ground (arith, without-gone socket ss)

filter-absent :
    (p : ℕ → Bool) (socket : ℕ) (sockets : List ℕ)
    → has_socket socket sockets ≡ false
    → has_socket socket (filter p sockets) ≡ false
filter-absent p socket [] h = refl
filter-absent p socket (s ∷ ss) h = ground (arith, filter-absent p socket ss)

unsubscribe_all-gone :
    (socket : ℕ) (org : String) (channels : Channels)
    → has_socket socket (coalesce (map_get (unsubscribe_all socket channels) org) []) ≡ false
unfolding unsubscribe_all map_get
unsubscribe_all-gone socket org [] = refl
unsubscribe_all-gone socket org ((k, sockets) ∷ rest) =
    ground (arith, without-gone socket sockets, unsubscribe_all-gone socket org rest)

-- A socket that has left gets no organization's messages.
pub publish_tenant_event-unsubscribe_all :
    (is_open : ℕ → Bool) (org : String) (socket : ℕ) (channels : Channels)
    → has_socket socket (publish_tenant_event is_open org (unsubscribe_all socket channels)) ≡ false
unfolding publish_tenant_event
publish_tenant_event-unsubscribe_all is_open org socket channels =
    filter-absent is_open socket _ (unsubscribe_all-gone socket org channels)
