-- ===== src/Realtime/Hub.antt =====
-- server/src/realtime/hub.ts: the sockets of each organization's channel. A socket is a number;
-- `is_open` says whether its readyState is OPEN.
pub mod Channels
mod Examples
use ai_cctv_platform.Common.{
  ℕ, Bool, true, false, ◌&&◌, ◌||◌, not, String, Option, some, none, List, [], ◌∷◌, ◌++◌, ◌==◌, eqb,
  coalesce, filter, any, map_get, map_set, map_delete, if◌then◌else◌,
}

abbrev pub Channels : Type 0
Channels = List (String × List ℕ)

abbrev pub has_socket : ℕ → List ℕ → Bool
has_socket socket sockets = any (λ s. eqb s socket) sockets

abbrev pub is_empty : List ℕ → Bool
is_empty [] = true
is_empty (s ∷ ss) = false

-- `set.add`, and what `set.delete` leaves.
abbrev pub add_socket : ℕ → List ℕ → List ℕ
add_socket socket sockets = if has_socket socket sockets then sockets else sockets ++ socket ∷ []

abbrev pub without : ℕ → List ℕ → List ℕ
without socket sockets = filter (λ s. not (eqb s socket)) sockets

unfoldable pub subscribe : String → ℕ → Channels → Channels
unfolding map_get map_set
subscribe org socket channels =
    map_set channels org (add_socket socket (coalesce (map_get channels org) []))

abbrev pub leave : String → ℕ → Option (List ℕ) → Channels → Channels
leave org socket none channels = channels
leave org socket (some sockets) channels =
    let left = without socket sockets in
    if is_empty left then map_delete (λ k. k == org) channels else map_set channels org left

unfoldable pub unsubscribe : String → ℕ → Channels → Channels
unfolding map_get map_set map_delete
unsubscribe org socket channels = leave org socket (map_get channels org) channels

unfoldable pub unsubscribe_all : ℕ → Channels → Channels
unsubscribe_all socket [] = []
unsubscribe_all socket ((org, sockets) ∷ rest) =
    let others = unsubscribe_all socket rest in
    let left = without socket sockets in
    if has_socket socket sockets && is_empty left then others else (org, left) ∷ others

-- The sockets that a message to the organization is sent to.
unfoldable pub publish_tenant_event : (ℕ → Bool) → String → Channels → List ℕ
unfolding map_get
publish_tenant_event is_open org channels = filter is_open (coalesce (map_get channels org) [])
