-- ===== src/Gateway/Gossip/Tests.antt =====
-- Two fetches of one peer, and one of another (crates/gateway/src/gateway_sync.rs).
use watt_gateway.Prelude.{◌≡◌, refl, [], ◌∷◌, lookup, insert, delete, arith}
use watt_gateway.Gateway.Gossip.{Peers, try_admit_snapshot, drop_admission}
use watt_gateway.Gateway.Gossip.Pending.{
  Alive, one_more, one_less, Reached, start, admitted, dropped, IsCounted, pending_is_exact,
}

abbrev one : Peers
one = (try_admit_snapshot "a" []).0

abbrev two : Peers
two = (try_admit_snapshot "b" one).0

abbrev none_waits : Alive
none_waits = λ q. 0

abbrev alive_after : Alive
alive_after = one_less "a" (one_more "b" (one_more "a" none_waits))

entry_is_removed : drop_admission "a" two ≡ ("b", 1) ∷ []
unfolding try_admit_snapshot drop_admission lookup insert delete
entry_is_removed = refl

is_reached : Reached (drop_admission "a" two) alive_after
unfolding try_admit_snapshot lookup insert
is_reached =
    dropped "a" two (one_more "b" (one_more "a" none_waits))
      (admitted "b" one (one_more "a" none_waits) (admitted "a" [] none_waits start refl) refl)
      (omega arith)

pending_is_exact_example : IsCounted (drop_admission "a" two) alive_after "b"
pending_is_exact_example = pending_is_exact (drop_admission "a" two) alive_after "b" is_reached
