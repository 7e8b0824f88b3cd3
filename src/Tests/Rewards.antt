-- ===== src/Tests/Rewards.antt =====
-- Reward pools at concrete inputs (src/economy/RewardPool.ts).
use synpeer.Prelude.{◌≤◌, List, [], ◌∷◌, some, ◌≡◌, refl}
use synpeer.Dict.{get, put}
use synpeer.Ledger.{RewardCategory}
use synpeer.Rewards.{
  default_pools, make, allocate_reward, share_out, real_peer, get_peer_allocation, set_at,
}
use synpeer.Rewards.Shares.{
  Call, do_allocate, do_disable, do_reset_daily, perform, perform_all, pools_hold,
}

abbrev calls : List Call
calls =
    do_allocate RewardCategory.community 30 (some "a")
    ∷ do_allocate RewardCategory.community 21 (some "a")
    ∷ do_disable RewardCategory.storage
    ∷ do_reset_daily
    ∷ do_allocate RewardCategory.community 20 (some "a")
    ∷ []

-- The second allocation is above the limit of a peer.
shared_fifty :
    get_peer_allocation (perform_all (make default_pools) calls) "a" RewardCategory.community ≡ 50
unfolding perform_all perform make default_pools allocate_reward share_out real_peer
    get_peer_allocation set_at get put
shared_fifty = refl

pools_hold_example :
    ((perform_all (make default_pools) calls).daily RewardCategory.community
      ≤ (default_pools RewardCategory.community).daily_limit)
    × (get_peer_allocation (perform_all (make default_pools) calls) "a" RewardCategory.community
        ≤ (default_pools RewardCategory.community).per_peer_limit)
pools_hold_example = pools_hold default_pools calls RewardCategory.community "a"
