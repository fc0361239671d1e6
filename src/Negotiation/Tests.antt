-- ===== src/Negotiation/Tests.antt =====
-- shared/agent/negotiation.py: an auction with two bids, and the contract that comes out of it.
use rg_agent_engine.Base.{◌≡◌, refl, true, false, some, none, [], ◌∷◌, Key, map, ◌+◌}
use rg_agent_engine.Base.Int.{pos, finite}
use rg_agent_engine.Base.Dict.{get, put}
use rg_agent_engine.Autonomy.{
  AutonomyModeManager, governed, default_unbounded, default_governed, new_manager, get_mode,
}
use rg_agent_engine.Wallet.Types.{AgentWallet}
use rg_agent_engine.Wallet.State.{AgentWalletSystem, Env, empty_system}
use rg_agent_engine.Wallet.Manage.{create_wallet, new_wallet, get_wallet_by_agent}
use rg_agent_engine.Wallet.Invariant.{IsWellFormed}
use rg_agent_engine.Wallet.Reach.{creates, Reach-IsWellFormed}
use rg_agent_engine.Wallet.Reach.{here as Wallet_here, next as Wallet_next}
use rg_agent_engine.Negotiation.Types.{
  Bid, Negotiation, AgentContract, NegotiationEngine, new_engine, task_bid, bidding,
}
use rg_agent_engine.Negotiation.Auction.{
  create_task_auction, submit_bid, index_negotiation, add_to_all, bid_refused, new_negotiation,
  new_bid,
}
use rg_agent_engine.Negotiation.Award.{AcceptEnv, accept_bid, new_contract}
use rg_agent_engine.Negotiation.Contract.{complete_duty}
use rg_agent_engine.Negotiation.Accept.{IsAcceptable}
use rg_agent_engine.Negotiation.Approval.{AreGated}
use rg_agent_engine.Negotiation.Gated.{Reach-AreGated}
use rg_agent_engine.Negotiation.Bids.{HavePlaces}
use rg_agent_engine.Negotiation.Invited.{Reach-HavePlaces}
use rg_agent_engine.Negotiation.Payment.{IsPayable, owes_penalty}
use rg_agent_engine.Negotiation.Reach.{Reach, here, next, auctions, submits, accepts}

abbrev manager : AutonomyModeManager
manager = new_manager governed default_unbounded default_governed

abbrev wallet_env : Env
wallet_env = record {
  manager = manager;
  approval_callback = none;
  now = 1000;
  today = 10;
  this_month = 1;
}

-- The wallet 1 of the agent 8, who will do the task.
abbrev wallets : AgentWalletSystem
wallets =
    (create_wallet 1 8 (pos 90) (finite (pos 100)) (finite (pos 50)) (finite (pos 1000)) wallet_env
      empty_system).1

abbrev worker_wallet : AgentWallet
worker_wallet =
    new_wallet 1 8 (pos 90) (finite (pos 100)) (finite (pos 50)) (finite (pos 1000)) wallet_env

wallet_is_new : get 1 empty_system.wallets ≡ none
unfolding get empty_system
wallet_is_new = refl

wallets-IsWellFormed : IsWellFormed wallets
wallets-IsWellFormed = Reach-IsWellFormed (
    Wallet_next Wallet_here (
      creates 1 8 (pos 90) (finite (pos 100)) (finite (pos 50)) (finite (pos 1000)) wallet_env
        wallet_is_new))

abbrev empty_engine : NegotiationEngine
empty_engine = new_engine (some wallets)

-- The agent 7 auctions a task to the agents 8 and 9, at 10 to 900.
abbrev announced : NegotiationEngine
announced =
    (create_task_auction 40 7 5 6 (8 ∷ 9 ∷ []) 24 (pos 10) (some (pos 900)) 100 empty_engine).1

abbrev bid_of_8 : NegotiationEngine
bid_of_8 = (submit_bid 50 8 40 3 (pos 700) 80 none 1 101 announced).1

abbrev two_bids : NegotiationEngine
two_bids = (submit_bid 51 9 40 3 (pos 800) 80 none 1 102 bid_of_8).1

abbrev accept_env : AcceptEnv
accept_env = record {
  contract_id = 60;
  task_id = 61;
  payment_id = 62;
  ten_percent = λ x. pos 70;
  approval_callback = none;
  manager = manager;
  now = 103;
}

abbrev accepted : NegotiationEngine
accepted = (accept_bid accept_env 40 50 7 two_bids).1

auction_is_new : get 40 empty_engine.negotiations ≡ none
unfolding get new_engine
auction_is_new = refl

accepted-Reach : Reach manager (new_engine (some wallets)) accepted
accepted-Reach =
    next
      (next
        (next
          (next here
            (auctions 40 7 5 6 (8 ∷ 9 ∷ []) 24 (pos 10) (some (pos 900)) 100 auction_is_new))
          (submits 50 8 40 3 (pos 700) 80 none 1 101))
        (submits 51 9 40 3 (pos 800) 80 none 1 102))
      (accepts accept_env 40 50 7 refl)

Reach-AreGated_example : AreGated manager accepted
Reach-AreGated_example = Reach-AreGated manager (some wallets) {s = accepted} accepted-Reach

Reach-HavePlaces_example : HavePlaces accepted
Reach-HavePlaces_example = Reach-HavePlaces manager (some wallets) {s = accepted} accepted-Reach

abbrev auction : Negotiation
auction =
    record (new_negotiation 40 task_bid bidding 7 (8 ∷ 9 ∷ []) (5, 0) 6 24 100 (pos 10)
      (some (pos 900))) { bids = 50 ∷ 51 ∷ [] }

abbrev first_bid : Bid
first_bid = new_bid 50 8 40 3 (pos 700) 80 none 1 101

auction_stored : get 40 two_bids.negotiations ≡ some auction
unfolding get put create_task_auction submit_bid bid_refused index_negotiation add_to_all new_engine
auction_stored = refl

bid_stored : get 50 two_bids.bids ≡ some first_bid
unfolding get put create_task_auction submit_bid bid_refused index_negotiation add_to_all new_engine
bid_stored = refl

accepted-IsAcceptable : IsAcceptable accept_env 40 50 7 two_bids auction first_bid none
unfolding get_mode get new_manager default_governed
accepted-IsAcceptable = record {
  stored = auction_stored;
  by_initiator = refl;
  placed = bid_stored;
  belongs = refl;
  asked = refl;
}

-- A contract of 300, below the limit, that the initiator has completed for its part.
abbrev small_bid : Bid
small_bid = new_bid 50 8 40 3 (pos 300) 80 none 1 101

abbrev small_contract : AgentContract
small_contract = new_contract accept_env auction 40 small_bid false

abbrev half_done : AgentContract
half_done = record small_contract {
  obligations = map (complete_duty 7 104) small_contract.obligations;
}

abbrev under_contract : NegotiationEngine
under_contract = record empty_engine { contracts = (60, half_done) ∷ [] }

abbrev ids : Key → Key
ids a = 70 + a

half_done-IsPayable : IsPayable 60 8 8 (pos 300) 105 under_contract half_done wallets worker_wallet
unfolding get put new_contract new_engine get_wallet_by_agent create_wallet empty_system
half_done-IsPayable = record {
  stored = refl;
  in_force = refl;
  party = refl;
  fulfilled = refl;
  reward = refl;
  wallets = refl;
  has_wallet = refl;
}

half_done_stored : get 60 under_contract.contracts ≡ some half_done
unfolding get
half_done_stored = refl

owes : owes_penalty 8 half_done under_contract.wallet_system ≡ true
unfolding get put new_contract new_engine get_wallet_by_agent create_wallet empty_system
owes = refl
