-- ===== src/Negotiation/Reach.antt =====
-- shared/agent/negotiation.py: the calls on an engine, under one mode manager.
use rg_agent_engine.Base.{ℕ, ◌≡◌, Option, none, List, Key}
use rg_agent_engine.Base.Int.{ℤ}
use rg_agent_engine.Base.Dict.{get}
use rg_agent_engine.Autonomy.{AutonomyModeManager}
use rg_agent_engine.Negotiation.Types.{NegotiationEngine}
use rg_agent_engine.Negotiation.Auction.{create_task_auction, create_resource_trade, submit_bid}
use rg_agent_engine.Negotiation.Award.{AcceptEnv, accept_bid}
use rg_agent_engine.Negotiation.Contract.{
  complete_contract, breach_contract, approve_contract, reject_contract,
}

-- One call, whether it returns or raises; the id of a new negotiation is not in use.
pub data Step (m : AutonomyModeManager) (s : NegotiationEngine) : NegotiationEngine → Type 0 where
  auctions :
      (id initiator task text : Key) (targets : List Key) (hours : ℕ) (min_bid : ℤ)
      (max_bid : Option ℤ) (now : ℕ)
      → get id s.negotiations ≡ none
      → Step m s (create_task_auction id initiator task text targets hours min_bid max_bid now s).1
  trades :
      (id initiator offering requesting text : Key) (targets : List Key) (hours now : ℕ)
      → get id s.negotiations ≡ none
      → Step m s (create_resource_trade id initiator offering requesting text targets hours now s).1
  submits :
      (id agent_id negotiation_id offer : Key) (price : ℤ) (confidence : ℕ) (completion : Option ℕ)
      (hours now : ℕ)
      → Step m s
          (submit_bid id agent_id negotiation_id offer price confidence completion hours now s).1
  accepts :
      (env : AcceptEnv) (negotiation_id bid_id acceptor : Key)
      → env.manager ≡ m
      → Step m s (accept_bid env negotiation_id bid_id acceptor s).1
  completes :
      (ids : Key → Key) (contract_id agent_id : Key) (now : ℕ)
      → Step m s (complete_contract ids contract_id agent_id now s).1
  breaches :
      (contract_id agent_id why : Key) (now : ℕ)
      → Step m s (breach_contract contract_id agent_id why now s).1
  approves :
      (contract_id approver : Key) (now : ℕ)
      → Step m s (approve_contract contract_id approver now s).1
  rejects :
      (contract_id rejector why : Key) → Step m s (reject_contract contract_id rejector why s).1

pub data Reach (m : AutonomyModeManager) (s : NegotiationEngine) : NegotiationEngine → Type 0 where
  here : Reach m s s
  next : {t u : NegotiationEngine} → Reach m s t → Step m t u → Reach m s u
