-- ===== src/Negotiation/Award.antt =====
-- shared/agent/negotiation.py: the acceptance of a bid.
use rg_agent_engine.Base.{
  ℕ, Bool, true, false, not, Option, none, some, List, [], ◌∷◌, Key, ◌==◌, if◌then◌else◌,
}
use rg_agent_engine.Base.Int.{ℤ, exceeds}
use rg_agent_engine.Base.Dict.{Dict, get, put}
use rg_agent_engine.Base.Exec.{Result, ok, err}
use rg_agent_engine.Autonomy.{AutonomyMode, unbounded, governed, AutonomyModeManager, get_mode}
use rg_agent_engine.Negotiation.Types.{
  agreed, pending_approval, active, Bid, Negotiation, Duty, complete_task, pay_on_completion,
  ContractObligation, AgentContract, NegotiationEngine, NegotiationException, negotiation_not_found,
  bid_not_found, only_initiator_accepts, wrong_negotiation, Outcome,
}
use rg_agent_engine.Negotiation.Auction.{index_contract}

-- `mode == GOVERNED and bid.price > config.contract_value_limit`
abbrev pub needs_approval : AutonomyMode → AutonomyModeManager → ℤ → Bool
needs_approval unbounded m price = false
needs_approval governed m price = exceeds price m.governed_config.contract_value_limit

abbrev obligation : Key → Key → Duty → ℕ → ContractObligation
obligation id agent_id duty deadline = record {
  id = id;
  agent_id = agent_id;
  description = duty;
  deadline = some deadline;
  is_completed = false;
  completed_at = none;
}

-- What an acceptance is given: the ids of the contract and of its obligations, the ten percent of a
-- price, the callback, the mode manager and the clock.
pub record AcceptEnv : Type 0 where
  pub contract_id : Key
  pub task_id : Key
  pub payment_id : Key
  pub ten_percent : ℤ → ℤ
  pub approval_callback : Option (Key → ℤ → Result NegotiationException (Option Key))
  pub manager : AutonomyModeManager
  pub now : ℕ

unfoldable pub new_contract : AcceptEnv → Negotiation → Key → Bid → Bool → AgentContract
new_contract env n negotiation_id b waits = record {
  id = env.contract_id;
  negotiation_id = negotiation_id;
  parties = n.initiator_agent_id ∷ b.agent_id ∷ [];
  terms = b.offer;
  description = n.description;
  obligations =
      obligation env.task_id b.agent_id complete_task b.estimated_completion
      ∷ obligation env.payment_id n.initiator_agent_id pay_on_completion b.estimated_completion
      ∷ [];
  total_value = b.price;
  rewards = (b.agent_id, b.price) ∷ [];
  penalties = (b.agent_id, env.ten_percent b.price) ∷ [];
  status = if waits then pending_approval else active;
  requires_approval = waits;
  approval_id = none;
  approved_by = none;
  created_at = env.now;
  activated_at = if waits then none else some env.now;
  completed_at = none;
  expires_at = b.estimated_completion;
  breach = none;
  rejection = none;
}

-- "Another bid was accepted": the bids of the list but the winner, where they are stored.
unfoldable pub reject_others : Key → List Key → Dict Bid → Dict Bid
reject_others winner [] d = d
reject_others winner (id ∷ ids) d = reject_others winner ids (
    if id == winner
    then d
    else elim (get id d) [ none ↦ d | some b ↦ put id (record b { is_rejected = true }) d ])

-- The end of `accept_bid`: close the negotiation, mark the bids, store the contract.
unfoldable pub conclude :
    AcceptEnv
    → Negotiation
    → Key
    → Bid
    → Key
    → AgentContract
    → NegotiationEngine
    → NegotiationEngine
unfolding reject_others index_contract
conclude env n negotiation_id b bid_id c s =
    let n' = record n {
      status = agreed;
      winning_bid_id = some bid_id;
      contract_id = some c.id;
      closed_at = some env.now;
    } in
    index_contract c (record s {
      negotiations = put negotiation_id n' s.negotiations;
      bids = reject_others bid_id n.bids (put bid_id (record b { is_winning = true }) s.bids);
      contracts = put c.id c s.contracts;
    })

-- The approval id, where approval is needed and there is a callback.
abbrev pub ask_approval : AcceptEnv → Key → ℤ → Bool → Result NegotiationException (Option Key)
ask_approval env acceptor price false = ok none
ask_approval env acceptor price true = elim env.approval_callback [
  | none ↦ ok none
  | some f ↦ f acceptor price
]

unfoldable pub accept_found :
    AcceptEnv → Negotiation → Key → Bid → Key → Key → NegotiationEngine → Outcome AgentContract
unfolding conclude new_contract
accept_found env n negotiation_id b bid_id acceptor s =
    let waits = needs_approval (get_mode acceptor env.manager) env.manager b.price in
    elim (ask_approval env acceptor b.price waits) [
      | err e ↦ (err e, s)
      | ok approval ↦
          let c = record (new_contract env n negotiation_id b waits) { approval_id = approval } in
          (ok c, conclude env n negotiation_id b bid_id c s)
    ]

unfoldable pub accept_bid : AcceptEnv → Key → Key → Key → NegotiationEngine → Outcome AgentContract
unfolding accept_found
accept_bid env negotiation_id bid_id acceptor s = elim (get negotiation_id s.negotiations) [
  | none ↦ (err (negotiation_not_found negotiation_id), s)
  | some n ↦
      if◌then◌else◌ {A = Outcome AgentContract} (not (acceptor == n.initiator_agent_id))
        (err only_initiator_accepts, s)
        (elim (get bid_id s.bids) [
          | none ↦ (err (bid_not_found bid_id), s)
          | some b ↦
              if b.negotiation_id == negotiation_id
              then accept_found env n negotiation_id b bid_id acceptor s
              else (err wrong_negotiation, s)
        ])
]
