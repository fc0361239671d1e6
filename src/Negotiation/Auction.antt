-- ===== src/Negotiation/Auction.antt =====
-- shared/agent/negotiation.py: auctions, trades and bids.
use rg_agent_engine.Base.{
  ℕ, ◌+◌, Bool, true, false, not, ◌&&◌, Option, none, some, List, [], ◌∷◌, ◌++◌, Key, ◌==◌,
  if◌then◌else◌,
}
use rg_agent_engine.Base.Int.{ℤ, pos, negsuc, ltb_ℤ}
use rg_agent_engine.Base.Lists.{member}
use rg_agent_engine.Base.Dict.{Dict, get, get_or, put}
use rg_agent_engine.Base.Exec.{ok, err}
use rg_agent_engine.Negotiation.Types.{
  NegotiationType, task_bid, resource_trade, NegotiationStatus, undecided, bidding, negotiating,
  Bid, Negotiation, AgentContract, NegotiationEngine, NegotiationException, negotiation_not_found,
  not_invited, cannot_bid, below_minimum, above_maximum, Outcome,
}

-- `index[agent].append(id)`, with a new list for a new agent
abbrev pub add_to_index : Key → Key → Dict (List Key) → Dict (List Key)
add_to_index id agent_id d = put agent_id (get_or agent_id [] d ++ id ∷ []) d

unfoldable pub add_to_all : Key → List Key → Dict (List Key) → Dict (List Key)
add_to_all id [] d = d
add_to_all id (a ∷ agents) d = add_to_all id agents (add_to_index id a d)

unfoldable pub index_negotiation : Negotiation → NegotiationEngine → NegotiationEngine
unfolding add_to_all
index_negotiation n s = record s {
  agent_negotiations =
      add_to_all n.id n.target_agent_ids
        (add_to_index n.id n.initiator_agent_id s.agent_negotiations);
}

unfoldable pub index_contract : AgentContract → NegotiationEngine → NegotiationEngine
unfolding add_to_all
index_contract c s = record s { agent_contracts = add_to_all c.id c.parties s.agent_contracts }

abbrev pub new_negotiation :
    Key
    → NegotiationType
    → NegotiationStatus
    → Key
    → List Key
    → Key × Key
    → Key
    → ℕ
    → ℕ
    → ℤ
    → Option ℤ
    → Negotiation
new_negotiation id type status initiator targets subject text hours now min_bid max_bid = record {
  id = id;
  type = type;
  initiator_agent_id = initiator;
  target_agent_ids = targets;
  subject = subject;
  description = text;
  status = status;
  bids = [];
  winning_bid_id = none;
  contract_id = none;
  created_at = now;
  expires_at = now + hours;
  closed_at = none;
  min_bid = min_bid;
  max_bid = max_bid;
}

abbrev store_negotiation : Negotiation → NegotiationEngine → NegotiationEngine
store_negotiation n s = record s { negotiations = put n.id n s.negotiations }

unfoldable pub create_task_auction :
    Key
    → Key
    → Key
    → Key
    → List Key
    → ℕ
    → ℤ
    → Option ℤ
    → ℕ
    → NegotiationEngine
    → Negotiation × NegotiationEngine
unfolding index_negotiation
create_task_auction id initiator task text targets hours min_bid max_bid now s =
    let n =
      new_negotiation id task_bid bidding initiator targets (task, 0) text hours now min_bid
        max_bid in
    (n, index_negotiation n (store_negotiation n s))

unfoldable pub create_resource_trade :
    Key
    → Key
    → Key
    → Key
    → Key
    → List Key
    → ℕ
    → ℕ
    → NegotiationEngine
    → Negotiation × NegotiationEngine
unfolding index_negotiation
create_resource_trade id initiator offering requesting text targets hours now s =
    let n =
      new_negotiation id resource_trade negotiating initiator targets (offering, requesting) text
        hours now (pos 0) none in
    (n, index_negotiation n (store_negotiation n s))

abbrev pub takes_bids : NegotiationStatus → Bool
takes_bids undecided = true
takes_bids bidding = true
takes_bids _ = false

abbrev pub is_zero : ℤ → Bool
is_zero (pos n) = n == 0
is_zero (negsuc n) = false

-- `max_bid and price > max_bid`
abbrev pub is_above : ℤ → Option ℤ → Bool
is_above price none = false
is_above price (some m) = not (is_zero m) && ltb_ℤ m price

-- The guards of `submit_bid`: what it raises, if anything.
unfoldable pub bid_refused : Key → ℤ → Negotiation → Option NegotiationException
bid_refused agent_id price n =
    if not (member agent_id n.target_agent_ids)
    then some not_invited
    else if not (takes_bids n.status)
    then some (cannot_bid n.status)
    else if ltb_ℤ price n.min_bid
    then some (below_minimum n.min_bid)
    else if is_above price n.max_bid
    then some (above_maximum price)
    else none

abbrev pub new_bid : Key → Key → Key → Key → ℤ → ℕ → Option ℕ → ℕ → ℕ → Bid
new_bid id agent_id negotiation_id offer price confidence completion hours now = record {
  id = id;
  agent_id = agent_id;
  negotiation_id = negotiation_id;
  offer = offer;
  price = price;
  confidence = confidence;
  estimated_completion = elim completion [ none ↦ now + hours | some t ↦ t ];
  estimated_duration_hours = hours;
  is_winning = false;
  is_rejected = false;
  created_at = now;
}

abbrev pub add_bid : Bid → Key → Negotiation → NegotiationEngine → NegotiationEngine
add_bid b negotiation_id n s = record s {
  bids = put b.id b s.bids;
  negotiations = put negotiation_id (record n { bids = n.bids ++ b.id ∷ [] }) s.negotiations;
}

unfoldable pub submit_bid :
    Key → Key → Key → Key → ℤ → ℕ → Option ℕ → ℕ → ℕ → NegotiationEngine → Outcome Bid
unfolding bid_refused
submit_bid id agent_id negotiation_id offer price confidence completion hours now s =
    elim (get negotiation_id s.negotiations) [
      | none ↦ (err (negotiation_not_found negotiation_id), s)
      | some n ↦ elim (bid_refused agent_id price n) [
        | some e ↦ (err e, s)
        | none ↦
            let b =
              new_bid id agent_id negotiation_id offer price confidence completion hours now in
            (ok b, add_bid b negotiation_id n s)
      ]
    ]
