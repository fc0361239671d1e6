-- ===== src/Negotiation/Types.antt =====
-- shared/agent/negotiation.py: bids, negotiations, contracts, and the state of the engine. The
-- contents of subjects and offers and the texts are keys; the description of a contract, a text
-- made of the negotiation's, is that one. A confidence is in hundredths. Of the metadata the model
-- keeps the entries that the engine writes. The reason of a rejected bid, one fixed text, is left out.
use rg_agent_engine.Base.{ℕ, Bool, Option, List, [], Key}
use rg_agent_engine.Base.Int.{ℤ}
use rg_agent_engine.Base.Dict.{Dict}
use rg_agent_engine.Base.Exec.{Result}
use rg_agent_engine.Wallet.Types.{WalletException}
use rg_agent_engine.Wallet.State.{AgentWalletSystem}

pub data NegotiationType : Type 0 where
  task_bid resource_trade capability_share contract : NegotiationType

-- `undecided` is OPEN.
pub data NegotiationStatus : Type 0 where
  undecided bidding negotiating agreed rejected expired executed cancelled : NegotiationStatus

-- `called_off` is CANCELLED.
pub data ContractStatus : Type 0 where
  draft pending_approval active completed breached called_off disputed : ContractStatus

pub record Bid : Type 0 where
  pub id : Key
  pub agent_id : Key
  pub negotiation_id : Key
  pub offer : Key
  pub price : ℤ
  pub confidence : ℕ
  pub estimated_completion : ℕ
  pub estimated_duration_hours : ℕ
  pub is_winning : Bool
  pub is_rejected : Bool
  pub created_at : ℕ

-- `min_bid` and `max_bid` are metadata of an auction, and 0 and None where it has none.
pub record Negotiation : Type 0 where
  pub id : Key
  pub type : NegotiationType
  pub initiator_agent_id : Key
  pub target_agent_ids : List Key
  pub subject : Key × Key
  pub description : Key
  pub status : NegotiationStatus
  pub bids : List Key
  pub winning_bid_id : Option Key
  pub contract_id : Option Key
  pub created_at : ℕ
  pub expires_at : ℕ
  pub closed_at : Option ℕ
  pub min_bid : ℤ
  pub max_bid : Option ℤ

-- The obligations of a contract are to complete the task, and to pay.
pub data Duty : Type 0 where
  complete_task pay_on_completion : Duty

pub record ContractObligation : Type 0 where
  pub id : Key
  pub agent_id : Key
  pub description : Duty
  pub deadline : Option ℕ
  pub is_completed : Bool
  pub completed_at : Option ℕ

pub record AgentContract : Type 0 where
  pub id : Key
  pub negotiation_id : Key
  pub parties : List Key
  pub terms : Key
  pub description : Key
  pub obligations : List ContractObligation
  pub total_value : ℤ
  pub rewards : Dict ℤ
  pub penalties : Dict ℤ
  pub status : ContractStatus
  pub requires_approval : Bool
  pub approval_id : Option Key
  pub approved_by : Option Key
  pub created_at : ℕ
  pub activated_at : Option ℕ
  pub completed_at : Option ℕ
  pub expires_at : ℕ
  pub breach : Option (Key × Key × ℕ)
  pub rejection : Option (Key × Key)

pub record NegotiationEngine : Type 0 where
  pub wallet_system : Option AgentWalletSystem
  pub negotiations : Dict Negotiation
  pub bids : Dict Bid
  pub contracts : Dict AgentContract
  pub agent_negotiations : Dict (List Key)
  pub agent_contracts : Dict (List Key)

unfoldable pub new_engine : Option AgentWalletSystem → NegotiationEngine
new_engine wallet_system = record {
  wallet_system = wallet_system;
  negotiations = [];
  bids = [];
  contracts = [];
  agent_negotiations = [];
  agent_contracts = [];
}

-- What a method raises: a `ValueError`, a `PermissionError`, what the callback or the wallet system
-- raised, or the `TypeError` of a call with wrong arguments.
pub data NegotiationException : Type 0 where
  negotiation_not_found bid_not_found contract_not_found : Key → NegotiationException
  not_invited only_initiator_accepts wrong_negotiation not_party : NegotiationException
  cannot_bid : NegotiationStatus → NegotiationException
  below_minimum above_maximum : ℤ → NegotiationException
  cannot_complete : ContractStatus → NegotiationException
  not_pending_approval callback_failed type_error : NegotiationException
  wallet_failed : WalletException → NegotiationException

abbrev pub Outcome : Type 0 → Type 0
Outcome A = Result NegotiationException A × NegotiationEngine
