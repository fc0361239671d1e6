-- ===== src/Negotiation/Contract.antt =====
-- shared/agent/negotiation.py: completion, breach, approval and rejection of contracts, payments,
-- and the queries.
use rg_agent_engine.Base.{
  ℕ, Bool, true, false, not, ◌&&◌, Option, none, some, List, [], ◌∷◌, Key, ◌==◌, if◌then◌else◌, map,
}
use rg_agent_engine.Base.Int.{ℤ, pos, ltb_ℤ}
use rg_agent_engine.Base.Lists.{member, keep_if}
use rg_agent_engine.Base.Dict.{Dict, get, get_or, put}
use rg_agent_engine.Base.Exec.{Result, ok, err}
use rg_agent_engine.Wallet.Types.{TransactionType, plain}
use rg_agent_engine.Wallet.State.{AgentWalletSystem}
use rg_agent_engine.Wallet.Manage.{get_wallet_by_agent, credit}
use rg_agent_engine.Negotiation.Types.{
  bidding, ContractStatus, draft, pending_approval, active, completed, breached, called_off,
  disputed, Bid, ContractObligation, AgentContract, NegotiationEngine, NegotiationException,
  contract_not_found, not_party, cannot_complete, not_pending_approval, type_error, wallet_failed,
  Outcome,
}

abbrev pub store_contract : Key → AgentContract → NegotiationEngine → NegotiationEngine
store_contract k c s = record s { contracts = put k c s.contracts }

abbrev pub same_status : ContractStatus → ContractStatus → Bool
same_status draft draft = true
same_status pending_approval pending_approval = true
same_status active active = true
same_status completed completed = true
same_status breached breached = true
same_status called_off called_off = true
same_status disputed disputed = true
same_status _ _ = false

abbrev pub complete_duty : Key → ℕ → ContractObligation → ContractObligation
complete_duty agent_id now o =
    if o.agent_id == agent_id then record o { is_completed = true; completed_at = some now } else o

abbrev pub all_completed : List ContractObligation → Bool
all_completed [] = true
all_completed (o ∷ os) = o.is_completed && all_completed os

-- `_pay_agent` on the wallet system: the id of the new transaction is an argument. Its text is made
-- of the contract's id.
unfoldable pub pay_agent :
    Key
    → Key
    → ℤ
    → Key
    → ℕ
    → AgentWalletSystem
    → Result NegotiationException (Unit {0}) × AgentWalletSystem
unfolding get_wallet_by_agent credit
pay_agent id agent_id amount contract_id now w = elim (get_wallet_by_agent agent_id w) [
  | none ↦ (ok tt, w)
  | some wallet ↦
      let (r, w') = credit id wallet.id amount (plain contract_id) TransactionType.credit now w in
      elim r [ ok t ↦ (ok tt, w') | err e ↦ (err (wallet_failed e), w') ]
]

-- The loop over the rewards; `ids` makes the id of the payment to an agent.
unfoldable pub pay_all :
    (Key → Key)
    → Dict ℤ
    → Key
    → ℕ
    → AgentWalletSystem
    → Result NegotiationException (Unit {0}) × AgentWalletSystem
unfolding pay_agent
pay_all ids [] contract_id now w = (ok tt, w)
pay_all ids (e ∷ rewards) contract_id now w =
    let (r, w') = pay_agent (ids e.0) e.0 e.1 contract_id now w in
    let rest = pay_all ids rewards contract_id now w' in
    elim r [ ok t ↦ rest | err x ↦ (err x, w') ]

-- `if self.wallet_system:` and the loop
unfoldable pub trigger_payments : (Key → Key) → Dict ℤ → Key → ℕ → NegotiationEngine → Outcome Bool
unfolding pay_all
trigger_payments ids rewards contract_id now s = elim s.wallet_system [
  | none ↦ (ok true, s)
  | some w ↦
      let (r, w') = pay_all ids rewards contract_id now w in
      let s' = record s { wallet_system = some w' } in
      elim r [ ok t ↦ (ok true, s') | err e ↦ (err e, s') ]
]

unfoldable pub complete_active :
    (Key → Key) → AgentContract → Key → Key → ℕ → NegotiationEngine → Outcome Bool
unfolding trigger_payments
complete_active ids c contract_id agent_id now s =
    let c' = record c { obligations = map (complete_duty agent_id now) c.obligations } in
    let done = record c' { status = completed; completed_at = some now } in
    if all_completed c'.obligations
    then trigger_payments ids c.rewards contract_id now (store_contract contract_id done s)
    else (ok false, store_contract contract_id c' s)

unfoldable pub complete_contract : (Key → Key) → Key → Key → ℕ → NegotiationEngine → Outcome Bool
unfolding complete_active
complete_contract ids contract_id agent_id now s = elim (get contract_id s.contracts) [
  | none ↦ (err (contract_not_found contract_id), s)
  | some c ↦
      if not (member agent_id c.parties)
      then (err not_party, s)
      else if not (same_status c.status active)
      then (err (cannot_complete c.status), s)
      else complete_active ids c contract_id agent_id now s
]

-- `_apply_penalty`: `spend` of the wallet system takes one request, and is called with three
-- arguments.
unfoldable pub apply_penalty : Key → AgentWalletSystem → Result NegotiationException (Unit {0})
unfolding get_wallet_by_agent
apply_penalty agent_id w = elim (get_wallet_by_agent agent_id w) [
  | none ↦ ok tt
  | some wallet ↦ err type_error
]

abbrev pub penalize : Key → ℤ → Option AgentWalletSystem → Result NegotiationException (Unit {0})
unfolding apply_penalty
penalize agent_id penalty none = ok tt
penalize agent_id penalty (some w) =
    if ltb_ℤ (pos 0) penalty then apply_penalty agent_id w else ok tt

unfoldable pub breach_contract : Key → Key → Key → ℕ → NegotiationEngine → Outcome Bool
unfolding penalize
breach_contract contract_id agent_id why now s = elim (get contract_id s.contracts) [
  | none ↦ (err (contract_not_found contract_id), s)
  | some c ↦
      let c' = record c { status = breached; breach = some (why, agent_id, now) } in
      let s' = store_contract contract_id c' s in
      elim (penalize agent_id (get_or agent_id (pos 0) c.penalties) s.wallet_system) [
        | ok t ↦ (ok true, s')
        | err e ↦ (err e, s')
      ]
]

unfoldable pub approve_contract : Key → Key → ℕ → NegotiationEngine → Outcome AgentContract
approve_contract contract_id approver now s = elim (get contract_id s.contracts) [
  | none ↦ (err (contract_not_found contract_id), s)
  | some c ↦
      let c' = record c { status = active; approved_by = some approver; activated_at = some now } in
      if not (same_status c.status pending_approval)
      then (err not_pending_approval, s)
      else (ok c', store_contract contract_id c' s)
]

-- Open the negotiation for bids again, if it is stored.
unfoldable pub reopen : Key → NegotiationEngine → NegotiationEngine
reopen negotiation_id s = elim (get negotiation_id s.negotiations) [
  | none ↦ s
  | some n ↦
      let n' = record n { status = bidding; contract_id = none; winning_bid_id = none } in
      record s { negotiations = put negotiation_id n' s.negotiations }
]

unfoldable pub reject_contract : Key → Key → Key → NegotiationEngine → Outcome AgentContract
unfolding reopen
reject_contract contract_id rejector why s = elim (get contract_id s.contracts) [
  | none ↦ (err (contract_not_found contract_id), s)
  | some c ↦
      let c' = record c { status = called_off; rejection = some (why, rejector) } in
      if not (same_status c.status pending_approval)
      then (err not_pending_approval, s)
      else (ok c', reopen c.negotiation_id (store_contract contract_id c' s))
]

-- `[d[k] for k in keys if k in d]`
unfoldable pub collect : {V : Type 0} → List Key → Dict V → List V
collect [] d = []
collect (k ∷ ks) d = elim (get k d) [ none ↦ collect ks d | some v ↦ v ∷ collect ks d ]

unfoldable pub get_bids : Key → NegotiationEngine → List Bid
unfolding collect
get_bids negotiation_id s = elim (get negotiation_id s.negotiations) [
  | none ↦ []
  | some n ↦ collect n.bids s.bids
]

unfoldable pub get_agent_contracts :
    Key → Option ContractStatus → NegotiationEngine → List AgentContract
unfolding collect
get_agent_contracts agent_id status s =
    let found = collect (get_or agent_id [] s.agent_contracts) s.contracts in
    elim status [ none ↦ found | some x ↦ keep_if (λ c. same_status c.status x) found ]
