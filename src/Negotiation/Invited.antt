-- ===== src/Negotiation/Invited.antt =====
-- shared/agent/negotiation.py: the bids, call by call.
use rg_agent_engine.Base.{
  ℕ, ◌≡◌, refl, Option, none, some, Key, arith, Bool-cases, Option-cases, inl, inr, map,
}
use rg_agent_engine.Base.Int.{ℤ}
use rg_agent_engine.Base.Dict.{Dict, get, put, get-nil}
use rg_agent_engine.Autonomy.{AutonomyModeManager}
use rg_agent_engine.Wallet.State.{AgentWalletSystem}
use rg_agent_engine.Negotiation.Types.{
  bidding, AgentContract, NegotiationEngine, new_engine, completed, called_off, pending_approval,
}
use rg_agent_engine.Negotiation.Auction.{
  create_task_auction, create_resource_trade, index_negotiation,
}
use rg_agent_engine.Negotiation.Contract.{
  complete_contract, complete_active, trigger_payments, breach_contract, approve_contract,
  reject_contract, reopen, store_contract, complete_duty, same_status,
}
use rg_agent_engine.Negotiation.Bids.{
  HavePlaces, SameTerms, Extends, Keeps-same, Keeps-put, Keeps-put_fresh, old_bids,
  Extends-HavePlaces,
}
use rg_agent_engine.Negotiation.Reach.{
  Step, auctions, trades, submits, accepts, completes, breaches, approves, rejects, Reach, here,
  next,
}
use rg_agent_engine.Negotiation.Offers.{submit_bid-Extends, accept_bid-Extends}

tables-trigger_payments :
    (ids : Key → Key) (rewards : Dict ℤ) (k : Key) (now : ℕ) (s : NegotiationEngine)
    → let s' = (trigger_payments ids rewards k now s).1 in
      (s'.negotiations ≡ s.negotiations) × (s'.bids ≡ s.bids)
unfolding trigger_payments
tables-trigger_payments ids rewards k now s = elim (Option-cases s.wallet_system) [
  | inl e ↦ (ground arith, ground arith)
  | inr (w, e) ↦ (ground arith, ground arith)
]

tables-complete_active :
    (ids : Key → Key) (c : AgentContract) (k agent_id : Key) (now : ℕ) (s : NegotiationEngine)
    → let s' = (complete_active ids c k agent_id now s).1 in
      (s'.negotiations ≡ s.negotiations) × (s'.bids ≡ s.bids)
unfolding complete_active
tables-complete_active ids c k agent_id now s =
    let c' = record c { obligations = map (complete_duty agent_id now) c.obligations } in
    let done = record c' { status = completed; completed_at = some now } in
    let t = tables-trigger_payments ids c.rewards k now (store_contract k done s) in
    (ground (arith, t.0), ground (arith, t.1))

tables-complete_contract :
    (ids : Key → Key) (k agent_id : Key) (now : ℕ) (s : NegotiationEngine)
    → let s' = (complete_contract ids k agent_id now s).1 in
      (s'.negotiations ≡ s.negotiations) × (s'.bids ≡ s.bids)
unfolding complete_contract
tables-complete_contract ids k agent_id now s = elim (Option-cases (get k s.contracts)) [
  | inl e ↦ (ground arith, ground arith)
  | inr (c, e) ↦
      let t = tables-complete_active ids c k agent_id now s in
      (ground (arith, t.0), ground (arith, t.1))
]

tables-breach_contract :
    (k agent_id why : Key) (now : ℕ) (s : NegotiationEngine)
    → let s' = (breach_contract k agent_id why now s).1 in
      (s'.negotiations ≡ s.negotiations) × (s'.bids ≡ s.bids)
unfolding breach_contract
tables-breach_contract k agent_id why now s = (ground arith, ground arith)

tables-approve_contract :
    (k approver : Key) (now : ℕ) (s : NegotiationEngine)
    → let s' = (approve_contract k approver now s).1 in
      (s'.negotiations ≡ s.negotiations) × (s'.bids ≡ s.bids)
unfolding approve_contract
tables-approve_contract k approver now s = (ground arith, ground arith)

reopen-Extends : (k : Key) (s : NegotiationEngine) → Extends s (reopen k s)
reopen-Extends k s = elim (Option-cases (get k s.negotiations)) [
  | inl e ↦
      unfold reopen in
      rw (e, reopen) (old_bids s s (Keeps-same s.negotiations s.negotiations refl) refl)
  | inr (n, e) ↦
      let n' = record n { status = bidding; contract_id = none; winning_bid_id = none } in
      let same : SameTerms n n' = record { targets = refl; low = refl; high = refl } in
      unfold reopen in
      rw (e, reopen)
        (old_bids s (record s { negotiations = put k n' s.negotiations })
          (Keeps-put k n n' s.negotiations e same) refl)
]

reject_contract-Extends :
    (k rejector why : Key) (s : NegotiationEngine) → Extends s (reject_contract k rejector why s).1
reject_contract-Extends k rejector why s = elim (Option-cases (get k s.contracts)) [
  | inl e ↦ unfold reject_contract in rw (e, reject_contract) unchanged
  | inr (c, e) ↦ elim (Bool-cases (same_status c.status pending_approval)) [
    | inr other ↦ unfold reject_contract in rw (e, reject_contract) (rw other unchanged)
    | inl waits ↦
        let c' = record c { status = called_off; rejection = some (why, rejector) } in
        let x = reopen-Extends c.negotiation_id (store_contract k c' s) in
        unfold reject_contract in
        rw (e, reject_contract) (rw waits (record { terms = x.terms; offers = x.offers }))
  ]
]
  where
    unchanged : Extends s s
    unchanged = old_bids s s (Keeps-same s.negotiations s.negotiations refl) refl

same_tables :
    (s s' : NegotiationEngine)
    → (s'.negotiations ≡ s.negotiations) × (s'.bids ≡ s.bids)
    → Extends s s'
same_tables s s' (e, f) = old_bids s s' (Keeps-same s.negotiations s'.negotiations e) f

Step-Extends : {m : AutonomyModeManager} {s t : NegotiationEngine} → Step m s t → Extends s t
unfolding create_task_auction create_resource_trade index_negotiation
Step-Extends {m} {s} (auctions id initiator task text targets hours low high now fresh) =
    old_bids s _ (Keeps-put_fresh id _ s.negotiations fresh) refl
Step-Extends {m} {s} (trades id initiator offering requesting text targets hours now fresh) =
    old_bids s _ (Keeps-put_fresh id _ s.negotiations fresh) refl
Step-Extends {m} {s}
      (submits id agent_id negotiation_id offer price confidence completion hours now) =
    submit_bid-Extends id agent_id negotiation_id offer price confidence completion hours now s
Step-Extends {m} {s} (accepts env negotiation_id bid_id acceptor e) =
    accept_bid-Extends env negotiation_id bid_id acceptor s
Step-Extends {m} {s} (completes ids k agent_id now) =
    same_tables s _ (tables-complete_contract ids k agent_id now s)
Step-Extends {m} {s} (breaches k agent_id why now) =
    same_tables s _ (tables-breach_contract k agent_id why now s)
Step-Extends {m} {s} (approves k approver now) =
    same_tables s _ (tables-approve_contract k approver now s)
Step-Extends {m} {s} (rejects k rejector why) = reject_contract-Extends k rejector why s

Reach-preserves :
    {m : AutonomyModeManager} {s t : NegotiationEngine} → Reach m s t → HavePlaces s → HavePlaces t
Reach-preserves here h = h
Reach-preserves (next {t} {u} r step) h =
    Extends-HavePlaces t u (Step-Extends step) (Reach-preserves r h)

-- On an engine that began empty, after any calls: every stored bid belongs to a stored negotiation
-- that invites its agent, at a price that is not below the minimum of that negotiation and not
-- above its maximum, where it has one that is not 0: a maximum of 0 bounds nothing.
pub Reach-HavePlaces :
    (m : AutonomyModeManager) (w : Option AgentWalletSystem) {s : NegotiationEngine}
    → Reach m (new_engine w) s
    → HavePlaces s
Reach-HavePlaces m w r = Reach-preserves r (unfold new_engine in λ k b found. get-nil k found)
