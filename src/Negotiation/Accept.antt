-- ===== src/Negotiation/Accept.antt =====
-- shared/agent/negotiation.py: what the acceptance of a bid does to the bids and the negotiation.
use rg_agent_engine.Base.{
  ◌≡◌, refl, Bool, true, not, ◌&&◌, Option, none, some, List, [], ◌∷◌, Key, ◌==◌, if◌then◌else◌,
  arith, Option-cases, inl, inr,
}
use rg_agent_engine.Base.Lists.{member}
use rg_agent_engine.Base.Dict.{Dict, get, put, get-put}
use rg_agent_engine.Base.Exec.{ok}
use rg_agent_engine.Autonomy.{get_mode}
use rg_agent_engine.Negotiation.Types.{
  agreed, pending_approval, active, Bid, Negotiation, AgentContract, NegotiationEngine,
}
use rg_agent_engine.Negotiation.Auction.{index_contract}
use rg_agent_engine.Negotiation.Award.{
  AcceptEnv, accept_bid, accept_found, conclude, new_contract, needs_approval, ask_approval,
  reject_others,
}

abbrev pub reject_bid : Bid → Bid
reject_bid b = record b { is_rejected = true }

abbrev pub reject_found : Option Bid → Option Bid
reject_found none = none
reject_found (some b) = some (reject_bid b)

reject_one :
    (winner id k : Key) (d : Dict Bid)
    → get k (
        if id == winner then d else elim (get id d) [ none ↦ d | some b ↦ put id (reject_bid b) d ])
      ≡ (if id == k && not (k == winner) then reject_found (get k d) else get k d)
reject_one winner id k d = elim (Option-cases (get id d)) [
  | inl e ↦ ground arith
  | inr (b, e) ↦ ground (arith, get-put id k (reject_bid b) d)
]

-- The loop that rejects the other bids touches the bids of the list but the winner.
pub get-reject_others :
    (winner : Key) (ids : List Key) (k : Key) (d : Dict Bid)
    → get k (reject_others winner ids d)
      ≡ (if member k ids && not (k == winner) then reject_found (get k d) else get k d)
unfolding reject_others
get-reject_others winner [] k d = refl
get-reject_others winner (id ∷ ids) k d =
    let d' =
      if id == winner then d else elim (get id d) [ none ↦ d | some b ↦ put id (reject_bid b) d ] in
    ground (arith, get-reject_others winner ids k d', reject_one winner id k d)

-- The guards of an acceptance hold, and the callback, if it is asked, does not raise.
pub record IsAcceptable (env : AcceptEnv) (negotiation_id bid_id acceptor : Key)
    (s : NegotiationEngine) (n : Negotiation) (b : Bid) (approval : Option Key) : Type 0 where
  pub stored : get negotiation_id s.negotiations ≡ some n
  pub by_initiator : acceptor ≡ n.initiator_agent_id
  pub placed : get bid_id s.bids ≡ some b
  pub belongs : b.negotiation_id ≡ negotiation_id
  pub asked :
      ask_approval env acceptor b.price
        (needs_approval (get_mode acceptor env.manager) env.manager b.price)
      ≡ ok approval

-- The engine behind an acceptance.
pub record IsConcluded (env : AcceptEnv) (negotiation_id bid_id : Key) (waits : Bool)
    (n : Negotiation) (b : Bid) (s s' : NegotiationEngine) : Type 0 where
  pub closed :
      get negotiation_id s'.negotiations
      ≡ some (record n {
        status = agreed;
        winning_bid_id = some bid_id;
        contract_id = some env.contract_id;
        closed_at = some env.now;
      })
  pub bound :
      (c : AgentContract) × (get env.contract_id s'.contracts ≡ some c)
      × (c.total_value ≡ b.price)
      × (c.requires_approval ≡ waits)
      × (c.status ≡ (if waits then pending_approval else active))
  pub bids :
      (k : Key)
      → get k s'.bids ≡ (
          if k == bid_id
          then some (record b { is_winning = true })
          else if member k n.bids
          then reject_found (get k s.bids)
          else get k s.bids)
  pub wallets : s'.wallet_system ≡ s.wallet_system

conclude-IsConcluded :
    (env : AcceptEnv) (negotiation_id bid_id : Key) (waits : Bool) (n : Negotiation) (b : Bid)
    (approval : Option Key) (s : NegotiationEngine)
    → let c = record (new_contract env n negotiation_id b waits) { approval_id = approval } in
      IsConcluded env negotiation_id bid_id waits n b s (conclude env n negotiation_id b bid_id c s)
unfolding conclude index_contract new_contract
conclude-IsConcluded env negotiation_id bid_id waits n b approval s =
    let c = record (new_contract env n negotiation_id b waits) { approval_id = approval } in
    let won = record b { is_winning = true } in
    record {
      closed = ground (
        arith,
        get-put negotiation_id negotiation_id
            (record n {
              status = agreed;
              winning_bid_id = some bid_id;
              contract_id = some env.contract_id;
              closed_at = some env.now;
            })
            s.negotiations,
      );
      bound = (
        c,
        ground (arith, get-put env.contract_id env.contract_id c s.contracts),
        refl,
        refl,
        refl,
      );
      bids = λ k. ground (
        arith,
        get-reject_others bid_id n.bids k (put bid_id won s.bids),
        get-put bid_id k won s.bids,
      );
      wallets = refl;
    }

accept_bid-conclude :
    (env : AcceptEnv) (negotiation_id bid_id acceptor : Key) (s : NegotiationEngine)
    (n : Negotiation) (b : Bid) (approval : Option Key)
    → IsAcceptable env negotiation_id bid_id acceptor s n b approval
    → let waits = needs_approval (get_mode acceptor env.manager) env.manager b.price in
      let c = record (new_contract env n negotiation_id b waits) { approval_id = approval } in
      accept_bid env negotiation_id bid_id acceptor s
      ≡ (ok c, conclude env n negotiation_id b bid_id c s)
unfolding accept_bid accept_found
accept_bid-conclude env negotiation_id bid_id acceptor s n b approval h =
    rw (h.stored, accept_bid) (ground (arith, h.by_initiator, h.placed, h.belongs, h.asked))

-- The initiator's acceptance of a bid on its negotiation succeeds in every status of the negotiation
-- and of the bid, if the callback does not raise. It closes the negotiation with that bid, marks the
-- bid as winning and every other stored bid of the negotiation as rejected, leaves other bids and the
-- wallets as they are, and stores a contract of the bid's price: pending approval exactly where
-- the acceptor is governed and the price exceeds the contract limit, and else active.
pub accept_bid-IsConcluded :
    (env : AcceptEnv) (negotiation_id bid_id acceptor : Key) (s : NegotiationEngine)
    (n : Negotiation) (b : Bid) (approval : Option Key)
    → IsAcceptable env negotiation_id bid_id acceptor s n b approval
    → let waits = needs_approval (get_mode acceptor env.manager) env.manager b.price in
      IsConcluded env negotiation_id bid_id waits n b s
        (accept_bid env negotiation_id bid_id acceptor s).1
accept_bid-IsConcluded env negotiation_id bid_id acceptor s n b approval h =
    let waits = needs_approval (get_mode acceptor env.manager) env.manager b.price in
    rw (accept_bid-conclude env negotiation_id bid_id acceptor s n b approval h)
      (conclude-IsConcluded env negotiation_id bid_id waits n b approval s)

pub accept_bid-found :
    (env : AcceptEnv) (negotiation_id bid_id acceptor : Key) (s : NegotiationEngine)
    {n : Negotiation} {b : Bid}
    → get negotiation_id s.negotiations ≡ some n
    → (acceptor == n.initiator_agent_id) ≡ true
    → get bid_id s.bids ≡ some b
    → (b.negotiation_id == negotiation_id) ≡ true
    → accept_bid env negotiation_id bid_id acceptor s
      ≡ accept_found env n negotiation_id b bid_id acceptor s
unfolding accept_bid
accept_bid-found env negotiation_id bid_id acceptor s e same f own = ground arith
