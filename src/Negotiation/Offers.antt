-- ===== src/Negotiation/Offers.antt =====
-- shared/agent/negotiation.py: the bids behind a submission and behind an acceptance.
use rg_agent_engine.Base.{
  ℕ, ◌≡◌, refl, Bool, true, false, not, ◌&&◌, Option, none, some, List, [], ◌∷◌, ◌++◌, Key, ◌==◌,
  if◌then◌else◌, arith, Bool-cases, Option-cases, inl, inr,
}
use rg_agent_engine.Base.Int.{ℤ, ltb_ℤ}
use rg_agent_engine.Base.Lists.{member}
use rg_agent_engine.Base.Dict.{Dict, get, put, get-put, get-put_inv}
use rg_agent_engine.Base.Exec.{Result, ok, err}
use rg_agent_engine.Autonomy.{get_mode}
use rg_agent_engine.Negotiation.Types.{
  Bid, Negotiation, AgentContract, NegotiationEngine, NegotiationException,
}
use rg_agent_engine.Negotiation.Auction.{
  index_contract, submit_bid, add_bid, bid_refused, is_above, new_bid,
}
use rg_agent_engine.Negotiation.Award.{
  AcceptEnv, accept_bid, accept_found, conclude, new_contract, needs_approval, ask_approval,
  reject_others,
}
use rg_agent_engine.Negotiation.Accept.{get-reject_others, reject_found, accept_bid-found}
use rg_agent_engine.Negotiation.Bids.{
  SameOffer, Extends, NotAbove-is_above, same_offer, Keeps-same, Keeps-put, old_bids,
}

bid_refused-none :
    (agent_id : Key) (price : ℤ) (n : Negotiation)
    → bid_refused agent_id price n ≡ none
    → (member agent_id n.target_agent_ids ≡ true)
      × (ltb_ℤ price n.min_bid ≡ false)
      × (is_above price n.max_bid ≡ false)
unfolding bid_refused
bid_refused-none agent_id price n h = ground arith

add_bid-Extends :
    (b : Bid) (negotiation_id : Key) (n : Negotiation) (s : NegotiationEngine)
    → get negotiation_id s.negotiations ≡ some n
    → b.negotiation_id ≡ negotiation_id
    → bid_refused b.agent_id b.price n ≡ none
    → Extends s (add_bid b negotiation_id n s)
add_bid-Extends b negotiation_id n s e own fine =
    let n' = record n { bids = n.bids ++ b.id ∷ [] } in
    let (invited, low, high) = bid_refused-none b.agent_id b.price n fine in
    record {
      terms =
          Keeps-put negotiation_id n n' s.negotiations e
            (record { targets = refl; low = refl; high = refl });
      offers = λ k b' found. elim (get-put_inv b.id k b s.bids found) [
        | inr (ne, there) ↦ inl (b', there, same_offer b')
        | inl (at, is) ↦ inr (
            rw (← is) (
              n',
              ground (arith, own, get-put negotiation_id negotiation_id n' s.negotiations),
              record {
                invited = invited;
                not_below = ground arith;
                not_above = NotAbove-is_above b.price n.max_bid high;
              },
            ))
      ];
    }

pub submit_bid-Extends :
    (id agent_id negotiation_id offer : Key) (price : ℤ) (confidence : ℕ) (completion : Option ℕ)
    (hours now : ℕ) (s : NegotiationEngine)
    → Extends s
        (submit_bid id agent_id negotiation_id offer price confidence completion hours now s).1
unfolding submit_bid
submit_bid-Extends id agent_id negotiation_id offer price confidence completion hours now s =
    by_negotiation (get negotiation_id s.negotiations) refl
  where
    b : Bid
    b = new_bid id agent_id negotiation_id offer price confidence completion hours now

    unchanged : Extends s s
    unchanged = old_bids s s (Keeps-same s.negotiations s.negotiations refl) refl

    by_negotiation :
        (o : Option Negotiation)
        → get negotiation_id s.negotiations ≡ o
        → Extends s
            (submit_bid id agent_id negotiation_id offer price confidence completion hours now s).1
    by_negotiation none e = rw (e, submit_bid) unchanged
    by_negotiation (some n) e = elim (Option-cases (bid_refused agent_id price n)) [
      | inl fine ↦ rw (e, submit_bid) (rw fine (add_bid-Extends b negotiation_id n s e refl fine))
      | inr (x, refused) ↦ rw (e, submit_bid) (rw refused unchanged)
    ]

marked_offer :
    (marks : Bool) (o : Option Bid) (b' : Bid)
    → (if marks then reject_found o else o) ≡ some b'
    → (b : Bid) × (o ≡ some b) × SameOffer b b'
marked_offer true none b' h = cc h
marked_offer false none b' h = cc h
marked_offer true (some b) b' h =
    (b, refl, record { agent = ground arith; place = ground arith; price = ground arith })
marked_offer false (some b) b' h =
    (b, refl, record { agent = ground arith; place = ground arith; price = ground arith })

-- The bids behind an acceptance are the old ones, with other marks.
conclude_offers :
    (winner : Key) (ids : List Key) (b b' : Bid) (k : Key) (d : Dict Bid)
    → get winner d ≡ some b
    → get k (reject_others winner ids (put winner (record b { is_winning = true }) d)) ≡ some b'
    → (old : Bid) × (get k d ≡ some old) × SameOffer old b'
conclude_offers winner ids b b' k d e found =
    let won = record b { is_winning = true } in
    let d' = put winner won d in
    let (x, at, same) =
      marked_offer (member k ids && not (k == winner)) (get k d') b'
        (ground (arith, get-reject_others winner ids k d')) in
    elim (get-put_inv winner k won d at) [
      | inr (ne, there) ↦ (x, there, same)
      | inl (here', is) ↦ (
        b,
        ground arith,
        record {
          agent = ground (arith, same.agent);
          place = ground (arith, same.place);
          price = ground (arith, same.price);
        },
      )
    ]

module _ (env : AcceptEnv) (negotiation_id bid_id acceptor : Key) (s : NegotiationEngine) where
  unchanged : Extends s s
  unchanged = old_bids s s (Keeps-same s.negotiations s.negotiations refl) refl

  conclude-Extends :
      (n : Negotiation) (b : Bid) (c : AgentContract)
      → get negotiation_id s.negotiations ≡ some n
      → get bid_id s.bids ≡ some b
      → Extends s (conclude env n negotiation_id b bid_id c s)
  unfolding conclude index_contract
  conclude-Extends n b c e f = record {
    terms =
        Keeps-put negotiation_id n _ s.negotiations e
          (record { targets = refl; low = refl; high = refl });
    offers = λ k b' found. inl (conclude_offers bid_id n.bids b b' k s.bids f found);
  }

  accept_found-Extends :
      (n : Negotiation) (b : Bid)
      → get negotiation_id s.negotiations ≡ some n
      → get bid_id s.bids ≡ some b
      → Extends s (accept_found env n negotiation_id b bid_id acceptor s).1
  unfolding accept_found
  accept_found-Extends n b e f = by_answer (ask_approval env acceptor b.price waits) refl
    where
      waits : Bool
      waits = needs_approval (get_mode acceptor env.manager) env.manager b.price

      by_answer :
          (r : Result NegotiationException (Option Key))
          → ask_approval env acceptor b.price waits ≡ r
          → Extends s (accept_found env n negotiation_id b bid_id acceptor s).1
      by_answer (err x) eq = rw (eq, accept_found) unchanged
      by_answer (ok approval) eq =
          let c = record (new_contract env n negotiation_id b waits) { approval_id = approval } in
          rw (eq, accept_found) (conclude-Extends n b c e f)

  pub accept_bid-Extends : Extends s (accept_bid env negotiation_id bid_id acceptor s).1
  accept_bid-Extends = elim (Option-cases (get negotiation_id s.negotiations)) [
    | inl e ↦ unfold accept_bid in rw (e, accept_bid) unchanged
    | inr (n, e) ↦ elim (Bool-cases (acceptor == n.initiator_agent_id)) [
      | inr other ↦ unfold accept_bid in rw (e, accept_bid) (rw other unchanged)
      | inl same ↦ elim (Option-cases (get bid_id s.bids)) [
        | inl f ↦ unfold accept_bid in rw (e, accept_bid) (rw same (rw (f, accept_bid) unchanged))
        | inr (b, f) ↦ elim (Bool-cases (b.negotiation_id == negotiation_id)) [
          | inr foreign ↦
              unfold accept_bid in
              rw (e, accept_bid) (rw same (rw (f, accept_bid) (rw foreign unchanged)))
          | inl own ↦
              rw (accept_bid-found env negotiation_id bid_id acceptor s e same f own)
                (accept_found-Extends n b e f)
        ]
      ]
    ]
  ]
