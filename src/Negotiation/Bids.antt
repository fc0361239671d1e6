-- ===== src/Negotiation/Bids.antt =====
-- shared/agent/negotiation.py: the stored bids, and the negotiations that they belong to.
use rg_agent_engine.Base.{
  ◌≡◌, ◌⊎◌, refl, ap, Option, true, false, none, some, Key, ◌==◌, arith, Bool-cases, inl, inr,
}
use rg_agent_engine.Base.Int.{ℤ, pos, negsuc, ◌≤ℤ◌}
use rg_agent_engine.Base.Lists.{member}
use rg_agent_engine.Base.Dict.{Dict, get, put, get-put}
use rg_agent_engine.Negotiation.Types.{Bid, Negotiation, NegotiationEngine}
use rg_agent_engine.Negotiation.Auction.{is_above, is_zero}

-- The price is not above the maximum, where there is one that is not 0.
abbrev pub NotAbove : ℤ → Option ℤ → Type 0
NotAbove price none = Unit
NotAbove price (some m) = (m ≡ pos 0) ⊎ (price ≤ℤ m)

pub NotAbove-is_above : (price : ℤ) (o : Option ℤ) → is_above price o ≡ false → NotAbove price o
NotAbove-is_above price none h = tt
NotAbove-is_above price (some m) h = elim (Bool-cases (is_zero m)) [
  | inl zero ↦ inl (zero_only m zero)
  | inr other ↦ inr (ground arith)
]
  where
    zero_only : (a : ℤ) → is_zero a ≡ true → a ≡ pos 0
    zero_only (pos n) e = ap pos (ground arith)
    zero_only (negsuc n) e = cc

-- The bid is one of an agent that the negotiation invites, at a price within its bounds.
pub record IsInvited (b : Bid) (n : Negotiation) : Type 0 where
  pub invited : member b.agent_id n.target_agent_ids ≡ true
  pub not_below : n.min_bid ≤ℤ b.price
  -- a maximum of 0 is none
  pub not_above : NotAbove b.price n.max_bid

abbrev pub HasPlace : Dict Negotiation → Bid → Type 0
HasPlace d b = (n : Negotiation) × (get b.negotiation_id d ≡ some n) × IsInvited b n

abbrev pub HavePlaces : NegotiationEngine → Type 0
HavePlaces s = (k : Key) (b : Bid) → get k s.bids ≡ some b → HasPlace s.negotiations b

-- What a bid is judged by does not change.
pub record SameTerms (n n' : Negotiation) : Type 0 where
  pub targets : n'.target_agent_ids ≡ n.target_agent_ids
  pub low : n'.min_bid ≡ n.min_bid
  pub high : n'.max_bid ≡ n.max_bid

pub record SameOffer (b b' : Bid) : Type 0 where
  pub agent : b'.agent_id ≡ b.agent_id
  pub place : b'.negotiation_id ≡ b.negotiation_id
  pub price : b'.price ≡ b.price

abbrev pub Keeps : Dict Negotiation → Dict Negotiation → Type 0
Keeps d d' =
    (k : Key) (n : Negotiation)
    → get k d ≡ some n
    → (n' : Negotiation) × (get k d' ≡ some n') × SameTerms n n'

-- A step keeps the terms of the negotiations, and its bids are old ones or have their place.
pub record Extends (s s' : NegotiationEngine) : Type 0 where
  pub terms : Keeps s.negotiations s'.negotiations
  pub offers :
      (k : Key) (b' : Bid)
      → get k s'.bids ≡ some b'
      → ((b : Bid) × (get k s.bids ≡ some b) × SameOffer b b') ⊎ HasPlace s'.negotiations b'

pub same_terms : (n : Negotiation) → SameTerms n n
same_terms n = record { targets = refl; low = refl; high = refl }

pub same_offer : (b : Bid) → SameOffer b b
same_offer b = record { agent = refl; place = refl; price = refl }

pub Keeps-same : (d d' : Dict Negotiation) → d' ≡ d → Keeps d d'
Keeps-same d d' e k n found = (n, rw e found, same_terms n)

pub Keeps-put :
    (k : Key) (n n' : Negotiation) (d : Dict Negotiation)
    → get k d ≡ some n
    → SameTerms n n'
    → Keeps d (put k n' d)
Keeps-put k n n' d e same j x found = elim (Bool-cases (k == j)) [
  | inl at ↦ let is : n ≡ x = ground arith in (n', ground (arith, get-put k j n' d), rw (← is) same)
  | inr other ↦ (x, ground (arith, get-put k j n' d), same_terms x)
]

pub Keeps-put_fresh :
    (k : Key) (n : Negotiation) (d : Dict Negotiation) → get k d ≡ none → Keeps d (put k n d)
Keeps-put_fresh k n d fresh j x found = (x, ground (arith, get-put k j n d), same_terms x)

pub old_bids :
    (s s' : NegotiationEngine)
    → Keeps s.negotiations s'.negotiations
    → s'.bids ≡ s.bids
    → Extends s s'
old_bids s s' keeps e = record {
  terms = keeps;
  offers = λ k b found. inl (b, rw e at found, same_offer b);
}

pub Extends-HavePlaces : (s s' : NegotiationEngine) → Extends s s' → HavePlaces s → HavePlaces s'
Extends-HavePlaces s s' x h k b' found = elim (x.offers k b' found) [
  | inr there ↦ there
  | inl (b, old, same) ↦
      let (n, at, i) = h k b old in
      let (n', at', terms) = x.terms b.negotiation_id n at in
      (
        n',
        rw (same.place) at',
        record {
          invited = rw (same.agent, terms.targets) (i.invited);
          not_below = rw (same.price, terms.low) (i.not_below);
          not_above = rw (same.price, terms.high) (i.not_above);
        },
      )
]
