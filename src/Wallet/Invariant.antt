-- ===== src/Wallet/Invariant.antt =====
-- shared/agent/wallet.py: how the tables of AgentWalletSystem fit together, and spend as a whole.
use rg_agent_engine.Base.{
  ◌≡◌, refl, true, Option, none, some, List, Key, ◌==◌, arith, Bool-cases, inl, inr, ◌∙◌,
}
use rg_agent_engine.Base.Dict.{get, put, get-put_inv, get-put, put-put, has_key, has_key-get}
use rg_agent_engine.Wallet.Types.{AgentWallet, SpendRequest}
use rg_agent_engine.Wallet.State.{AgentWalletSystem, Env, maybe_reset_limits}
use rg_agent_engine.Wallet.Spend.{spend_found, spend, take_from}
use rg_agent_engine.Wallet.Effect.{
  SpendEffect, refused, declined, paid, KeepsTables, spend_found-SpendEffect,
  spend_found-KeepsTables, id-maybe_reset, agent-maybe_reset, Outcome,
}

-- Every wallet stands under its own id and has a list of transactions, and every agent's wallet is
-- there and is that agent's.
pub record IsWellFormed (s : AgentWalletSystem) : Type 0 where
  pub own_id : (k : Key) (w : AgentWallet) → get k s.wallets ≡ some w → w.id ≡ k
  pub listed :
      (k : Key) (w : AgentWallet)
      → get k s.wallets ≡ some w
      → has_key k s.wallet_transactions ≡ true
  pub owned :
      (a k : Key)
      → get a s.agent_wallets ≡ some k
      → (w : AgentWallet) × (get k s.wallets ≡ some w) × (w.agent_id ≡ a)

pub list_of :
    (s : AgentWalletSystem) (k : Key) (w : AgentWallet)
    → IsWellFormed s
    → get k s.wallets ≡ some w
    → (ids : List Key) × (get w.id s.wallet_transactions ≡ some ids)
list_of s k w h e = rw (h.own_id k w e) (has_key-get k s.wallet_transactions (h.listed k w e))

-- A wallet that takes the place of another of the same id and agent.
module _ (k : Key) (old new : AgentWallet) (s s' : AgentWalletSystem) (h : IsWellFormed s)
    (e : get k s.wallets ≡ some old) (same_id : new.id ≡ old.id)
    (same_agent : new.agent_id ≡ old.agent_id) (we : s'.wallets ≡ put k new s.wallets)
    (t : KeepsTables s s') where
  replaced_listed :
      (j : Key) (w : AgentWallet)
      → get j s'.wallets ≡ some w
      → has_key j s'.wallet_transactions ≡ true
  replaced_listed j w found = elim (get-put_inv k j new s.wallets (rw we at found)) [
    | inl (at, is) ↦ rw (← at) (t.lists k (h.listed k old e))
    | inr (ne, there) ↦ t.lists j (h.listed j w there)
  ]

  replaced_id : (j : Key) (w : AgentWallet) → get j s'.wallets ≡ some w → w.id ≡ j
  replaced_id j w found = elim (get-put_inv k j new s.wallets (rw we at found)) [
    | inl (at, is) ↦ cc (h.own_id k old e)
    | inr (ne, there) ↦ h.own_id j w there
  ]

  replaced_owned :
      (a j : Key)
      → get a s'.agent_wallets ≡ some j
      → (w : AgentWallet) × (get j s'.wallets ≡ some w) × (w.agent_id ≡ a)
  replaced_owned a j found =
      let (w, there, owner) = h.owned a j (rw t.agents at found) in
      elim (Bool-cases (k == j)) [
        | inl same ↦ (
          new,
          ground (arith, get-put k j new s.wallets),
          ground (arith, get-put k j new s.wallets),
        )
        | inr other ↦ (w, ground (arith, get-put k j new s.wallets), owner)
      ]

  pub replaced-IsWellFormed : IsWellFormed s'
  replaced-IsWellFormed = record {
    own_id = replaced_id;
    listed = replaced_listed;
    owned = replaced_owned;
  }

pub unchanged-IsWellFormed :
    (s s' : AgentWalletSystem)
    → IsWellFormed s
    → s'.wallets ≡ s.wallets
    → KeepsTables s s'
    → IsWellFormed s'
unchanged-IsWellFormed s s' h we t = record {
  own_id = λ k w e. h.own_id k w (rw we at e);
  listed = λ k w e. t.lists k (h.listed k w (rw we at e));
  owned = λ a k e. rw we (h.owned a k (rw t.agents at e));
}

SpendEffect-IsWellFormed :
    (r : SpendRequest) (env : Env) (s : AgentWalletSystem) (o : Outcome)
    → IsWellFormed s
    → KeepsTables s o.1
    → SpendEffect r env s o
    → IsWellFormed o.1
SpendEffect-IsWellFormed r env s o h t (refused no' e) = unchanged-IsWellFormed s o.1 h e t
SpendEffect-IsWellFormed r env s o h t (declined w found no' e) =
    replaced-IsWellFormed r.wallet_id w (maybe_reset_limits env w) s o.1 h found
      (id-maybe_reset env w) (agent-maybe_reset env w) e t
SpendEffect-IsWellFormed r env s o h t (paid w found enough usable done e) =
    let w' = maybe_reset_limits env w in
    replaced-IsWellFormed r.wallet_id w (take_from r.amount env.now w') s o.1 h found
      (unfold take_from in id-maybe_reset env w) (unfold take_from in agent-maybe_reset env w)
      (e ∙ put-put r.wallet_id w' (take_from r.amount env.now w') s.wallets) t

module _ (id : Key) (r : SpendRequest) (env : Env) (s : AgentWalletSystem)
    (h : IsWellFormed s) where
  pub spend-SpendEffect : SpendEffect r env s (spend id r env s)
  unfolding spend
  spend-SpendEffect = by_wallet (get r.wallet_id s.wallets) refl
    where
      by_wallet :
          (o : Option AgentWallet)
          → get r.wallet_id s.wallets ≡ o
          → SpendEffect r env s (spend_found o id r env s)
      by_wallet none e = unfold spend_found in refused refl refl
      by_wallet (some w) e =
          let (ids, listed) = list_of s r.wallet_id w h e in
          spend_found-SpendEffect id r env s w e listed

  pub spend-KeepsTables : KeepsTables s (spend id r env s).1
  unfolding spend
  spend-KeepsTables = by_wallet (get r.wallet_id s.wallets) refl
    where
      by_wallet :
          (o : Option AgentWallet)
          → get r.wallet_id s.wallets ≡ o
          → KeepsTables s (spend_found o id r env s).1
      by_wallet none e = unfold spend_found in record { agents = refl; lists = λ k l. l }
      by_wallet (some w) e =
          let (ids, listed) = list_of s r.wallet_id w h e in
          spend_found-KeepsTables id r env s w e listed

  pub spend-IsWellFormed : IsWellFormed (spend id r env s).1
  spend-IsWellFormed =
      SpendEffect-IsWellFormed r env s (spend id r env s) h spend-KeepsTables spend-SpendEffect
