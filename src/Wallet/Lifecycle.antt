-- ===== src/Wallet/Lifecycle.antt =====
-- shared/agent/wallet.py: the writes to the tables.
use rg_agent_engine.Base.{◌≡◌, refl, none, some, [], ◌∷◌, ◌++◌, Key, arith, Option-cases, inl, inr}
use rg_agent_engine.Base.Dict.{get, put, get-put, get-put_inv}
use rg_agent_engine.Wallet.Types.{AgentWallet, WalletTransaction}
use rg_agent_engine.Wallet.State.{AgentWalletSystem, write_wallet, append_transaction}
use rg_agent_engine.Wallet.Spend.{store}
use rg_agent_engine.Wallet.Manage.{add_wallet}
use rg_agent_engine.Wallet.Effect.{KeepsTables}
use rg_agent_engine.Wallet.Invariant.{IsWellFormed, replaced-IsWellFormed, unchanged-IsWellFormed}

same_tables :
    (s s' : AgentWalletSystem)
    → s'.agent_wallets ≡ s.agent_wallets
    → s'.wallet_transactions ≡ s.wallet_transactions
    → KeepsTables s s'
same_tables s s' a t = record { agents = a; lists = λ k h. ground arith }

append_transaction-KeepsTables :
    (k : Key) (t : WalletTransaction) (s : AgentWalletSystem)
    → KeepsTables s (append_transaction k t s).1
unfolding append_transaction
append_transaction-KeepsTables k t s = elim (Option-cases (get k s.wallet_transactions)) [
  | inl e ↦ record { agents = ground arith; lists = λ j h. ground arith }
  | inr (ids, e) ↦ record {
    agents = ground arith;
    lists = λ j h. ground (arith, get-put k j (ids ++ t.id ∷ []) s.wallet_transactions);
  }
]

wallets-append_transaction :
    (k : Key) (t : WalletTransaction) (s : AgentWalletSystem)
    → (append_transaction k t s).1.wallets ≡ s.wallets
unfolding append_transaction
wallets-append_transaction k t s = ground arith

pub append_transaction-IsWellFormed :
    (k : Key) (t : WalletTransaction) (s : AgentWalletSystem)
    → IsWellFormed s
    → IsWellFormed (append_transaction k t s).1
append_transaction-IsWellFormed k t s h =
    unchanged-IsWellFormed s (append_transaction k t s).1 h (wallets-append_transaction k t s)
      (append_transaction-KeepsTables k t s)

pub store-IsWellFormed :
    (t : WalletTransaction) (s : AgentWalletSystem) → IsWellFormed s → IsWellFormed (store t s)
store-IsWellFormed t s h =
    unchanged-IsWellFormed s (store t s) h refl (same_tables s (store t s) refl refl)

-- A wallet written back with its id and its agent.
pub write_back-IsWellFormed :
    (k : Key) (w w' : AgentWallet) (s : AgentWalletSystem)
    → IsWellFormed s
    → get k s.wallets ≡ some w
    → w'.id ≡ w.id
    → w'.agent_id ≡ w.agent_id
    → IsWellFormed (write_wallet k w' s)
unfolding write_wallet
write_back-IsWellFormed k w w' s h e i a =
    let s' = record s { wallets = put k w' s.wallets } in
    replaced-IsWellFormed k w w' s s' h e i a refl (same_tables s s' refl refl)

-- The three tables of a new wallet.
module _ (w : AgentWallet) (s : AgentWalletSystem) (h : IsWellFormed s)
    (fresh : get w.id s.wallets ≡ none) where
  pub add_wallet-IsWellFormed : IsWellFormed (add_wallet w s)
  unfolding add_wallet
  add_wallet-IsWellFormed = record {
    own_id = λ k v e. elim (get-put_inv w.id k w s.wallets e) [
      | inl (at, is) ↦ cc
      | inr (ne, there) ↦ h.own_id k v there
    ];
    listed = λ k v e. elim (get-put_inv w.id k w s.wallets e) [
      | inl (at, is) ↦ ground (arith, get-put w.id k [] s.wallet_transactions)
      | inr (ne, there) ↦
          ground (arith, get-put w.id k [] s.wallet_transactions, h.listed k v there)
    ];
    owned = λ a k e. elim (get-put_inv w.agent_id a w.id s.agent_wallets e) [
      | inl (at, is) ↦ (w, ground (arith, get-put w.id k w s.wallets), at)
      | inr (ne, there) ↦
          let (v, found, owner) = h.owned a k there in
          (v, ground (arith, get-put w.id k w s.wallets), owner)
    ];
  }
