-- ===== src/Wallet/Solvency.antt =====
-- shared/agent/wallet.py: the sign of the balances.
use rg_agent_engine.Base.{
  ℕ, ◌≡◌, false, Option, none, some, Key, arith, Bool-cases, Option-cases, inl, inr,
}
use rg_agent_engine.Base.Int.{ℤ, pos, ◌≤ℤ◌, ◌+ℤ◌, ◌-ℤ◌, ltb_ℤ, int_laws}
use rg_agent_engine.Base.Dict.{Dict, get, put, get-put_inv}
use rg_agent_engine.Base.Exec.{ok, err}
use rg_agent_engine.Wallet.Types.{
  AgentWallet, WalletTransaction, SpendRequest, transfer_in, transfer_from,
}
use rg_agent_engine.Wallet.State.{
  AgentWalletSystem, Env, maybe_reset_limits, write_wallet, append_transaction,
}
use rg_agent_engine.Wallet.Spend.{Method, spend, take_from, give_to}
use rg_agent_engine.Wallet.Move.{
  update_wallet, credit_destination, credit_if_paid, move_funds, transfer_found, transfer,
  transfer_request, is_blocked, is_unapproved, credit_transaction,
}
use rg_agent_engine.Wallet.Effect.{
  SpendEffect, refused, declined, paid, Outcome, balance-maybe_reset,
}
use rg_agent_engine.Wallet.Invariant.{IsWellFormed, spend-SpendEffect}
use rg_agent_engine.Wallet.Money.{continue, credit_if_paid_state, balance-take_from}
use rg_agent_engine.Wallet.Flow.{move_funds-continue}

-- No wallet is in debt.
abbrev pub IsSolvent : Dict AgentWallet → Type 0
IsSolvent d = (k : Key) (w : AgentWallet) → get k d ≡ some w → pos 0 ≤ℤ w.balance

pub put-IsSolvent :
    (k : Key) (w : AgentWallet) (d : Dict AgentWallet)
    → pos 0 ≤ℤ w.balance
    → IsSolvent d
    → IsSolvent (put k w d)
put-IsSolvent k w d fine h j v found = elim (get-put_inv k j w d found) [
  | inl (at, is) ↦ rw (← is) fine
  | inr (ne, there) ↦ h j v there
]

-- A covered amount can be taken, and an amount that is not negative can be given.
pub take_fine : (a b : ℤ) → ltb_ℤ b a ≡ false → pos 0 ≤ℤ b -ℤ a
take_fine a b h = grind (int_laws, h)

give_fine : (a b : ℤ) → pos 0 ≤ℤ a → pos 0 ≤ℤ b → pos 0 ≤ℤ b +ℤ a
give_fine a b ha hb = omega (int_laws, ha, hb)

pub SpendEffect-IsSolvent :
    (r : SpendRequest) (env : Env) (s : AgentWalletSystem) (o : Outcome)
    → SpendEffect r env s o
    → IsSolvent s.wallets
    → IsSolvent o.1.wallets
SpendEffect-IsSolvent r env s o (refused no' e) h = rw e h
SpendEffect-IsSolvent r env s o (declined w found no' e) h = rw e (
    put-IsSolvent r.wallet_id (maybe_reset_limits env w) s.wallets
      (rw (balance-maybe_reset env w) (h r.wallet_id w found)) h)
SpendEffect-IsSolvent r env s o (paid w found enough usable done e) h =
    let w' = maybe_reset_limits env w in
    let w'' = take_from r.amount env.now w' in
    let same = balance-maybe_reset env w in
    rw e (
      put-IsSolvent r.wallet_id w'' (put r.wallet_id w' s.wallets)
        (rw (balance-take_from r.amount env.now w', same) (take_fine r.amount w.balance enough))
        (put-IsSolvent r.wallet_id w' s.wallets (rw same (h r.wallet_id w found)) h))

pub wallets-append :
    (k : Key) (t : WalletTransaction) (s : AgentWalletSystem)
    → (append_transaction k t s).1.wallets ≡ s.wallets
unfolding append_transaction
wallets-append k t s = ground arith

pub given-IsSolvent :
    (k : Key) (w : AgentWallet) (amount : ℤ) (now : ℕ) (d : Dict AgentWallet)
    → pos 0 ≤ℤ amount
    → get k d ≡ some w
    → IsSolvent d
    → IsSolvent (put k (give_to amount now w) d)
unfolding give_to
given-IsSolvent k w amount now d fair e h =
    put-IsSolvent k (give_to amount now w) d (give_fine amount w.balance fair (h k w e)) h

update-IsSolvent :
    (k : Key) (amount : ℤ) (now : ℕ) (s : AgentWalletSystem)
    → pos 0 ≤ℤ amount
    → IsSolvent s.wallets
    → IsSolvent (update_wallet k (give_to amount now) s).wallets
unfolding update_wallet write_wallet
update-IsSolvent k amount now s fair h = elim (Option-cases (get k s.wallets)) [
  | inl e ↦ rw (e, update_wallet) h
  | inr (w, e) ↦ rw (e, update_wallet) (given-IsSolvent k w amount now s.wallets fair e h)
]

credit_destination-IsSolvent :
    (id to_key from_key from_agent : Key) (amount : ℤ) (text : Key) (now : ℕ)
    (s : AgentWalletSystem)
    → pos 0 ≤ℤ amount
    → IsSolvent s.wallets
    → IsSolvent (credit_destination id to_key from_key from_agent amount text now s).1.wallets
unfolding credit_destination
credit_destination-IsSolvent id to_key from_key from_agent amount text now s fair h =
    let s' = update_wallet to_key (give_to amount now) s in
    let t =
      credit_transaction id to_key transfer_in amount (transfer_from from_agent text)
        (some from_key) now in
    rw (wallets-append to_key t s') (update-IsSolvent to_key amount now s fair h)

continue-IsSolvent :
    (o : Outcome) (m : Method (Unit {0}))
    → IsSolvent o.1.wallets
    → ((s : AgentWalletSystem) → IsSolvent s.wallets → IsSolvent (m s).1.wallets)
    → IsSolvent (continue o (credit_if_paid m)).1.wallets
unfolding continue
continue-IsSolvent (err e, s) m h keep = h
continue-IsSolvent (ok result, s) m h keep = elim (Bool-cases result.success) [
  | inl paid' ↦ rw (credit_if_paid_state m result s paid') (keep s h)
  | inr declined' ↦ unfold credit_if_paid in simp declined' h
]

pub transfer-IsSolvent :
    (id credit_id from_key to_key : Key) (amount : ℤ) (text : Key) (env : Env)
    (s : AgentWalletSystem)
    → IsWellFormed s
    → pos 0 ≤ℤ amount
    → IsSolvent s.wallets
    → IsSolvent (transfer id credit_id from_key to_key amount text env s).1.wallets
unfolding transfer transfer_found
transfer-IsSolvent id credit_id from_key to_key amount text env s ok' fair h =
    by_wallets (get from_key s.wallets) (get to_key s.wallets)
  where
    moved :
        (source target : AgentWallet)
        → IsSolvent
            (move_funds id credit_id from_key to_key amount text source target env s).1.wallets
    moved source target =
        let r = transfer_request from_key to_key amount target.agent_id text in
        rw (move_funds-continue id credit_id from_key to_key amount text env s source target) (
          continue-IsSolvent (spend id r env s)
            (credit_destination credit_id to_key from_key source.agent_id amount text env.now)
            (SpendEffect-IsSolvent r env s (spend id r env s) (spend-SpendEffect id r env s ok') h)
            (λ u k.
              credit_destination-IsSolvent credit_id to_key from_key source.agent_id amount text
                env.now u fair k))

    by_wallets :
        (source target : Option AgentWallet)
        → IsSolvent
            (transfer_found id credit_id from_key to_key amount text source target env s).1.wallets
    by_wallets none target = h
    by_wallets (some source) none = h
    by_wallets (some source) (some target) = elim (Bool-cases (is_blocked to_key source env)) [
      | inl blocked ↦ rw blocked h
      | inr free ↦ elim (Bool-cases (is_unapproved to_key source env)) [
        | inl unapproved ↦ rw (free, unapproved) h
        | inr approved ↦ rw (free, approved) (moved source target)
      ]
    ]
