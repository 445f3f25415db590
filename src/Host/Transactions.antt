-- ===== src/Host/Transactions.antt =====
-- The transactions of containerd's metadata store in a history of calls.
use accelerated_container_im.Base.{
  ◌≡◌, refl, Bool, true, false, List, [], ◌∷◌, if◌then◌else◌, arith,
}
use accelerated_container_im.Host.{Op, History, tx_begin, tx_commit, tx_rollback}
use accelerated_container_im.Host.Trace.{Extends, same, more}

abbrev pub no_tx : Op → Bool
no_tx (tx_begin _) = false
no_tx tx_commit = false
no_tx tx_rollback = false
no_tx _ = true

-- The calls that begin or end a transaction, the newest first.
unfoldable pub txs : History → List Op
txs [] = []
txs (op ∷ h) = let rest = txs h in if no_tx op then rest else op ∷ rest

pub txs-Extends : {h h' : History} → Extends no_tx h h' → txs h' ≡ txs h
unfolding txs
txs-Extends same = refl
txs-Extends (more op p x) = ground (arith, txs-Extends x)
