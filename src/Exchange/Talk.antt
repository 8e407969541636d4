-- ===== src/Exchange/Talk.antt =====
-- What two sides say to each other in one session, and the calls and results that it takes.
use darkbio_wire_rs.Common.{ℕ, suc, ◌≤◌, List, [], ◌∷◌}
use darkbio_wire_rs.Error.{ok}
use darkbio_wire_rs.Crypto.{Message}
use darkbio_wire_rs.Host
use darkbio_wire_rs.Ark

-- A message, and the side that it is for.
pub data Talk (M : Type 0) : Type 0 where
  to_ark : M → Talk M
  to_host : M → Talk M

-- As many messages left to the Ark as the talk has, and `k` more; so for the host.
unfoldable pub ark_budget : {M : Type 0} → List (Talk M) → ℕ → ℕ
ark_budget [] k = k
ark_budget (to_ark m ∷ ts) k = suc (ark_budget ts k)
ark_budget (to_host m ∷ ts) k = ark_budget ts k

unfoldable pub host_budget : {M : Type 0} → List (Talk M) → ℕ → ℕ
host_budget [] n = n
host_budget (to_ark m ∷ ts) n = host_budget ts n
host_budget (to_host m ∷ ts) n = suc (host_budget ts n)

-- The calls that each side makes, and what they are to return.
unfoldable pub host_calls : {M : Type 0} → List (Talk M) → List (Host.History.Use M)
host_calls [] = []
host_calls (to_ark m ∷ ts) = Host.History.send m ∷ host_calls ts
host_calls (to_host m ∷ ts) = Host.History.fetch ∷ host_calls ts

unfoldable pub ark_calls : {M : Type 0} → List (Talk M) → List (Ark.Portions.Use M)
ark_calls [] = []
ark_calls (to_ark m ∷ ts) = Ark.Portions.fetch ∷ ark_calls ts
ark_calls (to_host m ∷ ts) = Ark.Portions.send m ∷ ark_calls ts

unfoldable pub host_results : {Info M : Type 0} → List (Talk M) → List (Host.Portions.Answer Info M)
host_results [] = []
host_results (to_ark m ∷ ts) = Host.Portions.delivered (ok tt) ∷ host_results ts
host_results (to_host m ∷ ts) = Host.Portions.fetched (ok m) ∷ host_results ts

unfoldable pub ark_results : {M : Type 0} → List (Talk M) → List (Ark.Portions.Reply M)
ark_results [] = []
ark_results (to_ark m ∷ ts) = Ark.Portions.fetched (ok m) ∷ ark_results ts
ark_results (to_host m ∷ ts) = Ark.Portions.delivered (ok tt) ∷ ark_results ts

module _ {M : Type 0} (message : Message M) (limit : ℕ) where
  abbrev pub AllFit : List (Talk M) → Type 0
  AllFit [] = Unit
  AllFit (to_ark m ∷ ts) = (message.encoded_len m ≤ limit) × AllFit ts
  AllFit (to_host m ∷ ts) = (message.encoded_len m ≤ limit) × AllFit ts
