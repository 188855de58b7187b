-- ===== src/Qbft/Definition.antt =====
-- qbft/definition.py: the parameters of a cluster. A cluster has at least one node.
use distributed_validator_sp.Base.{ℕ, ◌+◌, ◌*◌, ◌/◌, ◌%◌, Bool, ◌==◌, nat_eq}
use distributed_validator_sp.Types.{Duty, duty_type_code}

pub record Definition : Type 0 where
  pub nodes : ℕ

-- int(math.ceil(float(nodes * 2) / 3)); the division of doubles rounds to the same integer for
-- every count of nodes below 2 ^ 50.
unfoldable pub quorum : Definition → ℕ
quorum d = (d.nodes * 2 + 2) / 3

-- faulty() + 1, the form in which the instance uses `faulty`: floor((nodes - 1) / 3) + 1, which is
-- floor((nodes + 2) / 3) also at no nodes.
unfoldable pub faulty_plus_one : Definition → ℕ
faulty_plus_one d = (d.nodes + 2) / 3

unfoldable pub is_leader : Definition → Duty → ℕ → ℕ → Bool
is_leader d duty round peer = (duty.slot + duty_type_code duty.type + round) % d.nodes == peer
