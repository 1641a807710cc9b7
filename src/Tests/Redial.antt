-- ===== src/Tests/Redial.antt =====
-- A node with two configured peers that calls the second.
use lane_cove_tunnel.Prelude.{ℕ, refl, [], ◌∷◌, arith}
use lane_cove_tunnel.Node.{Node, zero_config, zero_pending}
use lane_cove_tunnel.Sessions.{find_index, find_session_by_pub}
use lane_cove_tunnel.Loop.Periodic.{reconnects}
use lane_cove_tunnel.Tunnel.Slots.{IsCalling, count_free}
use lane_cove_tunnel.Tunnel.Due.{IsDue}
use lane_cove_tunnel.Tunnel.Redial.{reconnects-IsCalling}
use lane_cove_tunnel.Tests.Toy.{toy, toy-IsCrypto, toy_env, start}
use lane_cove_tunnel.Tests.Talk.{
  toy_env-IsReliable, toy-IsAble, a_addr, b_addr, self_of, config_of, node_for,
}

abbrev node : Node ℕ
node = record (node_for (config_of 7 0x0a090003 a_addr)) {
  peer_configs = config_of 7 0x0a090003 a_addr ∷ (config_of 5 0x0a090002 b_addr ∷ []);
  pending_hs = zero_pending ∷ (zero_pending ∷ []);
}

node-IsDue : IsDue toy toy_env (self_of 3) 1000 1 node
unfolding find_session_by_pub find_index zero_config
node-IsDue = record {
  key = 5;
  own_key = refl;
  endpoint = refl;
  unknown = refl;
  ready = omega arith;
}

reconnects-IsCalling_example :
    IsCalling 1
      (reconnects toy toy_env (self_of 3) 1000 2 0 node start).0.pending_hs
      (reconnects toy toy_env (self_of 3) 1000 2 0 node start).1.sent
unfolding count_free zero_pending
reconnects-IsCalling_example =
    reconnects-IsCalling toy toy-IsCrypto toy-IsAble toy_env toy_env-IsReliable (self_of 3) 1000 1
      node start (omega arith) (omega arith) node-IsDue
