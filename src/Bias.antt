-- ===== src/Bias.antt =====
-- src/protocols_ml/neural_ops.cpp: biases and zero points, which the parties add on their own.
pub mod Correct
use rss_ring_ppml.Base.{ℕ, ◌*◌, ◌/◌, ◌%◌}
use rss_ring_ppml.Net.{World}
use rss_ring_ppml.Share.{Shares, add_shares, sub_shares}
use rss_ring_ppml.Lt.{at_layer}

-- `add_biases(res, a, b, m, n, batch_size, nodeNet)`: element `t = k * m * n + i * n + j` gets
-- `b[s][i]`.
unfoldable pub add_biases :
    ℕ → World Shares → World Shares → World Shares → ℕ → ℕ → ℕ → World Shares
unfolding add_shares
add_biases w res a b m n batch_size =
    add_shares w (batch_size * (m * n)) a (λ pid s t. b pid s (t % (m * n) / n)) res

-- `pw_add_biases`: element `t = k * channels + i` gets `b[s][i]`.
unfoldable pub pw_add_biases :
    ℕ → World Shares → World Shares → World Shares → ℕ → ℕ → ℕ → ℕ → World Shares
unfolding add_shares
pw_add_biases w res x b height width channels batch_size =
    add_shares w (height * width * batch_size * channels) x (λ pid s t. b pid s (t % channels)) res

-- `sub_zp(res, x, z_p, size, batch_size, layer_id, nodeNet)`.
unfoldable pub sub_zp : ℕ → World Shares → World Shares → World Shares → ℕ → ℕ → ℕ → World Shares
unfolding sub_shares
sub_zp w res x z_p size batch_size layer_id =
    sub_shares w (size * batch_size) x (at_layer z_p layer_id) res

-- `add_zp`.
unfoldable pub add_zp : ℕ → World Shares → World Shares → World Shares → ℕ → ℕ → ℕ → World Shares
unfolding add_shares
add_zp w res x z_p size batch_size layer_id =
    add_shares w (size * batch_size) x (at_layer z_p layer_id) res
