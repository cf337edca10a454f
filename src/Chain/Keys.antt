-- ===== src/Chain/Keys.antt =====
-- The keys of the chain store: different kinds of entry never share a key, and the keys of the best
-- chain are in the order of their slots.
use amaru_wear.Prelude.{ℕ, ◌<◌, ◌≡◌, ◌∙◌, true, ltb, ◌==◌}
use amaru_wear.Bytes.{same, before, starts_with, be_bytes}
use amaru_wear.Bytes.Order.{before-append_left, same-append_left, starts_with-append}
use amaru_wear.Bytes.Endian.{same-be_bytes, before-be_bytes}
use amaru_wear.Chain.{u64_size, chain_prefix, chain_key}

module _ (s t : ℕ) (hs : s < u64_size) (ht : t < u64_size) where
  pub same-chain_key : same (chain_key s) (chain_key t) ≡ (s == t)
  unfolding chain_key
  same-chain_key = same-append_left chain_prefix _ _ ∙ same-be_bytes 8 s t hs ht

  -- RocksDB keeps the points of the best chain in the order of their slots.
  pub before-chain_key : before (chain_key s) (chain_key t) ≡ ltb s t
  unfolding chain_key
  before-chain_key = before-append_left chain_prefix _ _ ∙ before-be_bytes 8 s t hs ht

pub starts_with-chain_key : (s : ℕ) → starts_with chain_prefix (chain_key s) ≡ true
unfolding chain_key
starts_with-chain_key s = starts_with-append chain_prefix (be_bytes 8 s)
