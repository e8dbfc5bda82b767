-- ===== src/Mentions/Tests.antt =====
-- The array of the sample configuration.
use yurei_jsonrpc_client.Prelude.{◌≡◌, refl, arith}
use yurei_jsonrpc_client.CString.{codes}
use yurei_jsonrpc_client.Parser.Sample.{config}
use yurei_jsonrpc_client.Mentions.{mentions, build_mentions_array, build_mentions_array-mentions}

two_listed : build_mentions_array config 256 ≡ codes "[\"6EF8\",\"675k\"]"
unfolding build_mentions_array
two_listed = refl

two_mentions : build_mentions_array config 256 ≡ mentions (codes "6EF8") (codes "675k")
two_mentions = build_mentions_array-mentions config (omega arith) (omega arith)
