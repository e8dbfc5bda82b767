-- ===== src/Config/Print.antt =====
-- `yurei_config_print` of src/config.c: the messages of the log, all of the level `info`.
use yurei_jsonrpc_client.Prelude.{List, [], ◌∷◌, ◌++◌, Bytes}
use yurei_jsonrpc_client.CString.{codes, print_u64}
use yurei_jsonrpc_client.Config.Fields.{Config}

unfoldable pub config_print : Config → List Bytes
config_print config =
    (codes "RPC endpoint: " ++ config.rpc_endpoint)
    ∷ (codes "WSS endpoint: " ++ config.wss_endpoint)
    ∷ (codes "Mode: " ++ config.rpc_mode)
    ∷ (codes "Poll interval: " ++ (print_u64 config.poll_interval_ms ++ codes " ms"))
    ∷ (codes "Queue capacity: " ++ print_u64 config.queue_capacity)
    ∷ (codes "Batch size: " ++ print_u64 config.batch_size)
    ∷ (codes "DB tables: pumpfun="
        ++ (config.pumpfun_table ++ (codes " raydium=" ++ config.raydium_table)))
    ∷ []
