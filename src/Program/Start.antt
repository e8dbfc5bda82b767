-- ===== src/Program/Start.antt =====
-- The functions that start and stop the threads: what they leave in the objects. The flags say whether
-- `pthread_create` and `curl_global_init` succeeded; `none` is -1.
use yurei_jsonrpc_client.Prelude.{Bool, true, false, if◌then◌else◌, Option, none, some, List, []}
use yurei_jsonrpc_client.Config.Fields.{Config}
use yurei_jsonrpc_client.EventQueue.Ring.{EventQueue, Schedule}
use yurei_jsonrpc_client.Metrics.{Metrics}
use yurei_jsonrpc_client.RateLimiter.{RateLimiter}
use yurei_jsonrpc_client.DbWriter.Thread.{Writer}
use yurei_jsonrpc_client.HttpPoller.{Poller}
use yurei_jsonrpc_client.WebsocketClient.{WsClient}

-- `yurei_db_writer_start`, with what the other threads and the server are yet to do.
unfoldable pub db_writer_start :
    EventQueue → Schedule → List Bool → List Bool → Bool → Option Writer
db_writer_start queue times inserts connects created =
    if created
    then some (record {
      queue = queue;
      times = times;
      inserts = inserts;
      connects = connects;
      taken = [];
      sent = [];
    })
    else none

-- `yurei_http_poller_start`.
unfoldable pub http_poller_start :
    EventQueue → Option Metrics → Option RateLimiter → Bool → Bool → Option Poller
http_poller_start queue metrics rate_limiter curl_ready created =
    if curl_ready
    then (if created
        then some (record {
          running = true;
          queue = queue;
          metrics = metrics;
          rate_limiter = rate_limiter;
          last_slot = 0;
          sent = [];
          slept = [];
        })
        else none)
    else none

-- `yurei_http_poller_stop` up to the join of the thread.
unfoldable pub http_poller_stop : Poller → Poller
http_poller_stop poller = record poller { running = false }

-- `yurei_ws_client_start`; the first flag says whether `g_client` is set.
unfoldable pub ws_client_start : Config → EventQueue → Schedule → Bool → Bool → Option WsClient
ws_client_start config queue times taken created =
    if taken
    then none
    else if created
    then some (record {
      connected = false;
      wsi = false;
      backoff_ms = config.ws_backoff_ms;
      queue = queue;
      times = times;
      session = record { outbound = []; outbound_len = 0; send_pending = false };
      sent = [];
    })
    else none
