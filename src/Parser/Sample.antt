-- ===== src/Parser/Sample.antt =====
-- A concrete JSON library, a notification, a configuration and a queue, for the tests.
use yurei_jsonrpc_client.EventQueue.Invariant.{IsValid}
use yurei_jsonrpc_client.Prelude.{
  arith, ◌&&◌, ◌==◌, ℕ, ◌≡◌, refl, Bool, true, false, none, some, List, [], ◌∷◌, Option, replicate,
  Bytes, if◌then◌else◌,
}
use yurei_jsonrpc_client.CString.{skip_spaces, after_first, codes, same_ignoring_case}
use yurei_jsonrpc_client.Config.Fields.{Config}
use yurei_jsonrpc_client.EventQueue.Event.{Event, blank_event, pumpfun}
use yurei_jsonrpc_client.EventQueue.Ring.{EventQueue}
use yurei_jsonrpc_client.Parser.Base64.{decode_base64}
use yurei_jsonrpc_client.Parser.Json.{CJson}
use yurei_jsonrpc_client.Parser.Message.{make_event, context_slot, program_to_kind}
use yurei_jsonrpc_client.Parser.Extract.{
  collect, line_events, log_events, logs_events, values_events, result_events, message_events,
  value_events,
}

-- JSON as a tree, for which the functions of cJSON are concrete.
mutual
  pub data Node : Type 0 where
    number : ℕ → Node
    text : Bytes → Node
    array : Nodes → Node
    object : Members → Node

  pub data Nodes : Type 0 where
    end : Nodes
    next : Node → Nodes → Nodes

  pub data Members : Type 0 where
    nothing : Members
    member : Bytes → Node → Members → Members

abbrev pub items : Nodes → List Node
items end = []
items (next n ns) = n ∷ items ns

abbrev pub same_key : Bytes → Bytes → Bool
same_key [] [] = true
same_key (a ∷ as') (b ∷ bs) = a == b && same_key as' bs
same_key _ _ = false

abbrev pub find : Bytes → Members → Option Node
find key nothing = none
find key (member k n ms) = if same_key k key then some n else find key ms

abbrev pub node_member : Node → Bytes → Option Node
node_member (object ms) key = find key ms
node_member _ key = none

abbrev pub node_children : Node → List Node
node_children (array ns) = items ns
node_children _ = []

abbrev pub is_node_array : Node → Bool
is_node_array (array ns) = true
is_node_array _ = false

abbrev pub is_node_object : Node → Bool
is_node_object (object ms) = true
is_node_object _ = false

abbrev pub is_node_text : Node → Bool
is_node_text (text s) = true
is_node_text _ = false

abbrev pub is_node_number : Node → Bool
is_node_number (number n) = true
is_node_number _ = false

abbrev pub node_text : Node → Option Bytes
node_text (text s) = some s
node_text _ = none

abbrev pub node_slot : Node → ℕ
node_slot (number n) = n
node_slot _ = 0

abbrev pub log_line : Node
log_line = text (codes "Program data: aGk=")

-- A notification: `params.result` with a context and one value.
abbrev pub value : Node
value = object (
    member (codes "signature") (text (codes "sig")) (
      member (codes "logs") (array (next (text (codes "Program log")) (next log_line end)))
        nothing))

abbrev pub notification : Node
notification = object (
    member (codes "params")
      (object (
        member (codes "result")
          (object (
            member (codes "context") (object (member (codes "slot") (number 42) nothing))
              (member (codes "value") value nothing)))
          nothing))
      nothing)

-- The text is not read: every text but the empty one is the notification.
abbrev pub parse_node : Bytes → Option Node
parse_node [] = none
parse_node (c ∷ cs) = some notification

abbrev pub tree_json : CJson
tree_json = record {
  Item = Node;
  parse = parse_node;
  is_array = is_node_array;
  is_object = is_node_object;
  is_string = is_node_text;
  is_number = is_node_number;
  get_item = node_member;
  children = node_children;
  valuestring = node_text;
  slot_value = node_slot;
}

abbrev pub config : Config
config = record {
  rpc_endpoint = [];
  wss_endpoint = [];
  rpc_api_key = [];
  rpc_mode = codes "ws";
  poll_interval_ms = 1000;
  ws_backoff_ms = 1000;
  ws_backoff_max_ms = 60000;
  queue_capacity = 2;
  batch_size = 20;
  rate_limit_rps = 10;
  log_color = true;
  pumpfun_program = codes "6EF8";
  raydium_program = codes "675k";
  pumpfun_table = codes "pumpfun_trades";
  raydium_table = codes "raydium_swaps";
  pg_conninfo = [];
  log_level = codes "info";
}

abbrev pub empty_queue : EventQueue
empty_queue = record {
  buffer = replicate 2 blank_event;
  capacity = 2;
  head = 0;
  tail = 0;
  size = 0;
  closed = false;
}

abbrev pub event : Event
event = record {
  kind = pumpfun;
  program_id = [];
  signature = codes "sig";
  slot = 42;
  payload = b'h' ∷ b'i' ∷ 0 ∷ [];
  data_len = 3;
}

pub notification_events : message_events tree_json config notification ≡ event ∷ []
unfolding message_events result_events values_events value_events logs_events log_events line_events
    collect context_slot make_event program_to_kind after_first skip_spaces decode_base64
    same_ignoring_case
notification_events = refl

pub empty_queue-IsValid : IsValid empty_queue
empty_queue-IsValid = omega arith
