-- ===== src/Rpc.antt =====
-- rpc.rs: the methods of the JSON-RPC server.
pub mod Agreement
use time_tracker.Common.{ℕ, String, Option, none, some, List, [], ◌∷◌, map, Result, ok, err, true}
use time_tracker.Json.{Json, string, array, of_list, as_str}
use time_tracker.Events.{get_processes}
use time_tracker.Registry.{add_process, delete_process}
use time_tracker.Requests.{Service, World}
use time_tracker.Requests.Apps.{change_registry}

pub data ErrorCode : Type 0 where
  parse_error internal_error : ErrorCode

pub data RpcResult : Type 0 where
  value : Json → RpcResult
  failure : ErrorCode → RpcResult

-- `if result.is_ok() { .. } else { .. }`
abbrev pub rpc_answer : String → Result (Unit {0}) → RpcResult
rpc_answer text (ok u) = value (string text)
rpc_answer text (err x) = failure internal_error

module _ (w : World) where
  abbrev pub add_texts : Option String → Option String → Service → Service × RpcResult
  add_texts (some p) (some path) st =
      let done =
        change_registry (add_process w.engine w.codec true p (w.reader.ver_query_value path)) ""
          st in
      (done.0, rpc_answer "process successfully added" done.1)
  add_texts _ _ st = (st, failure parse_error)

  -- `params` is what `params.parse::<Vec<Value>>()` gave.
  unfoldable pub rpc_add_process : Option (List Json) → Service → Service × RpcResult
  rpc_add_process (some (p ∷ path ∷ rest)) st = add_texts (as_str p) (as_str path) st
  rpc_add_process _ st = (st, failure parse_error)

  abbrev pub rpc_processes : Result (List String) → RpcResult
  rpc_processes (ok processes) = value (array (of_list (map string processes)))
  rpc_processes (err x) = failure internal_error

  unfoldable pub rpc_get_processes : Service → RpcResult
  rpc_get_processes st = rpc_processes (get_processes w.engine st.registry.db).1

  abbrev pub delete_text : Option String → Service → Service × RpcResult
  delete_text (some p) st =
      let done = change_registry (delete_process w.engine w.codec true p) "" st in
      (done.0, rpc_answer "process successfully deleted" done.1)
  delete_text none st = (st, failure parse_error)

  unfoldable pub rpc_delete_process : Option (List Json) → Service → Service × RpcResult
  rpc_delete_process (some (p ∷ rest)) st = delete_text (as_str p) st
  rpc_delete_process _ st = (st, failure parse_error)
