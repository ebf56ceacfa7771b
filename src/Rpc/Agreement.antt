-- ===== src/Rpc/Agreement.antt =====
-- The JSON-RPC server and the websocket server do the same to the processes.
use Prim.Native.String.{◌++◌ as ◌+++◌}
use time_tracker.Common.{
  String, ◌≡◌, refl, ◌⊎◌, inl, inr, true, some, List, ◌∷◌, Result, Result-cases, ok, err, ok_or,
}
use time_tracker.Json.{Json, Fields, string}
use time_tracker.Messages.{success_message}
use time_tracker.Websocket.{to_json}
use time_tracker.Registry.{Registry, Outcome, add_process, delete_process}
use time_tracker.Requests.{
  Service, World, ◌>>=◌, lift, parse_payload, extract_string_param, string_param,
}
use time_tracker.Requests.Apps.{change_registry, handle_add_process, handle_delete_process}
use time_tracker.Rpc.{
  RpcResult, value, failure, internal_error, rpc_answer, rpc_add_process, rpc_delete_process,
}

-- The two answers to one request: both a success, or both a failure behind the same text.
abbrev pub Agree : String → String → Service × RpcResult → Service × Result String → Type 0
Agree printed rpc_done rpc websocket =
    (rpc.0 ≡ websocket.0)
    × (((rpc.1 ≡ value (string rpc_done)) × (websocket.1 ≡ ok printed))
        ⊎ ((x : String) × (rpc.1 ≡ failure internal_error) × (websocket.1 ≡ err x)))

-- The change, answered by the two servers.
change_both :
    (w : World) (change : Registry → Outcome) (context done printed rpc_done : String)
    (st : Service)
    → to_json w.printer (success_message done) ≡ some printed
    → Agree printed rpc_done
        ((change_registry change "" st).0, rpc_answer rpc_done (change_registry change "" st).1)
        ((change_registry change context >>= λ u.
            lift (ok_or (to_json w.printer (success_message done)) "Failed to serialize response"))
          st)
unfolding change_registry ◌>>=◌ lift
change_both w change context done printed rpc_done st prints =
    elim (Result-cases (change st.registry).answer) [
      | inl (u, q) ↦ rw (q, prints) (refl, inl (refl, refl))
      | inr (x, q) ↦ rw q (refl, inr (context +++ (": " +++ x), refl, refl))
    ]

module _ (w : World) (payload : String) (params : Fields) (process_name : String) (rest : List Json)
    (parsed : parse_payload w.reader payload ≡ ok params)
    (named : string_param params "process_name" ≡ some process_name) (printed : String) where
  -- A websocket request to add a process and a JSON-RPC call with the same name and path, from the same
  -- state: they leave the same database, process map and broadcasts, and either both succeed or both fail,
  -- provided that the message of the websocket's success can be printed.
  pub rpc_add_process-handle_add_process :
      (path : String) (st : Service)
      → string_param params "path" ≡ some path
      → to_json w.printer (success_message ("Successfully added process: " +++ process_name))
        ≡ some printed
      → Agree printed "process successfully added"
          (rpc_add_process w (some (string process_name ∷ string path ∷ rest)) st)
          (handle_add_process w payload st)
  unfolding rpc_add_process handle_add_process ◌>>=◌ lift extract_string_param
  rpc_add_process-handle_add_process path st located prints =
      rw (parsed, named, located)
        (change_both w
          (add_process w.engine w.codec true process_name (w.reader.ver_query_value path))
          ("Failed to add process '" +++ (process_name +++ "'"))
          ("Successfully added process: " +++ process_name) printed "process successfully added" st
          prints)

  -- The same of a request to delete a process: the two servers leave the same database, process map and
  -- broadcasts, and either both succeed or both fail, provided that the message of the websocket's success
  -- can be printed.
  pub rpc_delete_process-handle_delete_process :
      (st : Service)
      → to_json w.printer (success_message ("Successfully deleted process: " +++ process_name))
        ≡ some printed
      → Agree printed "process successfully deleted"
          (rpc_delete_process w (some (string process_name ∷ rest)) st)
          (handle_delete_process w payload st)
  unfolding rpc_delete_process handle_delete_process ◌>>=◌ lift extract_string_param
  rpc_delete_process-handle_delete_process st prints =
      rw (parsed, named)
        (change_both w (delete_process w.engine w.codec true process_name)
          ("Failed to delete process '" +++ (process_name +++ "'"))
          ("Successfully deleted process: " +++ process_name) printed "process successfully deleted"
          st prints)
