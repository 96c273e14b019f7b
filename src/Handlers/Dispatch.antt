-- ===== src/Handlers/Dispatch.antt =====
-- Dispatcher.handleRequest of src/safeharbor/server/Dispatcher.go, with the transaction of
-- InMemClient around the handler, in the in-memory mode.
use safe_harbor_server.Base.{ℕ, Bool, true, false, Option, none, some, List, [], ◌∷◌}
use safe_harbor_server.Store.{Store, Result, ok, err, panic, Action, reset_transaction_cache}
use safe_harbor_server.Handlers.Request.{Response, status}

-- The calls that end a transaction.
pub data TxnCall : Type 0 where
  commit abort : TxnCall

-- What one request did: the HTTP status that was written, if any, the body, the transaction calls in
-- their order, whether the goroutine ended in a panic, and the store.
pub record Outcome : Type 0 where
  pub status_written : Option ℕ
  pub response : Option Response
  pub calls : List TxnCall
  pub panicked : Bool
  pub store : Store

-- InMemClient.commit and abort in the in-memory mode: both forget the request's cache, and no more.
unfoldable pub commit_txn : Store → Store
unfolding reset_transaction_cache
commit_txn s = reset_transaction_cache s

unfoldable pub abort_txn : Store → Store
unfolding reset_transaction_cache
abort_txn s = reset_transaction_cache s

-- After the handler. A failure aborts, and the deferred function aborts once more, since the array
-- that it looks at still holds the client. A success commits, and clears that array before the
-- deferred function indexes it, which panics. A handler's own panic runs the deferred abort.
unfoldable pub conclude : Result Response × Store → Outcome
unfolding commit_txn abort_txn
conclude (ok r, s) = record {
  status_written = some 200;
  response = some r;
  calls = commit ∷ [];
  panicked = true;
  store = commit_txn s;
}
conclude (err e, s) = record {
  status_written = some (status e);
  response = none;
  calls = abort ∷ abort ∷ [];
  panicked = false;
  store = abort_txn (abort_txn s);
}
conclude (panic, s) = record {
  status_written = none;
  response = none;
  calls = abort ∷ [];
  panicked = true;
  store = abort_txn s;
}

-- handleRequest, for the handler that the dispatcher has under the request's name.
unfoldable pub handle_request : Option (Action Response) → Store → Outcome
unfolding conclude reset_transaction_cache
handle_request none s = record {
  status_written = some 404;
  response = none;
  calls = [];
  panicked = false;
  store = s;
}
handle_request (some handler) s = conclude (handler (reset_transaction_cache s))
