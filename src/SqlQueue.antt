-- ===== src/SqlQueue.antt =====
-- CDBSqlManager (VerifyServer/DataBase/DBSqlManager.cpp): statements that are queued for a worker
-- thread. A node of the queue is named by its place in the order of creation.
pub mod Newest
pub mod Open
use windows_verifyserver.Prelude.{
  ℕ, zero, suc, List, [], ◌∷◌, ◌++◌, Option, none, some, Bool, true, false, if◌then◌else◌, length,
}
use windows_verifyserver.Prelude.Counts.{erase_first}
use windows_verifyserver.Prelude.Results.{Result, ok, err, ◌>>=◌, out_of_bounds}

-- CSqlExecNode; callback and data as numbers, 0 for NULL
pub record Node : Type 0 where
  pub sql : List ℕ
  pub callback : ℕ
  pub data_ptr : ℕ

-- CDBSqlManager: `attached` for m_pDB, `signalled` for the event, `executed` for the nodes that went
-- to the database, `deleted` for those that were deleted.
pub record Manager : Type 0 where
  pub attached : Bool
  pub running : Bool
  pub signalled : Bool
  pub nodes : List Node
  pub queue : List ℕ
  pub executed : List ℕ
  pub deleted : List ℕ

-- `m_sql_exec_queue.back()` of the queue that holds `x` and then `xs`
abbrev pub back : ℕ → List ℕ → ℕ
back x [] = x
back x (y ∷ ys) = back y ys

-- CDBSqlManager::ExecSqlInStack, both of them
abbrev pub exec_sql_in_stack : Manager → Node → Manager
exec_sql_in_stack m node =
    if m.running
    then record m {
      nodes = m.nodes ++ node ∷ [];
      queue = m.queue ++ length m.nodes ∷ [];
      signalled = true;
    }
    else m

-- CDBSqlManager::ExecSql, called with what the node holds
abbrev pub exec_sql : Manager → ℕ → Manager
exec_sql m node = if m.attached then record m { executed = m.executed ++ node ∷ [] } else m

-- What the worker does between its wait and its sleep; `back` of an empty queue is undefined.
abbrev pub serve : Manager → Result Manager
serve m = elim m.queue [
  | [] ↦ err out_of_bounds
  | (x ∷ xs) ↦ ok (exec_sql (record m { queue = xs }) (back x xs))
]

-- A pass of the worker's loop: over, at the wait, or through.
pub data Pass : Type 0 where
  stopped : Pass
  waiting : Pass
  through : Result Manager → Pass

-- CDBSqlManager::_SqlexecThreadProc
unfoldable pub worker_pass : Manager → Pass
worker_pass m = elim m.running [
  | false ↦ stopped
  | true ↦ elim m.queue [
    | [] ↦ if m.signalled then through (serve (record m { signalled = false })) else waiting
    | (x ∷ xs) ↦ through (serve m)
  ]
]

-- So many passes that find the queue filled.
unfoldable pub serve_all : ℕ → Manager → Result Manager
serve_all zero m = ok m
serve_all (suc n) m = serve m >>= serve_all n

-- The loop of CDBSqlManager::CloseStack: the nodes that it deletes.
abbrev pub close_queue : List ℕ → List ℕ
close_queue [] = []
close_queue (x ∷ xs) = back x xs ∷ close_queue xs

-- CDBSqlManager::CloseStack, with the thread open while `running`; the wait for the worker has no
-- effect on the fields.
abbrev pub close_stack : Manager → Manager
close_stack m = record m {
  running = false;
  signalled = if m.running then true else m.signalled;
  queue = [];
  deleted = m.deleted ++ close_queue m.queue;
}

-- CDBSqlManager with its thread: m_stackThread, `none` where it is NULL or INVALID_HANDLE_VALUE, and
-- the handles of threads that are open.
pub record Stack : Type 0 where
  pub manager : Manager
  pub stack_thread : Option ℕ
  pub handles : List ℕ

-- CDBSqlManager::CDBSqlManager
abbrev pub new_stack : Stack
new_stack = record {
  manager = record {
    attached = false;
    running = false;
    signalled = false;
    nodes = [];
    queue = [];
    executed = [];
    deleted = [];
  };
  stack_thread = none;
  handles = [];
}

-- CDBSqlManager::AttachDB with a database, and CDBSqlManager::DetachDB
abbrev pub attach_db : Bool → Stack → Stack
attach_db attached s = record s { manager = record s.manager { attached = attached } }

-- CDBSqlManager::OpenStack; `begun` is what _beginthreadex returns.
unfoldable pub open_stack : Option ℕ → Stack → Stack
open_stack begun s = elim s.stack_thread [
  | some h ↦ s
  | none ↦ elim begun [
    | some h ↦ record s {
      manager = record s.manager { running = true };
      stack_thread = some h;
      handles = h ∷ s.handles;
    }
    | none ↦ record s { manager = record s.manager { running = false } }
  ]
]

-- CDBSqlManager::CloseStack with the handle of its thread: the thread is told to stop where there is
-- one and it goes on.
unfoldable pub close_thread : Stack → Stack
close_thread s =
    let closed = close_stack s.manager in
    let untold : Manager = record closed {
      running = s.manager.running;
      signalled = s.manager.signalled;
    } in
    record s {
      manager = elim s.stack_thread [
        | none ↦ untold
        | some h ↦ if s.manager.running then closed else untold
      ];
      stack_thread = none;
      handles = elim s.stack_thread [ none ↦ s.handles | some h ↦ erase_first h s.handles ];
    }
