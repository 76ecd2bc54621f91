-- ===== src/Server/Service.antt =====
-- The service as it runs: requests and the events of subscriptions, in any order.
use sync_bridge.Base.{ℕ, ◌≡◌, sym, ap, subst, ◌∙◌, true, Option, none, some, []}
use mathlib.Core.Option.{some_inj}
use sync_bridge.Text.{Bytes}
use sync_bridge.Sql.Engine.{ok, IsSqlite}
use sync_bridge.Sql.Table.{find}
use sync_bridge.Handlers.Host.{Host}
use sync_bridge.Handlers.Log.Invariant.{AllKnown, LogSteps-AllKnown}
use sync_bridge.Handlers.Sync.Entry.{log}
use sync_bridge.Graph.Broker.{
  EmployeeBroker, is_subscribed, new_employee_broker, unsubscribe, receive,
}
use sync_bridge.Graph.Broker.Invariant.{
  IsValid, new_employee_broker-IsValid, subscribe-IsValid, receive-IsValid, unsubscribe-closes,
}
use sync_bridge.Graph.Model.{Employee}
use sync_bridge.Graph.Resolvers.{
  GraphState, employee_created_resolver, with_some, subscription_done,
}
use sync_bridge.Server.{Incoming, ServerState, World, serve}
use sync_bridge.Server.Refinement.{serve-Allowed, serve-broker}

module _ (h : Host) {Time : Type 0} (parse : Bytes → Bytes → Option Time) (w : World h parse)
    (auth_token : Bytes) where
  open h use {engine}

  abbrev with_broker : ServerState h parse → EmployeeBroker (Employee Time) → ServerState h parse
  with_broker s b = record s { graph = record s.graph { broker = b } }

  -- a service that has just been started on a database without log entries
  abbrev pub started : engine.State → ServerState h parse
  started db = record { graph = record { db = db; broker = new_employee_broker }; metrics = [] }

  abbrev pub with_graph : ServerState h parse → GraphState h parse → ServerState h parse
  with_graph s g = record s { graph = g }

  -- A request is served; or a subscription starts, its subscriber receives, or it ends, once.
  pub data ServiceStep (s : ServerState h parse) : ServerState h parse → Type 0 where
    serves : (r : Incoming) → ServiceStep s (serve h parse w auth_token r s).1
    watches : ServiceStep s (with_graph s (employee_created_resolver h parse s.graph).0)
    hears : (ch : ℕ) → ServiceStep s (with_broker s (receive ch s.graph.broker))
    departs :
        (ch : ℕ) {g : GraphState h parse}
        → is_subscribed ch s.graph.broker.subscribers ≡ true
        → subscription_done h parse ch s.graph ≡ some g
        → ServiceStep s (with_graph s g)

  pub data Reached : ServerState h parse → Type 0 where
    starts :
        (db : engine.State)
        → engine.saved db ≡ none
        → (engine.tables db).sync_history ≡ []
        → Reached (started db)
    proceeds : {s s' : ServerState h parse} → Reached s → ServiceStep s s' → Reached s'

  -- No transaction is open, each entry of the log is pending, failed or successful, and the broker
  -- is valid.
  pub record IsSound (s : ServerState h parse) : Type 0 where
    pub idle : engine.saved s.graph.db ≡ none
    pub known : AllKnown (log h s.graph.db)
    pub broker : IsValid s.graph.broker

  subscription_done-unsubscribe :
      (g : GraphState h parse) (ch : ℕ) (b : EmployeeBroker (Employee Time))
      → unsubscribe ch g.broker ≡ some b
      → subscription_done h parse ch g ≡ some (record g { broker = b })
  unfolding subscription_done
  subscription_done-unsubscribe g ch b run = ap (λ o. with_some h parse o g) run

  module _ (sql : IsSqlite engine)
      (commits : (s : engine.State) → (engine.commit s).0 ≡ ok tt) where
    ServiceStep-IsSound : {s s' : ServerState h parse} → ServiceStep s s' → IsSound s → IsSound s'
    ServiceStep-IsSound {s} (serves r) sound =
        let (steps, idle) = serve-Allowed h parse sql commits w auth_token r s sound.idle in
        record {
          idle = idle;
          known = LogSteps-AllKnown steps sound.known;
          broker = serve-broker h parse w auth_token r s sound.broker;
        }
    ServiceStep-IsSound {s} watches sound =
        unfold employee_created_resolver in
        record {
          idle = sound.idle;
          known = sound.known;
          broker = subscribe-IsValid s.graph.broker sound.broker;
        }
    ServiceStep-IsSound {s} (hears ch) sound = record {
      idle = sound.idle;
      known = sound.known;
      broker = receive-IsValid ch s.graph.broker sound.broker;
    }
    ServiceStep-IsSound {s} (departs ch sub e) sound =
        let (b, run, valid, gone, again) = unsubscribe-closes ch s.graph.broker sound.broker sub in
        let g : GraphState h parse = record s.graph { broker = b } in
        let here = subscription_done-unsubscribe s.graph ch b run in
        subst (λ g. IsSound (with_graph s g)) (some_inj.0 (sym here ∙ e))
          (record { idle = sound.idle; known = sound.known; broker = valid })

    no_entries : (db : engine.State) → (engine.tables db).sync_history ≡ [] → AllKnown (log h db)
    unfolding find
    no_entries db e i r found = absurd (cc (ap (find i) e, found))

    -- In every state that requests and subscriptions lead to, in whatever order they come, no
    -- transaction is open, each entry of the log is PENDING_RETRY, FAILED or SUCCESSFUL, and the
    -- broker is valid. The database behaves as `IsSqlite` says, and no COMMIT fails.
    pub Reached-IsSound : {s : ServerState h parse} → Reached s → IsSound s
    Reached-IsSound (starts db idle e) = record {
      idle = idle;
      known = no_entries db e;
      broker = new_employee_broker-IsValid;
    }
    Reached-IsSound (proceeds before st) = ServiceStep-IsSound st (Reached-IsSound before)
