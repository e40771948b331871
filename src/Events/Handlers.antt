-- ===== src/Events/Handlers.antt =====
-- src/commerce_operations/events/handlers.py: the registry of event handlers.
use cax_commerce_operations.Prelude.{String, List, [], ◌==◌, Eq-string, contains, if◌then◌else◌}
use cax_commerce_operations.Errors.{Error, Result, ok, err}
use cax_commerce_operations.Persistence.Tables.{add}
use cax_commerce_operations.Events.Types.{EventType, Eq-event_type}
use cax_commerce_operations.Events.Store.{EventEnvelope}
use cax_commerce_operations.Session.{Action}

pub record RegisteredHandler : Type 0 where
  pub name : String
  pub event_type : EventType
  pub callback : EventEnvelope → Action (Unit {0})

-- `handlers` is the defaultdict of lists, `names` the set of the names that are taken.
pub record EventHandlerRegistry : Type 0 where
  pub handlers : EventType → List RegisteredHandler
  pub names : List String

abbrev pub empty_registry : EventHandlerRegistry
empty_registry = record { handlers = λ t. []; names = [] }

-- `EventHandlerRegistry.register`
unfoldable pub register :
    EventType
    → String
    → (EventEnvelope → Action (Unit {0}))
    → EventHandlerRegistry
    → Result EventHandlerRegistry
register event_type name callback r =
    if contains name r.names
    then err Error.value_error
    else ok (record {
      handlers = λ t.
          if t == event_type
          then add (record { name = name; event_type = event_type; callback = callback })
              (r.handlers t)
          else r.handlers t;
      names = add name r.names;
    })

-- `EventHandlerRegistry.handlers_for`
unfoldable pub handlers_for : EventHandlerRegistry → EventType → List RegisteredHandler
handlers_for r event_type = r.handlers event_type
