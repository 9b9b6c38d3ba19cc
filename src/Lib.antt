-- ===== src/Lib.antt =====
-- Flowra: chats that are tasks, bugs and epics, kept as events, and changed by tags in messages.
--
-- A user's message is parsed into tags (internal/domain/tag/parser.go), each tag is checked and becomes a
-- command or an error (validators.go, processor.go), and the commands are carried out on the chat, again
-- and again where another user was faster (executor.go). A chat (internal/domain/chat/chat.go) is an
-- aggregate: each of its methods checks its arguments, raises an event and applies it to itself. The
-- repository (internal/infrastructure/repository/mongodb/chat_repository.go) loads a chat by applying
-- its stored events to an empty one, and saves it by appending its new events to the event store at an
-- expected version, then hands them on to the read model and the outbox. A use case
-- (internal/application/chat) validates a command, loads the chat, calls a method and saves it.
--
-- The files:
--   Base, Text, Errs: shared types, lemmas and Go's strings functions, and the errors of
--     internal/domain/errs.
--   Chat/Types: the data of internal/domain/chat (chat.go, events.go, participant.go, attachment.go) and of
--     internal/domain/event. Chat/Apply: Apply and its handlers. Chat/Methods, Chat/Entity,
--     Chat/Lifecycle: NewChat and the methods, with the Go names in snake case; a call of any method is a
--     value of `Call`, and `step` and `run` make calls. Chat/Steps: which payloads the methods raise.
--     Chat/Invariant, Chat/Replay, Chat/Versions, Chat/Idempotence, Chat/Closing: the theorems.
--   Store/Events: the interface internal/application/appcore/eventstore.go, a record of operations and
--     laws. Store/InMemory: internal/infrastructure/eventstore/inmemory.go, which fills it.
--     Store/ReadModel, Store/Repository: the chat repository, and saveAggregate of
--     internal/application/chat/helpers.go, over any event store. Store/Sessions: many users of one
--     repository as a step relation. Store/Histories, Store/Saving, Store/RoundTrip, Store/Following,
--     Store/Committing, Store/Interleaving, Store/Delivery: the theorems.
--   Tag/Types: internal/domain/tag/types.go, commands.go, result.go. Tag/Parser: parser.go. Tag/Validators:
--     validators.go. Tag/Processor: processor.go. Tag/Executor: the retries of executor.go.
--     Tag/Remaining, Tag/Lines, Tag/Written, Tag/Printing, Tag/Counting, Tag/Accepted, Tag/Retrying: the theorems.
--   UseCase/Commands: commands.go and the methods validate of internal/application/chat, with
--     internal/application/appcore/validation.go. UseCase/Execute: Execute of the use cases that load a
--     chat, call a method and save it. UseCase/Create: create_chat.go. UseCase/Close:
--     close_chat.go, reopen_chat.go and loadAggregate. UseCase/Dispatch: Execute of internal/domain/tag/executor.go, which
--     calls the use cases. UseCase/Carrying, UseCase/Creating, UseCase/Dispatching: the theorems.
--   Workspace/Invite, Workspace/Members: internal/domain/workspace. Workspace/Documents and Workspace/Repository:
--     internal/infrastructure/repository/mongodb/workspace_repository.go. Workspace/Accept, Workspace/Create: Execute
--     of accept_invite.go and create_workspace.go of internal/application/workspace. Workspace/Manage: update_workspace.go,
--     create_invite.go and revoke_invite.go beside them. Workspace/Limits, Workspace/Accepting, Workspace/Creating,
--     Workspace/Inviting: the theorems.
--   Message/Types, Message/Methods: internal/domain/message. Message/Commands, Message/UseCases: the six use cases of
--     internal/application/message that change messages, over any repository. Message/Invariant,
--     Message/Deleted, Message/Sessions, Message/Reaching: the theorems.
--   Outbox/Worker: internal/application/appcore/outbox.go and internal/worker/outbox_worker.go. Outbox/Owed, Outbox/Marks,
--     Outbox/Draining, Outbox/Published: the theorems.
--   Limiter/Limit: the in-memory store and the middleware RateLimit of internal/middleware/rate_limit.go.
--     Limiter/Window: the theorem.
--   Task/Document, Task/Projector: the projector of the tasks,
--     internal/infrastructure/projector/chat_to_task_read_model_projector.go, with the constants of
--     internal/domain/task/entity_state.go, and the handler of events that calls it,
--     internal/infrastructure/eventbus/task_read_model_projection_handler.go, over any event store and collection.
--     Task/Comparing, Task/Projecting, Task/Handling, Task/Skipping, Task/Statuses: the theorems.
--   Socket/Groups, Socket/Hub: hub.go and client.go of internal/infrastructure/websocket. Socket/Steps: how the loop of
--     Run, the goroutines of the clients and internal/handler/websocket/handler.go come between one another.
--     Socket/Shapes, Socket/Joining, Socket/Leaving, Socket/Soundness, Socket/Delivering, Socket/Halting, Socket/Presence: the theorems.
--   Batcher/Formats, Batcher/Batches: internal/service/change_batcher.go. Batcher/Told, Batcher/Lost, Batcher/Conserving: the theorem.
--   Access/Roles, Access/Service: the members in internal/infrastructure/repository/mongodb/workspace_repository.go and
--     internal/service/member_service.go. Access/Middleware: internal/middleware/workspace.go over
--     internal/service/workspace_access_checker.go. Access/Handlers: AddMember, RemoveMember and UpdateMemberRole of
--     internal/handler/http/workspace_handler.go. Access/Owners, Access/Granting, Access/Strangers: the theorems. Access/Routing: the
--     routes of the members in cmd/api/routes.go, and the theorem on them.
--   Access/Examples, Batcher/Examples, Task/Examples, Socket/Examples, Chat/Examples, Store/Examples, Tag/Examples, UseCase/Examples, Workspace/Examples, Message/Examples,
--     Outbox/Examples, Limiter/Examples: the theorems at concrete values.
--
-- The model: a method returns the changed chat or an error, and has changed nothing where it fails, as
-- in the code, where every check precedes the event. What a method reads of its surroundings (time.Now,
-- uuid.NewUUID) is an argument `Env`; applying an event reads the clock as well, for the joining time of a
-- participant, which is why chats are compared up to joining times (`forget`). Texts are lists of code
-- points, times are natural numbers, file sizes are integers. A Go int that counts versions is a natural
-- number; the expected version of a save, which the code gets by subtraction, is an integer. A save is
-- one step: the answers of the database, the queues and the bus are arguments.
--
-- Fuel: the parser's loops run on fuel. Each round of the loop over the tags of a line shortens the text,
-- so its length and one more is enough; each round of the search for the next tag passes two characters.
--
-- Parameters: time.Parse; the query whether a user exists; the event store, whose laws say that a save is
-- accepted at the number of the events saved, where the versions of the new events follow it, and then appends, and
-- refused at any other; the collection of the
-- workspaces, whose laws say that what was put is found, by its identity and, where no other has it, by its token, with its dates in milliseconds, and that putting
-- what is there changes nothing;
-- Keycloak, whose answers are arguments; google/uuid's test for a UUID; the repository of messages; the
-- outbox, whose laws say what its marks do to the entries and that a poll gives the oldest pending ones; echo's c.Param; the collection
-- tasks_read_model, whose laws say that a document that was put is found with its times at the precision of the database, and
-- none that was removed.
--
-- The hub: a client is a number, as its pointer, and the heap gives what the pointer leads to. What a method of
-- the hub does under its mutex is one step; what it does behind it, reading the chats of a new client and each send of an
-- announcement, are steps of their own, and other goroutines come between; only the closing of a client that was unregistered,
-- which by then is in no map, is in the step of its removal. Send of a client is one step, whose test for a closed client and
-- whose send are two in the code.
--
-- Not modelled: the MongoDB, Redis, Keycloak and HTTP code, whose work is calls of libraries, and the WebSocket connections; the queries; the
-- goroutine of SendMessage that runs the tags, and the bot's texts; the lists
-- of workspaces and members; the cleanup of the outbox; notifications, users.
pub mod Base
pub mod Errs
pub mod Text
pub mod Chat
pub mod Store
pub mod Task
pub mod Tag
pub mod UseCase
pub mod Workspace
pub mod Message
pub mod Outbox
pub mod Limiter
pub mod Socket
pub mod Batcher
pub mod Access
