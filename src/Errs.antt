-- ===== src/Errs.antt =====
-- internal/domain/errs/errors.go, the errors that the chat aggregate makes with errors.New
-- (internal/domain/chat/chat.go: Delete, Close, Reopen), and ErrConcurrentUpdate of
-- internal/application/appcore/errors.go.

pub data Error : Type 0 where
  not_found already_exists invalid_input unauthorized forbidden : Error
  concurrent_modification concurrent_update invalid_state invalid_transition : Error
  chat_already_deleted cannot_close_discussion chat_already_closed chat_not_closed : Error
  -- an error that only its text tells apart, as fmt.Errorf makes it
  failed : Error
