-- ===== src/Tag/Examples.antt =====
-- The theorems on tags at concrete messages, chats and operations.
use flowra.Base.{
  ℕ, suc, zero, same, Text, text, Bool, true, false, Option, none, List, [], ◌∷◌, map, ◌≡◌, refl,
  Result, ok, err,
}
use flowra.Text.{split, trim_space, trim_left, trim_right, is_space, cut_pair, equal_fold, fold}
use flowra.Errs.{Error, concurrent_modification, invalid_input}
use flowra.Chat.Types.{task, bug, is_discussion, Chat, empty_chat}
use flowra.Chat.Apply.{apply_event}
use flowra.Chat.Methods.{new_chat, raise}
use flowra.Chat.Entity
use flowra.Chat.Examples.{an_env, a_chat}
use flowra.Tag.Types.{
  task_entity, bug_entity, change_status, change_priority, set_severity, TagApplication, ParsedTag,
}
use flowra.Tag.Parser.{parse, is_known_tag, starts_hash}
use flowra.Tag.Processor.{check_tag, status_tag, priority_tag, severity_tag}
use flowra.Tag.Written.{IsWritable}
use flowra.Tag.Printing.{Line, tag_line, text_line, line_of, tags_in, text_in, parse-written}
use flowra.Tag.Accepted.{status_accepted, trivial_severity_refused}
use flowra.Tag.Validators
use flowra.Tag.Executor.{retry}
use flowra.Tag.Retrying.{RunsTo, retry_lem}

abbrev no_dates : Text → Text → Option ℕ
no_dates layout v = none

abbrev a_message : Text
a_message =
    text "#bug Login fails #severity major #nope x\nSince noon.\n\n #assignee @ann #due soon"

-- Two tags on the second line, of which one has a value of two words.
abbrev a_priority : ParsedTag
a_priority = record { key = text "priority"; value = text "High" }

abbrev a_title : ParsedTag
a_title = record { key = text "title"; value = text "New door" }

abbrev written_lines : List Line
written_lines =
    text_line (text "Please look")
    ∷ tag_line (a_title ∷ a_priority ∷ [])
    ∷ text_line (text "soon")
    ∷ []

abbrev written_message : Text
written_message = text "Please look\n#title New door #priority High\nsoon"

written_message-lines : split b'\n' written_message ≡ map line_of written_lines
unfolding split
written_message-lines = refl

title-IsWritable : IsWritable a_title
unfolding is_known_tag same trim_left trim_right is_space cut_pair
title-IsWritable = record {
  known = refl;
  filled = refl;
  trimmed_left = refl;
  trimmed_right = refl;
  no_hash = refl;
  no_tag = refl;
}

priority-IsWritable : IsWritable a_priority
unfolding is_known_tag same trim_left trim_right is_space cut_pair
priority-IsWritable = record {
  known = refl;
  filled = refl;
  trimmed_left = refl;
  trimmed_right = refl;
  no_hash = refl;
  no_tag = refl;
}

text_lines :
    (starts_hash (trim_space (text "Please look")) ≡ false)
    × (starts_hash (trim_space (text "soon")) ≡ false)
unfolding trim_space trim_left trim_right is_space
text_lines = (refl, refl)

parse-written_example :
    ((parse written_message).tags ≡ tags_in written_lines)
    × ((parse written_message).plain_text ≡ trim_space (text_in written_lines))
parse-written_example =
    parse-written written_message written_lines written_message-lines
      (text_lines.0, ((title-IsWritable, (priority-IsWritable, tt)), (text_lines.1, tt)))

abbrev status_application : TagApplication
status_application = record {
  tag_key = text "status";
  tag_value = text "In Progress";
  command = change_status (text "c1") (text "In Progress");
  success = true;
}

status_checked :
    check_tag no_dates (text "c1") status_tag task_entity (text "status") (text "in progress")
    ≡ ok status_application
unfolding check_tag Validators.validate_status Validators.match_case_insensitive equal_fold fold
    same
status_checked = refl

a_chat-task : a_chat.chat_type ≡ task
unfolding new_chat raise apply_event
a_chat-task = refl

a_chat-typed : is_discussion a_chat.chat_type ≡ false
unfolding new_chat raise apply_event
a_chat-typed = refl

status_accepted_example :
    (s : Text) × (status_application.command ≡ change_status (text "c1") s)
    × ((c' : Chat) × (Entity.change_status an_env s (text "bob") a_chat ≡ ok c'))
status_accepted_example =
    status_accepted no_dates (text "c1") an_env (text "bob") a_chat task_entity (text "status")
      (text "in progress") status_application a_chat-task status_checked

abbrev priority_application : TagApplication
priority_application = record {
  tag_key = text "priority";
  tag_value = text "High";
  command = change_priority (text "c1") (text "High");
  success = true;
}

priority_checked :
    check_tag no_dates (text "c1") priority_tag task_entity (text "priority") (text "HIGH")
    ≡ ok priority_application
unfolding check_tag Validators.validate_priority Validators.match_case_insensitive equal_fold fold
    same
priority_checked = refl

-- A bug.
abbrev a_bug : Chat
a_bug = record empty_chat { id = text "c2"; chat_type = bug }

trivial_folded : equal_fold (text "trivial") (text "Trivial") ≡ true
unfolding equal_fold fold same
trivial_folded = refl

trivial_severity_refused_example :
    (a : TagApplication) × (check_tag no_dates
        (text "c2")
        severity_tag
        bug_entity
        (text "severity")
        (text "trivial")
      ≡ ok a)
    × (a.command ≡ set_severity (text "c2") (text "Trivial"))
    × (Entity.set_severity an_env (text "Trivial") (text "bob") a_bug ≡ err invalid_input)
trivial_severity_refused_example =
    trivial_severity_refused no_dates (text "c2") an_env (text "bob") a_bug (text "severity")
      (text "trivial") trivial_folded refl

-- An operation that ends in a conflict as often as its state says.
abbrev conflicting : ℕ → Result Error (Unit {0}) × ℕ
conflicting zero = (ok tt, 0)
conflicting (suc n) = (err concurrent_modification, n)

abbrev never_done : ℕ → Bool
never_done n = false

-- Three conflicts and a success.
retry_lem_example : RunsTo conflicting never_done 3 (retry conflicting never_done 3)
retry_lem_example = retry_lem conflicting never_done 3
