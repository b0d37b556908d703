-- ===== src/Api/Streams.antt =====
-- server/internal/api/handlers.go: logs, statistics and shells over a WebSocket. The messages of the
-- browser and what the daemon streams are lists; the goroutines are separate functions.
use easy_deploy.Prelude.{
  ℕ, Bool, true, false, ltb, Option, none, some, List, [], ◌∷◌, ◌++◌, Text, codes, is_empty, ◌⊎◌,
  inl, inr, if◌then◌else◌,
}

-- What a WebSocket carries.
pub data Frame : Type 0 where
  text binary : Text → Frame

-- A connection: the frames sent, in order, whether it was closed, and whether the writes to come fail.
pub record Conn : Type 0 where
  pub sent : List Frame
  pub closed : Bool
  pub failures : List Bool

abbrev delivered : Frame → Conn → Conn
delivered f c = record c { sent = c.sent ++ f ∷ [] }

abbrev written : Frame → Conn → List Bool → Bool × Conn
written f c [] = (true, delivered f c)
written f c (fails ∷ later) =
    if fails
    then (false, record c { failures = later })
    else (true, delivered f (record c { failures = later }))

-- `conn.WriteMessage`: whether it worked.
unfoldable pub write_message : Frame → Conn → Bool × Conn
write_message f c = if c.closed then (false, c) else written f c c.failures

abbrev close : Conn → Conn
close c = record c { closed = true }

abbrev then_continue : Bool × Conn → (Conn → Conn) → Conn
then_continue (true, c) next = next c
then_continue (false, c) next = c

-- `stdcopy.StdCopy` into the writer, and the loop of `handleStats`: a text frame for each piece, until
-- a write fails or the stream ends.
unfoldable pub pump_text : List Text → Conn → Conn
unfolding write_message
pump_text [] c = c
pump_text (piece ∷ pieces) c = then_continue (write_message (text piece) c) (pump_text pieces)

abbrev explain : Text → Conn → Conn
explain message c = close (write_message (text message) c).1

-- The two handlers: `client` and `open` are `none` with the error's text where a host cannot be reached
-- or has no such container; the connection is closed at the end.
abbrev streamed : Text ⊎ List Text → Conn → Conn
streamed (inl why) c = explain (codes "error: " ++ why) c
streamed (inr pieces) c = close (pump_text pieces c)

abbrev streamed_by : {A : Type 0} → Text ⊎ A → (A → Text ⊎ List Text) → Conn → Conn
streamed_by (inl why) open_stream c = explain (codes "error: " ++ why) c
streamed_by (inr client) open_stream c = streamed (open_stream client) c

-- A request that is no WebSocket's gets no connection.
abbrev upgraded : Option Conn → (Conn → Conn) → Option Conn
upgraded none next = none
upgraded (some c) next = some (next c)

unfoldable pub handle_logs :
    {A : Type 0} → Option Conn → Text ⊎ A → (A → Text → Text ⊎ List Text) → Text → Option Conn
unfolding pump_text
handle_logs conn client logs id = upgraded conn (streamed_by client (λ cli. logs cli id))

unfoldable pub handle_stats :
    {A : Type 0} → Option Conn → Text ⊎ A → (A → Text → Text ⊎ List Text) → Text → Option Conn
unfolding pump_text
handle_stats conn client stats id = upgraded conn (streamed_by client (λ cli. stats cli id))

-- One read of the terminal: the bytes, and whether an error came with them.
abbrev pub Read : Type 0
Read = Text × Bool

abbrev session_ended : Text
session_ended = 13 ∷ 10 ∷ (codes "[session ended]" ++ (13 ∷ 10 ∷ []))

-- What the terminal's output pump sends: nothing for an empty read.
abbrev send_output : Text → Conn → Bool × Conn
send_output bytes c = if is_empty bytes then (true, c) else write_message (binary bytes) c

unfoldable pub pump_output : List Read → Conn → Conn
unfolding write_message
pump_output [] c = c
pump_output ((bytes, ended) ∷ reads) c =
    then_continue (send_output bytes c)
      (if ended then (λ d. close (write_message (text session_ended) d).1) else pump_output reads)

-- What the browser's messages do to the shell.
pub data ShellAction : Type 0 where
  -- rows and columns
  resize : ℕ → ℕ → ShellAction
  input : Text → ShellAction

-- The size in a control message: columns and rows, 0 where they are missing.
abbrev resized : Option (ℕ × ℕ) → List ShellAction
resized none = []
resized (some (cols, rows)) = if ltb 0 cols then resize rows cols ∷ [] else []

-- `parse` is `json.Unmarshal`; `takes` is whether the shell takes the bytes. The first error of a read
-- ends the list.
unfoldable pub pump_input : (Text → Option (ℕ × ℕ)) → (Text → Bool) → List Frame → List ShellAction
pump_input parse takes [] = []
pump_input parse takes (text message ∷ frames) =
    resized (parse message) ++ pump_input parse takes frames
pump_input parse takes (binary bytes ∷ frames) =
    let later = pump_input parse takes frames in if takes bytes then input bytes ∷ later else []

unfoldable pub shell_of : Text → Text
shell_of query = if is_empty query then codes "/bin/sh" else query

-- A session's start: the shell runs, or the browser is told why not.
abbrev pub started : Text ⊎ Text → Conn → Option Text × Conn
started (inl why) c = (none, explain (codes "exec failed: " ++ why) c)
started (inr exec_id) c = (some exec_id, c)

abbrev pub on_client : {A : Type 0} → Text ⊎ A → (A → Text ⊎ Text) → Conn → Option Text × Conn
on_client (inl why) exec c = (none, explain (codes "error: " ++ why) c)
on_client (inr client) exec c = started (exec client) c

unfoldable pub open_shell :
    {A : Type 0}
    → Text ⊎ A
    → (A → Text → List Text → Text ⊎ Text)
    → Text
    → Text
    → Conn
    → Option Text × Conn
unfolding shell_of write_message
open_shell client exec id query = on_client client (λ cli. exec cli id (shell_of query ∷ []))
