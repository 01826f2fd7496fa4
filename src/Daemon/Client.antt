-- ===== src/Daemon/Client.antt =====
-- src/contexts/daemon/infrastructure/daemon_client.rs: a request to the daemon over its socket.
use merge_ready.Prelude.{ℕ, Text, Bool, true, false, Option, none, some, List, if◌then◌else◌, trim}
use merge_ready.Shared.{EntryDto, Request, stop, status, entries, Response, output, ok}

-- What a request meets: whether the socket takes the connection and the request's line, and the
-- line that is read within the timeout.
pub record Exchange : Type 0 where
  pub connects : Bool
  pub sends : Bool
  pub line : Option Text

read_reply : (Text → Option Response) → Option Text → Option Response
read_reply from_str none = none
read_reply from_str (some buf) = from_str (trim buf)

write_and_read : (Text → Option Response) → Exchange → Option Text → Option Response
unfolding read_reply
write_and_read from_str x none = none
write_and_read from_str x (some json) = if x.sends then read_reply from_str x.line else none

-- `send`: `to_string` and `from_str` are serde_json's; every error is the same.
unfoldable pub send :
    (Request → Option Text) → (Text → Option Response) → Exchange → Request → Option Response
unfolding write_and_read
send to_string from_str x request =
    if x.connects then write_and_read from_str x (to_string request) else none

pub record DaemonStatus : Type 0 where
  pub entries : ℕ
  pub uptime_secs : ℕ
  pub version : Text

status_of : Option Response → Option DaemonStatus
status_of (some (Response.status n uptime v)) =
    some (record { entries = n; uptime_secs = uptime; version = v })
status_of (some (output _)) = none
status_of (some ok) = none
status_of (some (Response.entries _)) = none
status_of none = none

entries_of : Option Response → Option (List EntryDto)
entries_of (some (Response.entries es)) = some es
entries_of (some (output _)) = none
entries_of (some ok) = none
entries_of (some (Response.status _ _ _)) = none
entries_of none = none

is_answered : Option Response → Bool
is_answered none = false
is_answered (some _) = true

module _ (to_string : Request → Option Text) (from_str : Text → Option Response) where
  -- `DaemonClient::stop`: any answer will do.
  unfoldable pub send_stop : Exchange → Bool
  unfolding is_answered
  send_stop x = is_answered (send to_string from_str x stop)

  -- `status_raw`, as `get_status` gives it
  unfoldable pub get_status : Exchange → Option DaemonStatus
  unfolding status_of
  get_status x = status_of (send to_string from_str x status)

  -- `entries_raw`
  unfoldable pub get_entries : Exchange → Option (List EntryDto)
  unfolding entries_of
  get_entries x = entries_of (send to_string from_str x entries)
