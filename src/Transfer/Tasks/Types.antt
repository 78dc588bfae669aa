-- ===== src/Transfer/Tasks/Types.antt =====
-- transfer/upload_tasks.go: the data of the upload manager, its constants and its constructor.
use mcpplane.Common.{
  ℕ, ◌+◌, ◌*◌, String, Bool, true, false, Option, List, [], if◌then◌else◌, Dict, str_eq, ℤ,
  positive_or, minute,
}

pub data UploadTaskState : Type 0 where
  prepared queued running completed failed cancelled expired : UploadTaskState

pub record UploadTask (R : Type 0) : Type 0 where
  pub id : String
  pub name : String
  pub state : UploadTaskState
  pub created_at : ℕ
  pub started_at : Option ℕ
  pub finished_at : Option ℕ
  pub result : Option R
  pub err : String

-- `has_reader` and `close_once` are the owned reader and its sync.Once; `closes` counts the calls of
-- the reader's Close. A `prepared_ttl` of 0 is an unset one.
pub record TrackedTask (R : Type 0) : Type 0 where
  pub task : UploadTask R
  pub has_reader : Bool
  pub close_once : Bool
  pub closes : ℕ
  pub timed_out : Bool
  pub prepared_ttl : ℕ
  pub archive_mode : String
  pub wrap : Bool

-- Negative limits act as 0, which is no limit.
pub record UploadTaskManager (R : Type 0) : Type 0 where
  pub tasks : Dict (TrackedTask R)
  pub tombstones : Dict (UploadTask R)
  pub tombstone_order : List String
  pub has_exec : Bool
  pub ttl : ℕ
  pub max_active : ℕ
  pub prepared_ttl : ℕ
  pub max_prepared : ℕ

pub data UploadError : Type 0 where
  not_configured too_many_active too_many_prepared : UploadError
  handle_expired unknown_handle in_progress : String → UploadError
  already_finished cannot_fulfill not_cancellable : String → UploadTaskState → UploadError

abbrev pub default_upload_name : String
default_upload_name = "upload"

-- defaultPreparedTTL, the endpoint's DefaultHTTPUploadTTL
abbrev pub default_prepared_ttl : ℕ
default_prepared_ttl = 5 * minute

abbrev pub default_max_active : ℕ
default_max_active = 8

abbrev pub default_max_prepared : ℕ
default_max_prepared = 64

abbrev pub exec_timeout_message : String
exec_timeout_message = "upload exceeded execution timeout"

abbrev pub lapsed_message : String
lapsed_message =
    "upload handle expired before any bytes were supplied (presigned endpoint window lapsed)"

-- if name == "" { name = fallback }
abbrev pub name_or : String → String → String
name_or name fallback = if str_eq name "" then fallback else name

module _ {R : Type 0} where
  unfoldable pub new_upload_task_manager : Bool → ℤ → UploadTaskManager R
  new_upload_task_manager exec ttl = record {
    tasks = [];
    tombstones = [];
    tombstone_order = [];
    has_exec = exec;
    ttl = positive_or ttl (15 * minute);
    max_active = default_max_active;
    prepared_ttl = default_prepared_ttl;
    max_prepared = default_max_prepared;
  }

  unfoldable pub close_reader : TrackedTask R → TrackedTask R
  close_reader t = if t.close_once then t else record t {
    has_reader = false;
    close_once = true;
    closes = (if t.has_reader then t.closes + 1 else t.closes);
  }

abbrev pub is_active : UploadTaskState → Bool
is_active queued = true
is_active running = true
is_active _ = false

abbrev pub is_prepared : UploadTaskState → Bool
is_prepared prepared = true
is_prepared _ = false

abbrev pub is_terminal : UploadTaskState → Bool
is_terminal completed = true
is_terminal failed = true
is_terminal cancelled = true
is_terminal _ = false

abbrev pub is_queued : UploadTaskState → Bool
is_queued queued = true
is_queued _ = false
