-- ===== src/Cache/StateFile.antt =====
-- internal/cache/state.go: LoadState and SaveState, which keep the state in `state.json`.
-- JSON is the parameter `codec`; the operating system's answers are the arguments of each call.
pub mod Atomic
use complytime.Base.{String, Bool, true, false, Option, none, some, [], if◌then◌else◌}
use complytime.Base.Result.{Result, Check, ok, err}
use complytime.Cache.State.{State, init_state_maps, exclude_malformed_digests}

-- `json.MarshalIndent` and `json.Unmarshal` at the type `State`; `none` is an error.
pub record Codec : Type 0 where
  pub encode : State → Option String
  pub decode : String → Option State

-- The data directory: the state file and the temporary file beside it, if they exist.
pub record Disk : Type 0 where
  pub state_file : Option String
  pub temp_file : Option String

pub data FileError : Type 0 where
  create_directory marshal create_temp write_temp set_permissions close_temp rename_temp : FileError
  read_file parse_file : FileError

-- Which of the calls of one SaveState fail. A failed write may leave some part of the text.
pub record Faults : Type 0 where
  pub mkdir : Bool
  pub create : Bool
  pub write : Option String
  pub chmod : Bool
  pub close : Bool
  pub rename : Bool
  pub remove : Bool

abbrev pub no_faults : Faults
no_faults = record {
  mkdir = false;
  create = false;
  write = none;
  chmod = false;
  close = false;
  rename = false;
  remove = false;
}

-- `_ = os.Remove(tmpPath)`, whose error is dropped.
unfoldable pub remove_temp : Faults → Disk → Disk
remove_temp f d = if f.remove then d else record d { temp_file = none }

-- From `os.CreateTemp` on: every error after it removes the temporary file.
unfoldable pub replace_file : Faults → String → Disk → Disk × Check FileError
unfolding remove_temp
replace_file f text d = if f.create then (d, err create_temp) else elim f.write [
  | some part ↦ (remove_temp f (record d { temp_file = some part }), err write_temp)
  | none ↦
      let written = record d { temp_file = some text } in
      if f.chmod
      then (remove_temp f written, err set_permissions)
      else if f.close
      then (remove_temp f written, err close_temp)
      else if f.rename
      then (remove_temp f written, err rename_temp)
      else (record { state_file = some text; temp_file = none }, ok tt)
]

unfoldable pub save_state : Codec → Faults → State → Disk → Disk × Check FileError
unfolding replace_file
save_state codec f s d =
    if f.mkdir
    then (d, err create_directory)
    else elim (codec.encode s) [ none ↦ (d, err marshal) | some text ↦ replace_file f text d ]

abbrev pub fresh_state : State
fresh_state = record { last_sync = 0; policies = some []; complypacks = some [] }

-- `unreadable` is an error of `os.ReadFile` other than that the file does not exist.
unfoldable pub load_state : (String → Bool) → Codec → Bool → Disk → Result FileError State
load_state digest_ok codec unreadable d = if unreadable then err read_file else elim d.state_file [
  | none ↦ ok fresh_state
  | some text ↦ elim (codec.decode text) [
    | none ↦ err parse_file
    | some s ↦ ok (exclude_malformed_digests digest_ok (init_state_maps s))
  ]
]
