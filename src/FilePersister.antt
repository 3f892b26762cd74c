-- ===== src/FilePersister.antt =====
-- _examples/custom_persister.go: a persister that keeps each state as a JSON file in a directory.
-- The directory is a parameter, with the calls of `os` on it, and so is `encoding/json`; a path is
-- the name in the directory.
pub mod Names
pub mod Contract
pub mod Listing
pub mod Complete
use Prim.Native.Char.{Char, code}
use health_go.Base.{
  String, Bool, true, false, not, ◌||◌, ◌⊎◌, inl, inr, Option, none, some, List, [], ◌∷◌, ◌==◌, eqb,
  if◌then◌else◌,
}
use health_go.Base.Text.{◌<>◌, strip_prefix, strip_suffix}
use health_go.Base.GoMap.{GoMap, put}
use health_go.Types.{Error, EventTrackerState, CheckState}
use health_go.Persister.{StatePersister}
pub use health_go.Base.Json.{Json}

abbrev pub is_slash : Char → Bool
is_slash c = eqb (code c) 47

unfoldable pub has_slash : String → Bool
has_slash String.[] = false
has_slash (String.◌∷◌ c s) = is_slash c || has_slash s

unfoldable pub trim_slashes : String → String
trim_slashes String.[] = String.[]
trim_slashes (String.◌∷◌ c s) =
    let rest = trim_slashes s in
    if is_slash c then (if rest == "" then String.[] else String.◌∷◌ c rest) else String.◌∷◌ c rest

unfoldable pub last_segment : String → String
unfolding has_slash
last_segment String.[] = String.[]
last_segment (String.◌∷◌ c s) =
    let rest = last_segment s in
    if has_slash s then rest else if is_slash c then s else String.◌∷◌ c s

-- `filepath.Base` where the separator is a slash
unfoldable pub base : String → String
unfolding trim_slashes last_segment
base path =
    let name = last_segment (trim_slashes path) in
    if path == "" then "." else if name == "" then "/" else name

abbrev pub tracker_file : String
tracker_file = "event_tracker.json"

unfoldable pub check_file : String → String
unfolding base
check_file check_name = "check_" <> (base check_name <> ".json")

-- what `os.ReadFile` returns: the content, an error of a file that does not exist, or another one
pub data Content (C : Type 0) : Type 0 where
  contents : C → Content C
  missing : Content C
  failed : String → Content C

pub record Entry : Type 0 where
  pub name : String
  pub is_dir : Bool

-- the calls of `os`; `remove` is `none` for a file that does not exist, too
pub record Directory (F C : Type 0) : Type 0 where
  pub mkdir_all : F → F × Error
  pub write_file : String → C → F → F × Error
  pub read_file : String → F → Content C
  pub read_dir : F → List Entry ⊎ String
  pub remove : String → F → F × Error

abbrev pub wrapped : String → Error → Error
wrapped message none = none
wrapped message (some e) = some (message <> ": " <> e)

-- the name of the check in the name of a file: at least one character between the two ends
unfoldable pub listed_name : String → Option String
listed_name name = elim (strip_prefix "check_" name) [
  | none ↦ none
  | some rest ↦ elim (strip_suffix ".json" rest) [
    | none ↦ none
    | some check_name ↦ if check_name == "" then none else some check_name
  ]
]

module _ {F C : Type 0} (dir : Directory F C) where
  -- `NewFilePersister`
  unfoldable pub new_file_persister : F → F ⊎ String
  new_file_persister f =
      let (made, e) = dir.mkdir_all f in
      elim e [ none ↦ inl made | some m ↦ inr ("failed to create directory: " <> m) ]

  module _ {T : Type 0} (json : Json C T) (what : String) where
    -- the saving and the loading of a state in a file
    unfoldable pub save_file : String → T → F → F × Error
    save_file path state f = elim (json.marshal state) [
      | inr e ↦ (f, some ("failed to marshal " <> (what <> (": " <> e))))
      | inl bytes ↦
          let (f', e) = dir.write_file path bytes f in (f', wrapped ("failed to write " <> what) e)
    ]

    unfoldable pub load_file : String → F → Option T × Error
    load_file path f = elim (dir.read_file path f) [
      | missing ↦ (none, none)
      | failed e ↦ (none, some ("failed to read " <> (what <> (": " <> e))))
      | contents bytes ↦ elim (json.unmarshal bytes) [
        | inr e ↦ (none, some ("failed to unmarshal " <> (what <> (": " <> e))))
        | inl state ↦ (some state, none)
      ]
    ]

  module _ (tracker_json : Json C EventTrackerState) (check_json : Json C CheckState) where
    -- one round of the loop over the directory; a file that cannot be read or parsed is logged
    unfoldable pub load_entry : F → Entry → GoMap CheckState → GoMap CheckState
    unfolding listed_name
    load_entry f entry states = elim (listed_name entry.name) [
      | none ↦ states
      | some check_name ↦ if entry.is_dir then states else elim (dir.read_file entry.name f) [
        | missing ↦ states
        | failed e ↦ states
        | contents bytes ↦ elim (check_json.unmarshal bytes) [
          | inr e ↦ states
          | inl state ↦ put check_name state states
        ]
      ]
    ]

    unfoldable pub load_entries : F → List Entry → GoMap CheckState → GoMap CheckState
    unfolding load_entry
    load_entries f [] states = states
    load_entries f (entry ∷ entries) states = load_entries f entries (load_entry f entry states)

    -- a nil map is the empty one
    unfoldable pub load_all : F → GoMap CheckState × Error
    unfolding load_entries
    load_all f = elim (dir.read_dir f) [
      | inr e ↦ ([], some ("failed to read directory: " <> e))
      | inl entries ↦ (load_entries f entries [], none)
    ]

    unfoldable pub delete_state : String → F → F × Error
    unfolding check_file
    delete_state check_name f =
        let (f', e) = dir.remove (check_file check_name) f in
        (f', wrapped "failed to delete check state" e)

    -- `FilePersister`
    unfoldable pub file_persister : StatePersister F
    unfolding save_file load_file load_all delete_state
    file_persister = record {
      save_event_tracker_state = save_file tracker_json "event tracker state" tracker_file;
      load_event_tracker_state = load_file tracker_json "event tracker state" tracker_file;
      save_check_state = λ name. save_file check_json "check state" (check_file name);
      load_check_state = λ name. load_file check_json "check state" (check_file name);
      load_all_check_states = load_all;
      delete_check_state = delete_state;
      close = λ f. (f, none);
    }
