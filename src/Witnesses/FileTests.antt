-- ===== src/Witnesses/FileTests.antt =====
-- _examples/custom_persister.go: a directory in memory, and the theorems at concrete inputs.
use health_go.Base.{
  String, true, false, Bool-cases, List, ◌∷◌, ◌==◌, none, some, [], ◌≡◌, refl, ◌⊎◌, inl, inr, arith,
}
use health_go.Base.Int.{pos}
use health_go.Base.GoMap.{GoMap, get, put, delete, get-put, get-delete}
use health_go.Types.{critical, EventTrackerState, CheckState}
use health_go.Persister
use health_go.FilePersister.{
  contents, missing, Content, Entry, Directory, Json, file_persister, base,
}
use health_go.FilePersister.Listing.{IsListing, has_file}
use health_go.FilePersister.Names.{IsPlain}
use health_go.FilePersister.Complete.{file_persister-IsComplete}
use health_go.FilePersister.Contract.{IsReliable, IsFaithful, file_persister-mixes}

-- a file that holds a state
abbrev pub Bytes : Type 0
Bytes = EventTrackerState ⊎ CheckState

abbrev pub Files : Type 0
Files = GoMap Bytes

abbrev entries_of : Files → List Entry
entries_of [] = []
entries_of ((name, bytes) ∷ f) = record { name = name; is_dir = false } ∷ entries_of f

abbrev read_from : String → Files → Content Bytes
read_from name f = elim (get name f) [ none ↦ missing | some bytes ↦ contents bytes ]

entries_of-covers :
    (name : String) (bytes : Bytes) (f : Files)
    → read_from name f ≡ contents bytes
    → has_file name (entries_of f) ≡ true
unfolding get
entries_of-covers name bytes [] found = cc
entries_of-covers name bytes ((k, b) ∷ f) found = elim (Bool-cases (k == name)) [
  | inl same ↦ rw same refl
  | inr apart ↦ rw apart (entries_of-covers name bytes f (rw (read_from, apart) at found))
]

abbrev pub directory : Directory Files Bytes
directory = record {
  mkdir_all = λ f. (f, none);
  write_file = λ name bytes f. (put name bytes f, none);
  read_file = read_from;
  read_dir = λ f. inl (entries_of f);
  remove = λ name f. (delete name f, none);
}

pub directory-IsReliable : IsReliable directory
directory-IsReliable = record { written = λ j k bytes f. ground (arith, get-put j k bytes f) }

abbrev pub tracker_json : Json Bytes EventTrackerState
tracker_json = record {
  marshal = λ state. inl (inl state);
  unmarshal = λ bytes. elim bytes [ inl state ↦ inl state | inr state ↦ inr "not a tracker" ];
}

abbrev pub check_json : Json Bytes CheckState
check_json = record {
  marshal = λ state. inl (inr state);
  unmarshal = λ bytes. elim bytes [ inl state ↦ inr "not a check" | inr state ↦ inl state ];
}

pub tracker_json-IsFaithful : IsFaithful tracker_json
tracker_json-IsFaithful = record {
  encoded = inl;
  marshalled = λ state. refl;
  unmarshalled = λ state. refl;
}

pub check_json-IsFaithful : IsFaithful check_json
check_json-IsFaithful = record {
  encoded = inr;
  marshalled = λ state. refl;
  unmarshalled = λ state. refl;
}

directory-IsListing : IsListing directory
directory-IsListing = record {
  removed = λ j k f. ground (arith, get-delete j k f);
  entries = entries_of;
  listed = λ f. refl;
  covers = entries_of-covers;
}

file_persister-IsComplete_example :
    Persister.IsComplete IsPlain (file_persister directory tracker_json check_json)
file_persister-IsComplete_example =
    file_persister-IsComplete directory directory-IsReliable directory-IsListing tracker_json
      check_json tracker_json-IsFaithful check_json-IsFaithful

abbrev state : CheckState
state = record {
  successes = pos 0;
  failures = pos 3;
  pending_event_id = "";
  status = critical;
  error_msg = "refused";
  action_runner_state = none;
  updated_at = 5;
}

same_base : base "eu/db" ≡ base "us/db"
unfolding base
same_base = refl

file_persister-mixes_example :
    (file_persister directory tracker_json check_json).load_check_state "us/db"
      ((file_persister directory tracker_json check_json).save_check_state "eu/db" state []).0
    ≡ (some state, none)
file_persister-mixes_example =
    file_persister-mixes directory directory-IsReliable tracker_json check_json
      tracker_json-IsFaithful check_json-IsFaithful "us/db" "eu/db" state [] same_base
