-- ===== src/FilePersister/Complete.antt =====
-- _examples/custom_persister.go with persister.go: all that the interface promises.
use mathlib.Core.Bool.{true≢false}
use health_go.Base.{
  String, true, false, none, [], ◌≡◌, refl, sym, ◌∙◌, ap, ◌==◌, if◌then◌else◌, inl, inr, Bool-cases,
}
use health_go.Base.GoMap.{GoMap, get, get-empty}
use health_go.Types.{EventTrackerState, CheckState}
use health_go.Persister
use health_go.Persister.{StatePersister}
use health_go.FilePersister.{
  Directory, Json, file_persister, load_file, check_file, tracker_file, load_entries, load_all,
  delete_state,
}
use health_go.FilePersister.Names.{IsPlain, base-plain, check_file-eq, check_file-tracker}
use health_go.FilePersister.Contract
use health_go.FilePersister.Contract.{IsFaithful, file_persister-IsReliable}
use health_go.FilePersister.Listing.{
  IsListing, has_file, Content-cases, or_else-none, load_entries-get,
}

module _ {F C : Type 0} (dir : Directory F C) (reliable : Contract.IsReliable dir)
    (listing : IsListing dir) (tracker_json : Json C EventTrackerState)
    (check_json : Json C CheckState) (tracker_faithful : IsFaithful tracker_json)
    (check_faithful : IsFaithful check_json) where
  deleted-load :
      {T : Type 0} (json : Json C T) (what : String) (j k : String) (f : F)
      → load_file dir json what j (dir.remove k f).0
        ≡ (if k == j then (none, none) else load_file dir json what j f)
  unfolding load_file
  deleted-load json what j k f = elim (Bool-cases (k == j)) [
    | inl same ↦ rw same (rw (load_file, listing.removed, same) refl)
    | inr apart ↦ rw apart (rw (load_file, listing.removed, apart) refl)
  ]

  -- what cannot be found in a list of the directory cannot be read
  unlisted-unread :
      (file : String) (f : F)
      → has_file file (listing.entries f) ≡ false
      → (load_file dir check_json "check state" file f).0 ≡ none
  unfolding load_file
  unlisted-unread file f absent = elim (Content-cases (dir.read_file file f)) [
    | inl e ↦ rw (load_file, e) refl
    | inr (inl found) ↦ rw (load_file, found.1) refl
    | inr (inr found) ↦
        let there : has_file file (listing.entries f) ≡ true =
          listing.covers file found.0 f found.1 in
        absurd (true≢false (sym there ∙ absent))
  ]

  load_all-get :
      (j : String) (f : F)
      → IsPlain j
      → get j (load_all dir tracker_json check_json f).0
        ≡ (load_file dir check_json "check state" (check_file j) f).0
  unfolding load_all
  load_all-get j f plain =
      let states : GoMap CheckState =
        load_entries dir tracker_json check_json f (listing.entries f) [] in
      let all : (load_all dir tracker_json check_json f).0 ≡ states =
        rw (load_all, listing.listed) refl in
      ap (get j) all
      ∙ load_entries-get dir tracker_json check_json f j (listing.entries f) [] plain
      ∙ elim (Bool-cases (has_file (check_file j) (listing.entries f))) [
        | inr absent ↦ rw (absent, get-empty) (sym (unlisted-unread (check_file j) f absent))
        | inl there ↦
            rw (there, get-empty)
              (or_else-none (load_file dir check_json "check state" (check_file j) f).0)
      ]

  -- On a directory that does not fail, the persister keeps all that the interface promises, for checks
  -- whose names are not empty and have no slash: a state is loaded as it was saved last, and touches
  -- no other one; one that is deleted is there no more, with the others left; and the list of all states has
  -- for each name the state that is loaded for it. JSON encodes and decodes the states.
  pub file_persister-IsComplete :
      Persister.IsComplete IsPlain (file_persister dir tracker_json check_json)
  unfolding file_persister delete_state load_all
  file_persister-IsComplete = record {
    reliable =
        file_persister-IsReliable dir reliable tracker_json check_json tracker_faithful
          check_faithful;
    check_deleted = λ j k f plain_j plain_k.
        let same_file : (k == j) ≡ (check_file k == check_file j) =
          sym (check_file-eq j k ∙ rw (base-plain plain_j, base-plain plain_k) refl) in
        rw same_file (deleted-load check_json "check state" (check_file j) (check_file k) f);
    tracker_left = λ k f.
        let left = deleted-load tracker_json "event tracker state" tracker_file (check_file k) f in
        rw check_file-tracker at left;
    all_listed = λ f. rw (load_all, listing.listed) refl;
    all_loaded = λ j f plain. load_all-get j f plain;
  }
