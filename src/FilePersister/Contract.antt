-- ===== src/FilePersister/Contract.antt =====
-- _examples/custom_persister.go with persister.go: the persister keeps what the interface promises of
-- saving and loading for checks whose names are one segment of a path, on a directory that does not fail.
use health_go.Base.{
  String, true, false, none, some, ◌≡◌, refl, ◌∙◌, arith, ◌==◌, if◌then◌else◌, inl, inr, Bool-cases,
  eq_refl, eq_iff,
}
use health_go.Types.{EventTrackerState, CheckState}
use health_go.Persister
use health_go.Persister.{StatePersister}
use health_go.FilePersister.{
  contents, Directory, Json, file_persister, save_file, load_file, check_file, tracker_file, base,
}
use health_go.FilePersister.Names.{IsPlain, base-plain, check_file-eq, check_file-tracker}
pub use health_go.Base.Json.{IsFaithful}

-- What a directory that does not fail promises: a file that is written has its content, and no
-- other file changes.
pub record IsReliable {F C : Type 0} (dir : Directory F C) : Type 0 where
  pub written :
      (j k : String) (c : C) (f : F)
      → dir.read_file j (dir.write_file k c f).0
        ≡ (if k == j then contents c else dir.read_file j f)

module _ {F C : Type 0} (dir : Directory F C) (reliable : IsReliable dir) where
  save_file-writes :
      {T : Type 0} (json : Json C T) (what : String) (faithful : IsFaithful json) (k : String)
      (state : T) (f : F)
      → (save_file dir json what k state f).0 ≡ (dir.write_file k (faithful.encoded state) f).0
  unfolding save_file
  save_file-writes json what faithful k state f = rw (save_file, faithful.marshalled state) refl

  load_file-save_file :
      {T : Type 0} (json : Json C T) (what : String)
      → IsFaithful json
      → (j k : String) (state : T) (f : F) → (k == j) ≡ true
      → load_file dir json what j (save_file dir json what k state f).0 ≡ (some state, none)
  unfolding load_file
  load_file-save_file json what faithful j k state f same =
      rw (save_file-writes json what faithful k state f)
        (rw (load_file, reliable.written, same) (rw (faithful.unmarshalled state) refl))

  load_file-other :
      {T U : Type 0} (json : Json C T) (other : Json C U) (what which : String)
      → IsFaithful json
      → (j k : String) (state : T) (f : F) → (k == j) ≡ false
      → load_file dir other which j (save_file dir json what k state f).0
        ≡ load_file dir other which j f
  unfolding load_file
  load_file-other json other what which faithful j k state f apart =
      rw (save_file-writes json what faithful k state f)
        (rw (load_file, reliable.written, apart) refl)

  module _ (tracker_json : Json C EventTrackerState) (check_json : Json C CheckState)
      (tracker_faithful : IsFaithful tracker_json) (check_faithful : IsFaithful check_json) where
    abbrev p : StatePersister F
    p = file_persister dir tracker_json check_json

    -- On a directory that does not fail, the persister keeps what the interface promises of saving and loading, for
    -- checks whose names are not empty and have no slash.
    pub file_persister-IsReliable : Persister.IsReliable IsPlain p
    unfolding file_persister
    file_persister-IsReliable = record {
      tracker_saved = λ tracker f.
          load_file-save_file tracker_json "event tracker state" tracker_faithful tracker_file
            tracker_file tracker f (eq_refl tracker_file);
      check_saved = λ j k state f plain_j plain_k.
          let same_file : (check_file k == check_file j) ≡ (k == j) =
            check_file-eq j k ∙ rw (base-plain plain_j, base-plain plain_k) refl in
          elim (Bool-cases (k == j)) [
            | inl e ↦ rw e (
                load_file-save_file check_json "check state" check_faithful (check_file j)
                  (check_file k) state f (same_file ∙ e))
            | inr e ↦ rw e (
                load_file-other check_json check_json "check state" "check state" check_faithful
                  (check_file j) (check_file k) state f (same_file ∙ e))
          ];
      checks_kept = λ j tracker f.
          load_file-other tracker_json check_json "event tracker state" "check state"
            tracker_faithful (check_file j) tracker_file tracker f
            (ground (
              arith,
              eq_iff tracker_file (check_file j),
              eq_iff (check_file j) tracker_file,
              check_file-tracker j,
            ));
      tracker_kept = λ k state f.
          load_file-other check_json tracker_json "check state" "event tracker state" check_faithful
            tracker_file (check_file k) state f (check_file-tracker k);
    }

    -- Two checks whose names have the same last segment share a file: after the one is saved, the other
    -- is loaded with its state.
    pub file_persister-mixes :
        (j k : String) (state : CheckState) (f : F)
        → base k ≡ base j
        → p.load_check_state j (p.save_check_state k state f).0 ≡ (some state, none)
    unfolding file_persister
    file_persister-mixes j k state f same =
        load_file-save_file check_json "check state" check_faithful (check_file j) (check_file k)
          state f (check_file-eq j k ∙ (eq_iff (base k) (base j)).1 same)
