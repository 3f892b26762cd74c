-- ===== src/Sqlite/Steps/Kept.antt =====
-- persister/sqlite/sqlite.go: what no interleaving loses.
use health_go.Base.{
  String, Bool, true, false, Option, none, some, List, [], ◌∷◌, ◌++◌, ℕ, zero, suc, ◌≡◌, refl, ◌∙◌,
  sym, ap, arith, ◌&&◌, ◌==◌, if◌then◌else◌, Bool-cases, inl, inr,
}
use health_go.Base.Lists.{All}
use health_go.Base.GoMap.{get, get-put, IsMap, put-IsMap}
use health_go.Types.{Error}
use health_go.Sqlite.{Database, Persister, CheckRow, check_row, save_check, save_tracker}
use health_go.Sqlite.Batches.{IsReliable}
use health_go.Sqlite.Steps.{
  FlushPhase, firing, stopping, taking, holding, closing, finished, next_section, write_batch,
  close_once, Flushing, Access, saved, saved_event, fired, close_called, moved, move_thread, access,
  accesses,
}
use health_go.Sqlite.Steps.Held.{single, held, layered, IsTidy, overlay, move_thread-overlay}

-- the row of the last save under a name, or what was there
unfoldable pub latest_row : String → List Access → Option CheckRow × Error → Option CheckRow × Error
latest_row j [] v = v
latest_row j (saved k state ∷ rest) v =
    latest_row j rest (if k == j then (some (check_row state), none) else v)
latest_row j (_ ∷ rest) v = latest_row j rest v

held-append :
    (j : String) (ts : List FlushPhase) (t : FlushPhase)
    → held j (t ∷ []) ≡ none
    → held j (ts ++ t ∷ []) ≡ held j ts
unfolding held
held-append j [] t none_held = none_held
held-append j (holding of_close batch ∷ ts) t none_held =
    ap (λ h. elim (get j batch.1) [ none ↦ h | some state ↦ some state ])
      (held-append j ts t none_held)
held-append j (_ ∷ ts) t none_held = held-append j ts t none_held

All-append :
    (ts : List FlushPhase) (t : FlushPhase) → IsTidy t → All IsTidy ts → All IsTidy (ts ++ t ∷ [])
All-append [] t own tidy = (own, tt)
All-append (x ∷ ts) t own tidy = (tidy.0, All-append ts t own tidy.1)

-- no name is pending twice, or in a batch twice
pub record IsWell {D : Type 0} (s : Flushing D) : Type 0 where
  pub distinct : IsMap s.persister.pending_check_states
  pub tidy : All IsTidy s.threads

module _ {D : Type 0} (q : Database D) where
  -- at most one thread holds a batch, before and after each action
  unfoldable pub apart : List Access → Flushing D → Bool
  unfolding single
  apart [] s = single s.threads
  apart (a ∷ rest) s = single s.threads && apart rest (access q a s)

  next_section-IsTidy :
      (t : FlushPhase) (p : Persister D)
      → IsMap p.pending_check_states
      → IsTidy (next_section q t p).0 × IsMap (next_section q t p).1.pending_check_states
  unfolding next_section write_batch close_once
  next_section-IsTidy firing p distinct = (tt, distinct)
  next_section-IsTidy stopping p distinct = (tt, distinct)
  next_section-IsTidy (taking of_close) p distinct = (distinct, tt)
  next_section-IsTidy (holding true batch) p distinct = (tt, distinct)
  next_section-IsTidy (holding false batch) p distinct = (tt, distinct)
  next_section-IsTidy closing p distinct = elim (Bool-cases p.closed) [
    | inl shut ↦ (tt, rw shut distinct)
    | inr opened ↦ (tt, rw opened distinct)
  ]
  next_section-IsTidy finished p distinct = (tt, distinct)

  move_thread-IsWell :
      (n : ℕ) (ts : List FlushPhase) (p : Persister D)
      → IsMap p.pending_check_states
      → All IsTidy ts
      → All IsTidy (move_thread q n ts p).0 × IsMap (move_thread q n ts p).1.pending_check_states
  unfolding move_thread
  move_thread-IsWell n [] p distinct tidy = (tt, distinct)
  move_thread-IsWell zero (t ∷ ts) p distinct tidy =
      let (own, kept) = next_section-IsTidy t p distinct in ((own, tidy.1), kept)
  move_thread-IsWell (suc n) (t ∷ ts) p distinct tidy =
      let (rest, kept) = move_thread-IsWell n ts p distinct tidy.1 in ((tidy.0, rest), kept)

  access-IsWell : (a : Access) (s : Flushing D) → IsWell s → IsWell (access q a s)
  unfolding access save_check save_tracker
  access-IsWell (saved k state) s well = record {
    distinct = put-IsMap k state s.persister.pending_check_states well.distinct;
    tidy = well.tidy;
  }
  access-IsWell (saved_event state) s well = record { distinct = well.distinct; tidy = well.tidy }
  access-IsWell fired s well = record {
    distinct = well.distinct;
    tidy = All-append s.threads firing tt well.tidy;
  }
  access-IsWell close_called s well = record {
    distinct = well.distinct;
    tidy = All-append s.threads stopping tt well.tidy;
  }
  access-IsWell (moved n) s well =
      let (tidy, distinct) = move_thread-IsWell n s.threads s.persister well.distinct well.tidy in
      record { distinct = distinct; tidy = tidy }

  -- A persister that is open was open before.
  move_thread-open :
      (n : ℕ) (ts : List FlushPhase) (p : Persister D)
      → (move_thread q n ts p).1.closed ≡ false
      → p.closed ≡ false
  unfolding move_thread next_section write_batch close_once
  move_thread-open n [] p opened = opened
  move_thread-open zero (closing ∷ ts) p opened = ground arith
  move_thread-open zero (holding true batch ∷ ts) p opened = opened
  move_thread-open zero (holding false batch ∷ ts) p opened = opened
  move_thread-open zero (_ ∷ ts) p opened = opened
  move_thread-open (suc n) (t ∷ ts) p opened = move_thread-open n ts p opened

  access-open :
      (a : Access) (s : Flushing D)
      → (access q a s).persister.closed ≡ false
      → s.persister.closed ≡ false
  unfolding access save_check save_tracker
  access-open (moved n) s opened = move_thread-open n s.threads s.persister opened
  access-open _ s opened = opened

  accesses-open :
      (actions : List Access) (s : Flushing D)
      → (accesses q actions s).persister.closed ≡ false
      → s.persister.closed ≡ false
  unfolding accesses
  accesses-open [] s opened = opened
  accesses-open (a ∷ rest) s opened = access-open a s (accesses-open rest (access q a s) opened)

module _ {D : Type 0} (q : Database D) (r : IsReliable q) (j : String) where
  access-overlay :
      (a : Access) (s : Flushing D)
      → single s.threads ≡ true
      → single (access q a s).threads ≡ true
      → IsWell s
      → (access q a s).persister.closed ≡ false
      → overlay q j (access q a s).threads (access q a s).persister
        ≡ latest_row j (a ∷ []) (overlay q j s.threads s.persister)
  unfolding access save_check save_tracker latest_row held
  access-overlay (saved k state) s before after well opened =
      ground (arith, get-put j k state s.persister.pending_check_states)
  access-overlay (saved_event state) s before after well opened = refl
  access-overlay fired s before after well opened =
      ap (λ h. layered (get j s.persister.pending_check_states) h (q.select_check j s.persister.db))
        (held-append j s.threads firing refl)
  access-overlay close_called s before after well opened =
      ap (λ h. layered (get j s.persister.pending_check_states) h (q.select_check j s.persister.db))
        (held-append j s.threads stopping refl)
  access-overlay (moved n) s before after well opened =
      move_thread-overlay q r j n s.threads s.persister before after well.tidy opened

  latest-first :
      (a : Access) (rest : List Access) (v : Option CheckRow × Error)
      → latest_row j (a ∷ rest) v ≡ latest_row j rest (latest_row j (a ∷ []) v)
  unfolding latest_row
  latest-first (saved k state) rest v = refl
  latest-first _ rest v = refl

  first-single :
      (actions : List Access) (s : Flushing D) → apart q actions s ≡ true → single s.threads ≡ true
  unfolding apart
  first-single [] s exclusive = exclusive
  first-single (a ∷ rest) s exclusive = ground arith

  -- As long as the persister is open, and no two flushes hold batches at once, no interleaving of saves with
  -- the steps of flushes and of Close loses the last state of a check or goes back to an older one: it is
  -- pending, or else in the batch that a flush holds, or else in the database; without a save there is what
  -- was there before. The database does not fail, and no name was pending, or in a batch, twice.
  pub accesses-overlay :
      (actions : List Access) (s : Flushing D)
      → apart q actions s ≡ true
      → IsWell s
      → (accesses q actions s).persister.closed ≡ false
      → overlay q j (accesses q actions s).threads (accesses q actions s).persister
        ≡ latest_row j actions (overlay q j s.threads s.persister)
  unfolding accesses apart latest_row
  accesses-overlay [] s exclusive well opened = refl
  accesses-overlay (a ∷ rest) s exclusive well opened =
      let now : single s.threads ≡ true = ground arith in
      let later : apart q rest (access q a s) ≡ true = ground arith in
      accesses-overlay rest (access q a s) later (access-IsWell q a s well) opened
      ∙ ap (latest_row j rest) (
          access-overlay a s now (first-single rest (access q a s) later) well
            (accesses-open q rest (access q a s) opened))
      ∙ sym (latest-first a rest (overlay q j s.threads s.persister))
