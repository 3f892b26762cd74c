-- ===== src/Sqlite/Steps/Held.antt =====
-- persister/sqlite/sqlite.go: the states that are pending, held by a flush or written.
use health_go.Base.{
  String, Bool, true, false, Option, none, some, List, [], ◌∷◌, ℕ, zero, suc, ◌≡◌, refl, ◌∙◌, sym,
  ap, arith,
}
use health_go.Base.Lists.{All}
use health_go.Base.GoMap.{get, get-empty, IsMap}
use health_go.Types.{CheckState, Error}
use health_go.Sqlite.{Database, Persister, CheckRow, check_row}
use health_go.Sqlite.Batches.{IsReliable, write_checks-select, write_tracker-select}
use health_go.Sqlite.Steps.{
  Batch, FlushPhase, firing, stopping, taking, holding, closing, finished, next_section,
  write_batch, close_once, move_thread,
}

-- no thread holds a batch, and at most one does
unfoldable pub free : List FlushPhase → Bool
free [] = true
free (holding of_close batch ∷ ts) = false
free (_ ∷ ts) = free ts

unfoldable pub single : List FlushPhase → Bool
unfolding free
single [] = true
single (holding of_close batch ∷ ts) = free ts
single (_ ∷ ts) = single ts

-- what a thread holds of a check
unfoldable pub held : String → List FlushPhase → Option CheckState
held j [] = none
held j (holding of_close batch ∷ ts) =
    let rest = held j ts in elim (get j batch.1) [ none ↦ rest | some state ↦ some state ]
held j (_ ∷ ts) = held j ts

-- the row of a check once all that is pending and held is written: the pending state counts before
-- the held one, and this before the one in the database
abbrev pub layered :
    Option CheckState → Option CheckState → Option CheckRow × Error → Option CheckRow × Error
layered (some state) below row = (some (check_row state), none)
layered none (some state) row = (some (check_row state), none)
layered none none row = row

-- no batch has a name twice
abbrev pub IsTidy : FlushPhase → Type 0
IsTidy (holding of_close batch) = IsMap batch.1
IsTidy _ = Unit

free-held : (j : String) (ts : List FlushPhase) → free ts ≡ true → held j ts ≡ none
unfolding free held
free-held j [] none_held = refl
free-held j (holding of_close batch ∷ ts) none_held = cc
free-held j (_ ∷ ts) none_held = free-held j ts none_held

abbrev pub overlay :
    {D : Type 0} → Database D → String → List FlushPhase → Persister D → Option CheckRow × Error
overlay q j ts p = layered (get j p.pending_check_states) (held j ts) (q.select_check j p.db)

module _ {D : Type 0} (q : Database D) (r : IsReliable q) (j : String) where
  -- Only a thread that holds a batch changes the database while the persister is open.
  free_move :
      (n : ℕ) (ts : List FlushPhase) (p : Persister D)
      → free ts ≡ true
      → free (move_thread q n ts p).0 ≡ true
      → (move_thread q n ts p).1.closed ≡ false
      → ((move_thread q n ts p).1.pending_check_states ≡ p.pending_check_states)
        × ((move_thread q n ts p).1.db ≡ p.db)
  unfolding move_thread next_section free close_once
  free_move n [] p before after opened = (refl, refl)
  free_move zero (firing ∷ ts) p before after opened = (refl, refl)
  free_move zero (stopping ∷ ts) p before after opened = (refl, refl)
  free_move zero (taking of_close ∷ ts) p before after opened = cc
  free_move zero (holding of_close batch ∷ ts) p before after opened = cc
  free_move zero (closing ∷ ts) p before after opened = ground arith
  free_move zero (finished ∷ ts) p before after opened = (refl, refl)
  free_move (suc n) (holding of_close batch ∷ ts) p before after opened = cc
  free_move (suc n) (_ ∷ ts) p before after opened = free_move n ts p before after opened

  written :
      (batch : Batch) (p : Persister D)
      → IsMap batch.1
      → p.closed ≡ false
      → q.select_check j (write_batch q batch p).db
        ≡ layered none (get j batch.1) (q.select_check j p.db)
  unfolding write_batch
  written (event_state, check_states) p distinct opened = rw opened (
      write_checks-select q r j check_states _ distinct
      ∙ ground (arith, write_tracker-select q r j event_state p.db))

  pub move_thread-overlay :
      (n : ℕ) (ts : List FlushPhase) (p : Persister D)
      → single ts ≡ true
      → single (move_thread q n ts p).0 ≡ true
      → All IsTidy ts
      → (move_thread q n ts p).1.closed ≡ false
      → overlay q j (move_thread q n ts p).0 (move_thread q n ts p).1 ≡ overlay q j ts p
  unfolding move_thread next_section single held close_once
  move_thread-overlay n [] p before after tidy opened = refl
  move_thread-overlay zero (firing ∷ ts) p before after tidy opened = refl
  move_thread-overlay zero (stopping ∷ ts) p before after tidy opened = refl
  move_thread-overlay zero (taking of_close ∷ ts) p before after tidy opened =
      let none_held = free-held j ts after in
      ground (arith, get-empty {V = CheckState} j, none_held)
  move_thread-overlay zero (holding true batch ∷ ts) p before after tidy opened =
      let none_held = free-held j ts before in
      let now = written batch p tidy.0 opened in ground (arith, now, none_held)
  move_thread-overlay zero (holding false batch ∷ ts) p before after tidy opened =
      let none_held = free-held j ts before in
      let now = written batch p tidy.0 opened in ground (arith, now, none_held)
  move_thread-overlay zero (closing ∷ ts) p before after tidy opened = ground arith
  move_thread-overlay zero (finished ∷ ts) p before after tidy opened = refl
  move_thread-overlay (suc n) (holding of_close batch ∷ ts) p before after tidy opened =
      let (ts', p') = move_thread q n ts p in
      let (pending, db) = free_move n ts p before after opened in
      let same = free-held j ts' after ∙ sym (free-held j ts before) in
      let own = get j batch.1 in
      ap
        (λ h.
          layered (get j p'.pending_check_states) (elim own [ none ↦ h | some state ↦ some state ])
            (q.select_check j p'.db))
        same
      ∙ ap (λ m. layered (get j m) (held j (holding of_close batch ∷ ts)) (q.select_check j p'.db))
          pending
      ∙ ap
          (λ d.
            layered (get j p.pending_check_states) (held j (holding of_close batch ∷ ts))
              (q.select_check j d))
          db
  move_thread-overlay (suc n) (firing ∷ ts) p before after tidy opened =
      move_thread-overlay n ts p before after tidy.1 opened
  move_thread-overlay (suc n) (stopping ∷ ts) p before after tidy opened =
      move_thread-overlay n ts p before after tidy.1 opened
  move_thread-overlay (suc n) (taking of_close ∷ ts) p before after tidy opened =
      move_thread-overlay n ts p before after tidy.1 opened
  move_thread-overlay (suc n) (closing ∷ ts) p before after tidy opened =
      move_thread-overlay n ts p before after tidy.1 opened
  move_thread-overlay (suc n) (finished ∷ ts) p before after tidy opened =
      move_thread-overlay n ts p before after tidy.1 opened
