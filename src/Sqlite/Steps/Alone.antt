-- ===== src/Sqlite/Steps/Alone.antt =====
-- persister/sqlite/sqlite.go: a flush or a Close with nothing in between.
use health_go.Base.{ℕ, zero, suc, Bool-cases, inl, inr, ◌≡◌, refl}
use health_go.Sqlite.{Database, Persister, fire, flush_pending, close}
use health_go.Sqlite.Steps.{
  FlushPhase, firing, stopping, finished, next_section, write_batch, close_once,
}

module _ {D : Type 0} (q : Database D) where
  unfoldable pub alone : ℕ → FlushPhase → Persister D → FlushPhase × Persister D
  unfolding next_section
  alone zero t p = (t, p)
  alone (suc n) t p = let (t', p') = next_section q t p in alone n t' p'

  -- The sections of a callback with nothing in between do what `fire` does, and those of Close what
  -- `close` does.
  pub alone-fire_close :
      (p : Persister D)
      → (alone 3 firing p ≡ (finished, fire q p)) × (alone 4 stopping p ≡ (finished, (close q p).0))
  unfolding alone next_section write_batch close_once fire flush_pending close
  alone-fire_close p =
      (refl, elim (Bool-cases p.closed) [ inl shut ↦ rw shut refl | inr opened ↦ rw opened refl ])
