-- ===== src/Events/Operations.antt =====
-- events.go: sequences of the operations that change the tracker after it is set up. `number`
-- and `release` are GetNextSequence and ClearSequence.
use health_go.Base.{String, Bool, false, List, [], ◌∷◌, ◌==◌, ◌&&◌}
use health_go.Base.Lists.{All}
use health_go.Types.{Status, passing, eq_status}
use health_go.Events.{Uuid, EventTracker, get_or_create_event_id, get_next_sequence, clear_sequence}
use health_go.Events.Uuid.{IsUuid}
use health_go.Events.Invariant.{
  IsValid, get_or_create_event_id-IsValid, get_next_sequence-IsValid, clear_sequence-IsValid,
}

pub data Operation : Type 0 where
  report : Uuid → String → Status → Operation
  number : String → Operation
  release : String → Operation

unfoldable pub apply : Operation → EventTracker → EventTracker
apply (report uuid name status) t = (get_or_create_event_id uuid name status t).1
apply (number id) t = (get_next_sequence id t).1
apply (release id) t = clear_sequence id t

unfoldable pub run : List Operation → EventTracker → EventTracker
run [] t = t
run (op ∷ ops) t = run ops (apply op t)

-- the values of `uuid.New` are as documented
abbrev pub IsFed : Operation → Type 0
IsFed (report uuid name status) = IsUuid uuid
IsFed _ = Unit

pub apply-IsValid :
    (op : Operation) {t : EventTracker} → IsFed op → IsValid t → IsValid (apply op t)
unfolding apply
apply-IsValid (report uuid name status) u v = get_or_create_event_id-IsValid uuid name status u v
apply-IsValid (number id) u v = get_next_sequence-IsValid id v
apply-IsValid (release id) u v = clear_sequence-IsValid id v

-- The invariant IsValid holds after any operations on a valid tracker, whichever checks report and
-- whatever they report, with UUIDs of sixteen bytes.
pub run-IsValid :
    (ops : List Operation) {t : EventTracker} → All IsFed ops → IsValid t → IsValid (run ops t)
unfolding run
run-IsValid [] fed v = v
run-IsValid (op ∷ ops) fed v = run-IsValid ops fed.1 (apply-IsValid op fed.0 v)

-- no healthy report of the check
abbrev pub recovers : String → Operation → Bool
recovers name (report uuid k status) = name == k && eq_status status passing
recovers name _ = false
