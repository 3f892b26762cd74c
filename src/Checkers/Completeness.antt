-- ===== src/Checkers/Completeness.antt =====
-- checks/*/check.go: the calls that a check has made when it ends without an error.
use health_go.Base.{String, none, some, List, [], ◌∷◌, ◌≡◌, ◌≢◌, ap, inl, inr}
use health_go.Types.{Error}
use health_go.Checkers.{Reply-cases, Reply, Trace, Body, override, succeed, fail, call, deferred}

override-none : (error : Error) (message : String) → override error message ≢ none
override-none none message h = cc
override-none (some e) message h = cc

module _ {C V : Type 0} where
  -- the calls of a trace, the latest first
  abbrev pub calls : Trace C V → List C
  calls [] = []
  calls ((c, r) ∷ t) = c ∷ calls t

  -- If the body, after some calls, ends without an error, then just these other calls have been made.
  pub record Completes (body : Body C V) (before done : List C) : Type 0 where
    pub made : (t : Trace C V) → calls t ≡ before → (body t).0 ≡ none → calls (body t).1 ≡ done

  pub succeed-Completes : {before : List C} → Completes succeed before before
  unfolding succeed
  succeed-Completes = record { made = λ t same ok. same }

  pub fail-Completes :
      {before done : List C} (message : String) → Completes (fail message) before done
  unfolding fail
  fail-Completes message = record { made = λ t same ok. cc }

  module _ (answer : Trace C V → C → Reply V) {before done : List C} where
    pub call-Completes :
        (c : C) (message : String) {next : V → Body C V}
        → ((v : V) → Completes (next v) (c ∷ before) done)
        → Completes (call answer c message next) before done
    unfolding call
    call-Completes c message {next} rest = record {
      made = λ t same ok. elim (Reply-cases (answer t c)) [
        | inl lost ↦ let (e, is_lost) = lost in cc
        | inr got ↦
            let (v, is_got) = got in
            rw (call, is_got) ((rest v).made _ (ap (λ cs. c ∷ cs) same) (rw (call, is_got) at ok))
      ];
    }

    pub deferred-Completes :
        (c : C) (message : String) {body : Body C V}
        → Completes body before done
        → Completes (deferred answer c message body) before (c ∷ done)
    unfolding deferred
    deferred-Completes c message {body} rest = record {
      made = λ t same ok. elim (Reply-cases (answer (body t).1 c)) [
        | inl lost ↦
            let (e, is_lost) = lost in
            absurd (override-none (body t).0 _ (rw (deferred, is_lost) at ok))
        | inr got ↦
            let (v, is_got) = got in
            rw (deferred, is_got)
              (ap (λ cs. c ∷ cs) (rest.made t same (rw (deferred, is_got) at ok)))
      ];
    }
