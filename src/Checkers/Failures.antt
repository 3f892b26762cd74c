-- ===== src/Checkers/Failures.antt =====
-- checks/*/check.go: whether the error of a check tells of the failures among the answers that it got.
use health_go.Base.{
  String, Bool, true, false, not, ◌&&◌, none, some, [], ◌∷◌, ◌≡◌, refl, ◌∙◌, arith, is_some, inl,
  inr,
}
use health_go.Types.{Error}
use health_go.Checkers.{
  answered, Reply-cases, Reply, refused, value, Trace, Body, override, succeed, fail, demand, call,
  perform, deferred, finally,
}

override-is_some : (error : Error) (message : String) → is_some (override error message) ≡ true
override-is_some none message = refl
override-is_some (some e) message = refl

-- whether an answer counts as a failure is up to the check
module _ {C V : Type 0} (fine : C → Reply V → Bool) where
  abbrev pub all_fine : Trace C V → Bool
  all_fine [] = true
  all_fine ((c, r) ∷ t) = fine c r && all_fine t

  -- The body reports an error just when it adds a failure to the trace.
  pub record Honest (body : Body C V) : Type 0 where
    pub says : (t : Trace C V) → all_fine (body t).1 ≡ (not (is_some (body t).0) && all_fine t)

  pub succeed-Honest : Honest succeed
  unfolding succeed
  succeed-Honest = record { says = λ t. ground arith }

  module _ (answer : Trace C V → C → Reply V) where
    pub call-Honest :
        (c : C) (message : String) {next : V → Body C V}
        → ((r : Reply V) → fine c r ≡ answered r)
        → ((v : V) → Honest (next v))
        → Honest (call answer c message next)
    unfolding call
    call-Honest c message {next} counts rest = record {
      says = λ t. elim (Reply-cases (answer t c)) [
        | inl lost ↦ let (e, same) = lost in rw (call, same, counts) refl
        | inr got ↦ let (v, same) = got in rw (call, same) ((rest v).says _ ∙ rw counts refl)
      ];
    }

    pub deferred-Honest :
        (c : C) (message : String) {body : Body C V}
        → ((r : Reply V) → fine c r ≡ answered r)
        → Honest body
        → Honest (deferred answer c message body)
    unfolding deferred
    deferred-Honest c message {body} counts rest = record {
      says = λ t.
          let t' = (body t).1 in
          elim (Reply-cases (answer t' c)) [
            | inl lost ↦
                let (e, same) = lost in rw (deferred, same) (rw (counts, override-is_some) refl)
            | inr got ↦ let (v, same) = got in rw (deferred, same) (rw counts (rest.says t))
          ];
    }

    pub finally-Honest :
        (c : C) {body : Body C V}
        → ((r : Reply V) → fine c r ≡ true)
        → Honest body
        → Honest (finally answer c body)
    unfolding finally
    finally-Honest c {body} ignored rest = record { says = λ t. rw ignored (rest.says t) }

    pub perform-Honest :
        (c : C) {body : Body C V}
        → ((r : Reply V) → fine c r ≡ true)
        → Honest body
        → Honest (perform answer c body)
    unfolding perform
    perform-Honest c {body} ignored rest = record { says = λ t. rest.says _ ∙ rw ignored refl }

  -- a test of the value that a call returned, where the check goes on just when the value is no failure
  pub demand-says :
      (b : Bool) (message : String) (c : C) (r : Reply V) (t : Trace C V) {body : Body C V}
      → fine c r ≡ b
      → Honest body
      → let (error, t') = demand b message body ((c, r) ∷ t) in
        all_fine t' ≡ (not (is_some error) && all_fine t)
  unfolding demand fail
  demand-says true message c r t same rest = rest.says _ ∙ rw same refl
  demand-says false message c r t same rest = rw same refl

  module _ (answer : Trace C V → C → Reply V) where
    pub tested-Honest :
        (c : C) (message : String) (test : V → Bool) (text : V → String) {body : Body C V}
        → ((e : String) → fine c (refused e) ≡ false)
        → ((v : V) → fine c (value v) ≡ test v)
        → Honest body
        → Honest (call answer c message (λ v. demand (test v) (text v) body))
    unfolding call
    tested-Honest c message test text lost tested rest = record {
      says = λ t. elim (Reply-cases (answer t c)) [
        | inl is_lost ↦ let (e, same) = is_lost in rw (call, same, lost) refl
        | inr got ↦
            let (v, same) = got in
            rw (call, same) (demand-says (test v) (text v) c _ t (tested v) rest)
      ];
    }

    pub held_tested-Honest :
        (c d : C) (message : String) (test : V → Bool) (text : V → String) {body : Body C V}
        → ((e : String) → fine c (refused e) ≡ false)
        → ((v : V) → fine c (value v) ≡ test v)
        → ((r : Reply V) → fine d r ≡ true)
        → Honest body
        → Honest (call answer c message (λ v. finally answer d (demand (test v) (text v) body)))
    unfolding call finally
    held_tested-Honest c d message test text lost tested ignored rest = record {
      says = λ t. elim (Reply-cases (answer t c)) [
        | inl is_lost ↦ let (e, same) = is_lost in rw (call, same, lost) refl
        | inr got ↦
            let (v, same) = got in
            rw (call, same, ignored) (demand-says (test v) (text v) c _ t (tested v) rest)
      ];
    }
