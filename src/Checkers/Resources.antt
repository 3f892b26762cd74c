-- ===== src/Checkers/Resources.antt =====
-- checks/*/check.go: what is open during a check. `stack` is what is open after a trace, and `none`
-- if something was closed that was not opened last.
use health_go.Base.{
  String, Bool, true, false, Option, none, some, List, [], ◌∷◌, ℕ, ◌≡◌, refl, ◌∙◌, ap, arith, eqb,
  if◌then◌else◌, inl, inr,
}
use health_go.Checkers.{
  Reply-cases, Reply, refused, value, Trace, Body, succeed, fail, demand, call, perform, deferred,
  finally,
}

-- how a call bears on a resource, which has a number: it opens one if it succeeds, creates or closes one
pub data Role : Type 0 where
  neutral : Role
  opens creates closes : ℕ → Role

abbrev pub push : ℕ → Option (List ℕ) → Option (List ℕ)
push r none = none
push r (some rs) = some (r ∷ rs)

abbrev pub pop : ℕ → Option (List ℕ) → Option (List ℕ)
pop r none = none
pop r (some []) = none
pop r (some (q ∷ rs)) = if eqb q r then some rs else none

pop-push : (r : ℕ) (s : Option (List ℕ)) → pop r (push r s) ≡ s
pop-push r none = refl
pop-push r (some rs) = ground arith

-- what is open after one more call
abbrev pub after : {V : Type 0} → Role → Reply V → Option (List ℕ) → Option (List ℕ)
after neutral r s = s
after (opens x) (refused e) s = s
after (opens x) (value v) s = push x s
after (creates x) r s = push x s
after (closes x) r s = pop x s

module _ {C V : Type 0} (role : C → Role) where
  unfoldable pub stack : Trace C V → Option (List ℕ)
  stack [] = some []
  stack ((c, r) ∷ t) = after (role c) r (stack t)

  -- The body leaves open what was open before it.
  pub record Releases (body : Body C V) : Type 0 where
    pub kept : (t : Trace C V) → stack (body t).1 ≡ stack t

  pub succeed-Releases : Releases succeed
  unfolding succeed
  succeed-Releases = record { kept = λ t. refl }

  pub fail-Releases : (message : String) → Releases (fail message)
  unfolding fail
  fail-Releases message = record { kept = λ t. refl }

  module _ (answer : Trace C V → C → Reply V) where
    pub call-Releases :
        (c : C) (message : String) {next : V → Body C V}
        → role c ≡ neutral
        → ((v : V) → Releases (next v))
        → Releases (call answer c message next)
    unfolding call stack
    call-Releases c message idle rest = record {
      kept = λ t. elim (Reply-cases (answer t c)) [
        | inl lost ↦ let (e, same) = lost in rw (call, same, idle) refl
        | inr got ↦ let (v, same) = got in rw (call, same) ((rest v).kept _ ∙ rw idle refl)
      ];
    }

    -- a resource that is closed by a deferred call once it was opened
    pub opened-Releases :
        (r : ℕ) (c d : C) (message closing : String) {next : V → Body C V}
        → role c ≡ opens r
        → role d ≡ closes r
        → ((v : V) → Releases (next v))
        → Releases (call answer c message (λ v. deferred answer d closing (next v)))
    unfolding call deferred stack
    opened-Releases r c d message closing {next} open_c close_d rest = record {
      kept = λ t. elim (Reply-cases (answer t c)) [
        | inl lost ↦ let (e, same) = lost in rw (call, same, open_c) refl
        | inr got ↦
            let (v, same) = got in
            let t' : Trace C V = (next v ((c, value v) ∷ t)).1 in
            let inner : pop r (stack t') ≡ stack t =
              ap (pop r) ((rest v).kept _ ∙ rw open_c refl) ∙ pop-push r (stack t) in
            rw (call, same)
              (elim (Reply-cases (answer t' d)) [
                | inl lost ↦ let (e, lost_d) = lost in rw (deferred, lost_d, close_d) inner
                | inr got ↦ let (w, got_d) = got in rw (deferred, got_d, close_d) inner
              ])
      ];
    }

    -- the same with a close whose error does not count
    pub held-Releases :
        (r : ℕ) (c d : C) (message : String) {next : V → Body C V}
        → role c ≡ opens r
        → role d ≡ closes r
        → ((v : V) → Releases (next v))
        → Releases (call answer c message (λ v. finally answer d (next v)))
    unfolding call finally stack
    held-Releases r c d message {next} open_c close_d rest = record {
      kept = λ t. elim (Reply-cases (answer t c)) [
        | inl lost ↦ let (e, same) = lost in rw (call, same, open_c) refl
        | inr got ↦
            let (v, same) = got in
            rw (call, same, close_d)
              (ap (pop r) ((rest v).kept _ ∙ rw open_c refl) ∙ pop-push r (stack t))
      ];
    }

    -- a resource whose creation cannot fail
    pub created-Releases :
        (r : ℕ) (c d : C) {body : Body C V}
        → role c ≡ creates r
        → role d ≡ closes r
        → Releases body
        → Releases (perform answer c (finally answer d body))
    unfolding perform finally stack
    created-Releases r c d create_c close_d rest = record {
      kept = λ t. rw close_d (ap (pop r) (rest.kept _ ∙ rw create_c refl) ∙ pop-push r (stack t));
    }

  pub demand-Releases :
      (b : Bool) (message : String) {body : Body C V}
      → Releases body
      → Releases (demand b message body)
  unfolding demand
  demand-Releases true message rest = record { kept = λ t. rest.kept t }
  demand-Releases false message rest = record { kept = λ t. (fail-Releases message).kept t }
