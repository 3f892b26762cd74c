-- ===== src/Health/Severity.antt =====
-- health.go: the overall status.
use health_go.Base.{
  Option, none, some, ◌==◌, eq_iff, String, zero, suc, List, [], ◌∷◌, ℕ, ◌≡◌, refl, ap, sym, ◌∙◌,
  arith, if◌then◌else◌, ◌↔◌,
}
use mathlib.Core.Path.{ap₂}
use mathlib.Core.List.{Permᴰ, Perm}
use mathlib.Core.Logic.{∥∥₁_elim}
use native.Mathlib.Nat.{ℕ_set}
use Prim.Native.Nat.{max}
use health_go.Base.Lists.{All}
use health_go.Base.GoMap.{GoMap, IsMap, get, get-put}
use health_go.Types.{Status, passing, Error}
use health_go.StatusUpdater.{CheckStatus}
use health_go.Health.{severity, merge_status, merge, overall, http_code, add_failure}

abbrev pub worst : ℕ → List (String × CheckStatus) → ℕ
worst n [] = n
worst n ((name, c) ∷ rest) = max (severity c.status) (worst n rest)

worst-max : (n : ℕ) (xs : List (String × CheckStatus)) → worst n xs ≡ max n (worst 0 xs)
worst-max n [] = omega arith
worst-max n ((name, c) ∷ rest) = omega (arith, worst-max n rest)

merge_status-severity : (a b : Status) → severity (merge_status a b) ≡ max (severity a) (severity b)
unfolding merge_status
merge_status-severity a b = ground arith

merge-severity :
    (xs : List (String × CheckStatus)) (status : Status) (failures : GoMap String)
    → severity (merge xs (status, failures)).0 ≡ worst (severity status) xs
unfolding merge
merge-severity [] status failures = refl
merge-severity ((name, c) ∷ rest) status failures =
    merge-severity rest (merge_status status c.status) _
    ∙ omega (
      arith,
      merge_status-severity status c.status,
      worst-max (severity (merge_status status c.status)) rest,
      worst-max (severity status) rest,
    )

unfoldable pub code_of_severity : ℕ → ℕ
code_of_severity zero = 200
code_of_severity (suc zero) = 429
code_of_severity _ = 503

http_code-severity : (s : Status) → http_code s ≡ code_of_severity (severity s)
unfolding http_code code_of_severity severity
http_code-severity passing = refl
http_code-severity _ = refl

-- Status and HandlerFunc answer by the worst status of all checks: 200 if that is passing, 429 if it is
-- warning, 503 if it is initializing, timeout, critical or an unknown one.
pub http_code-overall :
    (xs : List (String × CheckStatus))
    → (severity (overall xs).0 ≡ worst 0 xs)
      × (http_code (overall xs).0 ≡ code_of_severity (worst 0 xs))
unfolding overall
http_code-overall xs = (
  merge-severity xs passing [] ∙ unfold severity in refl,
  http_code-severity _
      ∙ ap code_of_severity (merge-severity xs passing [] ∙ unfold severity in refl),
)

worst-perm : {xs ys : List (String × CheckStatus)} → Permᴰ xs ys → worst 0 xs ≡ worst 0 ys
worst-perm Permᴰ.nil = refl
worst-perm (Permᴰ.cons e p) =
    ap₂ max (ap (λ (x : String × CheckStatus). severity x.1.status) e) (worst-perm p)
worst-perm (Permᴰ.swap e f) = omega (
  arith,
  ap (λ (x : String × CheckStatus). severity x.1.status) e,
  ap (λ (x : String × CheckStatus). severity x.1.status) f,
)
worst-perm (Permᴰ.trans p q) = worst-perm p ∙ worst-perm q

-- The order in which the goroutines merge the checks does not change the severity of the answer or the
-- HTTP code.
pub overall-perm :
    (xs ys : List (String × CheckStatus))
    → Perm xs ys
    → (severity (overall xs).0 ≡ severity (overall ys).0)
      × (http_code (overall xs).0 ≡ http_code (overall ys).0)
overall-perm xs ys p =
    let same : worst 0 xs ≡ worst 0 ys = ∥∥₁_elim p (ℕ_set _ _) worst-perm in
    let (sev_x, code_x) = http_code-overall xs in
    let (sev_y, code_y) = http_code-overall ys in
    (sev_x ∙ same ∙ sym sev_y, code_x ∙ ap code_of_severity same ∙ sym code_y)

AllPassing : List (String × CheckStatus) → Type 0
AllPassing = All (λ x. x.1.status ≡ passing)

severity-zero : (s : Status) → severity s ≡ 0 → s ≡ passing
unfolding severity
severity-zero passing h = refl
severity-zero _ h = absurd (omega arith)

worst-zero : (xs : List (String × CheckStatus)) → worst 0 xs ≡ 0 → AllPassing xs
unfolding AllPassing
worst-zero [] h = tt
worst-zero ((name, c) ∷ rest) h =
    (severity-zero c.status (omega arith), worst-zero rest (omega arith))

zero-worst : (xs : List (String × CheckStatus)) → AllPassing xs → worst 0 xs ≡ 0
unfolding AllPassing severity
zero-worst [] h = refl
zero-worst ((name, c) ∷ rest) h = omega (arith, ap severity h.0, zero-worst rest h.1)

code-ok : (n : ℕ) → code_of_severity n ≡ 200 → n ≡ 0
unfolding code_of_severity
code-ok zero h = refl
code-ok (suc zero) h = absurd (omega arith)
code-ok (suc (suc n)) h = absurd (omega arith)

-- The endpoint answers 200 exactly when every check is passing.
pub http_code-ok_iff :
    (xs : List (String × CheckStatus))
    → (http_code (overall xs).0 ≡ 200) ↔ All (λ x. x.1.status ≡ passing) xs
unfolding AllPassing
http_code-ok_iff xs = (
  λ h. worst-zero xs (code-ok (worst 0 xs) (sym (http_code-overall xs).1 ∙ h)),
  λ h.
      (http_code-overall xs).1
      ∙ ap code_of_severity (zero-worst xs h)
      ∙ unfold code_of_severity in refl,
)

-- the first of two optional texts that is there
abbrev or_else : Option String → Option String → Option String
or_else none b = b
or_else (some a) b = some a

abbrev pub error_of : Option CheckStatus → Option String
error_of none = none
error_of (some c) = c.error

get-add_failure :
    (k name : String) (error : Error) (failures : GoMap String)
    → get k (add_failure name error failures)
      ≡ (if name == k then or_else error (get k failures) else get k failures)
unfolding add_failure
get-add_failure k name none failures = ground arith
get-add_failure k name (some e) failures = ground (arith, get-put k name e failures)

merge-failures :
    (k : String) (xs : GoMap CheckStatus) (status : Status) (failures : GoMap String)
    → IsMap xs
    → get k (merge xs (status, failures)).1 ≡ or_else (error_of (get k xs)) (get k failures)
unfolding merge get
merge-failures k [] status failures distinct = refl
merge-failures k ((name, c) ∷ rest) status failures distinct =
    let ih =
      merge-failures k rest (merge_status status c.status) (add_failure name c.error failures)
        distinct.1 in
    ground (arith, ih, eq_iff name k, get-add_failure k name c.error failures)

-- The failures of the answer are the errors of the checks, which have different names: a check that
-- has an error stands there under its name with its message, and no other name does.
pub overall-failures :
    (name : String) (xs : GoMap CheckStatus)
    → IsMap xs
    → get name (overall xs).1 ≡ error_of (get name xs)
unfolding overall get
overall-failures name xs distinct = ground (arith, merge-failures name xs passing [] distinct)
