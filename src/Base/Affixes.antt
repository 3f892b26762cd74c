-- ===== src/Base/Affixes.antt =====
-- Prefixes and suffixes of texts.
use Prim.Native.Char.{code}
use Prim.Native.String.{String}
use mathlib.Core.Path.{◌≡◌, refl, sym, ◌∙◌, ap}
use mathlib.Core.Logic.{inl, inr}
use mathlib.Core.Option.{some}
use native.Mathlib.Omega.{arith}
use text.Mathlib.Text.{◌==◌}
use text.Mathlib.TextEquality.{eq_iff, Char-path}
use text.Mathlib.TextPositions.{eq_refl}
use text.Mathlib.TextLemmas.{nil-append, cons-append, append_cancel_right}
use health_go.Base.Tests.{Bool-cases, Option-cases, eqb}
use health_go.Base.Text.{◌<>◌, strip_prefix, strip_suffix}

pub strip_prefix-append : (prefix s : String) → strip_prefix prefix (prefix <> s) ≡ some s
strip_prefix-append String.[] s = rw nil-append refl
strip_prefix-append (String.◌∷◌ c cs) s = rw cons-append (ground (arith, strip_prefix-append cs s))

pub strip_suffix-append : (suffix s : String) → strip_suffix suffix (s <> suffix) ≡ some s
strip_suffix-append String.[] String.[] = refl
strip_suffix-append (String.◌∷◌ c cs) String.[] =
    rw nil-append (ground (arith, eq_refl (String.◌∷◌ c cs)))
strip_suffix-append suffix (String.◌∷◌ c s) =
    let whole : String = String.◌∷◌ c (s <> suffix) in
    rw cons-append (elim (Bool-cases (suffix == whole)) [
      | inl e ↦
          let same : String.[] <> suffix ≡ String.◌∷◌ c s <> suffix =
            nil-append suffix ∙ (eq_iff suffix whole).0 e ∙ sym (cons-append c s suffix) in
          let empty = append_cancel_right String.[] (String.◌∷◌ c s) suffix same in cc
      | inr e ↦ ground (arith, e, strip_suffix-append suffix s)
    ])

-- a text that has the prefix is the prefix and the rest
pub strip_prefix-inverse :
    (prefix s rest : String) → strip_prefix prefix s ≡ some rest → s ≡ prefix <> rest
strip_prefix-inverse String.[] s rest found = let same : s ≡ rest = cc in rw nil-append same
strip_prefix-inverse (String.◌∷◌ p ps) String.[] rest found = cc
strip_prefix-inverse (String.◌∷◌ p ps) (String.◌∷◌ c s) rest found =
    elim (Bool-cases (eqb (code p) (code c))) [
      | inl e ↦
          let char : c ≡ p = Char-path c p (ground arith) in
          let inner : strip_prefix ps s ≡ some rest = ground arith in
          rw (cons-append, char) (ap (String.◌∷◌ p) (strip_prefix-inverse ps s rest inner))
      | inr e ↦ ground arith
    ]

pub strip_suffix-inverse :
    (suffix s before : String) → strip_suffix suffix s ≡ some before → s ≡ before <> suffix
strip_suffix-inverse suffix String.[] before found = elim (Bool-cases (suffix == "")) [
  | inl e ↦
      let empty : before ≡ String.[] = ground arith in
      rw (empty, nil-append) (sym ((eq_iff suffix "").0 e))
  | inr e ↦ ground arith
]
strip_suffix-inverse suffix (String.◌∷◌ c s) before found =
    elim (Bool-cases (suffix == String.◌∷◌ c s)) [
      | inl e ↦
          let empty : before ≡ String.[] = ground arith in
          rw (empty, nil-append) (sym ((eq_iff suffix (String.◌∷◌ c s)).0 e))
      | inr e ↦ elim (Option-cases (strip_suffix suffix s)) [
        | inl absent ↦ ground arith
        | inr inner ↦
            let (b, is_b) = inner in
            let longer : before ≡ String.◌∷◌ c b = ground arith in
            rw (longer, cons-append) (ap (String.◌∷◌ c) (strip_suffix-inverse suffix s b is_b))
      ]
    ]
