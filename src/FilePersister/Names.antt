-- ===== src/FilePersister/Names.antt =====
-- _examples/custom_persister.go: the names of the files.
use text.Mathlib.TextLemmas.{append_cancel_left, append_cancel_right}
use health_go.Base.{
  String, false, none, some, ◌≡◌, refl, sym, ap, ◌∙◌, arith, ◌==◌, eq_iff, Bool-cases, Option-cases,
  inl, inr,
}
use mathlib.Core.Bool.{true≢false}
use health_go.Base.{eq_refl}
use health_go.Base.Text.{◌<>◌, strip_prefix, strip_suffix}
use health_go.Base.Affixes.{
  strip_prefix-append, strip_suffix-append, strip_prefix-inverse, strip_suffix-inverse,
}
use health_go.FilePersister.{
  has_slash, trim_slashes, last_segment, base, check_file, tracker_file, listed_name,
}

-- a name that is one segment of a path
pub record IsPlain (name : String) : Type 0 where
  pub no_slash : has_slash name ≡ false
  pub nonempty : (name == "") ≡ false

trim_slashes-plain : (s : String) → has_slash s ≡ false → trim_slashes s ≡ s
unfolding trim_slashes has_slash
trim_slashes-plain String.[] h = refl
trim_slashes-plain (String.◌∷◌ c s) h = ground (arith, trim_slashes-plain s)

last_segment-plain : (s : String) → has_slash s ≡ false → last_segment s ≡ s
unfolding last_segment has_slash
last_segment-plain String.[] h = refl
last_segment-plain (String.◌∷◌ c s) h = ground arith

pub base-plain : {name : String} → IsPlain name → base name ≡ name
unfolding base
base-plain {name} plain =
    rw
      (
        plain.nonempty,
        trim_slashes-plain name plain.no_slash,
        last_segment-plain name plain.no_slash,
        plain.nonempty,
      )
      refl

named : String → String
named b = "check_" <> (b <> ".json")

strip-named : (b : String) → strip_prefix "check_" (named b) ≡ some (b <> ".json")
unfolding named
strip-named b = strip_prefix-append "check_" (b <> ".json")

named-eq : (a b : String) → (named a == named b) ≡ (a == b)
unfolding named
named-eq a b = elim (Bool-cases (a == b)) [
  | inl e ↦ rw ((eq_iff a b).0 e) (eq_refl (named b) ∙ sym (eq_refl b))
  | inr e ↦ elim (Bool-cases (named a == named b)) [
    | inr other ↦ other ∙ sym e
    | inl same ↦
        let same_end =
          append_cancel_left "check_" (a <> ".json") (b <> ".json")
            ((eq_iff (named a) (named b)).0 same) in
        let equal : a ≡ b = append_cancel_right a b ".json" same_end in
        absurd (true≢false (sym ((eq_iff a b).1 equal) ∙ e))
  ]
]

-- Two checks share a file just when the last segments of their names are the same.
pub check_file-eq : (j k : String) → (check_file k == check_file j) ≡ (base k == base j)
unfolding check_file named
check_file-eq j k = named-eq (base k) (base j)

named-tracker : (b : String) → (named b == tracker_file) ≡ false
named-tracker b = elim (Bool-cases (named b == tracker_file)) [
  | inl e ↦
      let same : named b ≡ tracker_file = (eq_iff (named b) tracker_file).0 e in
      let stripped : some (b <> ".json") ≡ none =
        sym (strip-named b) ∙ ap (strip_prefix "check_") same in
      cc
  | inr e ↦ e
]

pub check_file-tracker : (name : String) → (check_file name == tracker_file) ≡ false
unfolding check_file named
check_file-tracker name = named-tracker (base name)

named-listed : (b : String) → (b == "") ≡ false → listed_name (named b) ≡ some b
unfolding listed_name
named-listed b nonempty =
    rw (listed_name, strip-named b) (rw (strip_suffix-append ".json" b, nonempty) refl)

-- The name in the file's name is the last segment of the check's.
pub listed_name-check_file :
    (name : String) → (base name == "") ≡ false → listed_name (check_file name) ≡ some (base name)
unfolding check_file named
listed_name-check_file name nonempty = named-listed (base name) nonempty

-- Only the file of a check is listed under its name.
pub listed_name-inverse :
    (file name : String) → IsPlain name → listed_name file ≡ some name → file ≡ check_file name
unfolding listed_name check_file
listed_name-inverse file name plain listed = elim (Option-cases (strip_prefix "check_" file)) [
  | inl absent ↦ let no : none ≡ some name = rw (listed_name, absent) at listed in cc
  | inr found ↦
      let (rest, e) = found in
      elim (Option-cases (strip_suffix ".json" rest)) [
        | inl absent ↦ let no : none ≡ some name = rw (listed_name, e, absent) at listed in cc
        | inr ended ↦
            let (own, e') = ended in
            let same : own ≡ name = (let l = rw (listed_name, e, e') at listed in ground arith) in
            rw (base-plain plain) (
              strip_prefix-inverse "check_" file rest e
              ∙ ap (λ s. "check_" <> s)
                  (strip_suffix-inverse ".json" rest own e' ∙ ap (λ s. s <> ".json") same))
      ]
]
