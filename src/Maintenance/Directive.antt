-- ===== src/Maintenance/Directive.antt =====
-- checks/maintenance/check.go, parseNotificationDisable: the duration that a directive with a
-- number stands for.
use Prim.Native.Char.{Char, code}
use text.Mathlib.TextLemmas.{cons-append, nil-append}
use health_go.Base.{
  String, Bool, true, false, ◌&&◌, ◌||◌, some, ℕ, zero, suc, ◌*◌, ◌+◌, ◌-◌, ◌<◌, ◌≤◌, ◌/◌, ◌%◌, ◌≡◌,
  refl, ◌==◌, eq_iff, ap, ◌∙◌, arith, leb, eqb, ltb, all_below, all_below_sound, Bool-cases, inl,
  inr,
}
use health_go.Base.Int.{pos, negsuc, max_int}
use health_go.Base.Text.{◌<>◌, hex_digit, decimal, itoa}
use health_go.Types.{second, Time, CheckNotification}
use health_go.Notifications.{Notifications, send, disable, enable, enabled}
use health_go.Base.Int.{wrap_int64}
use health_go.Maintenance.{
  is_digit, digit_prefix, decimal_value, atoi, directive, suffix_duration, strip_prefix, cut_after,
  parse_notification_disable, apply_directive,
}

-- the decimal digits are digits, with their values
digit_table : all_below (λ n. is_digit (hex_digit n) && eqb (code (hex_digit n) - 48) n) 10 ≡ true
unfolding hex_digit
digit_table = refl

hex_digit-digit :
    (n : ℕ) → n < 10 → (is_digit (hex_digit n) && eqb (code (hex_digit n) - 48) n) ≡ true
hex_digit-digit n small =
    all_below_sound (λ n. is_digit (hex_digit n) && eqb (code (hex_digit n) - 48) n) 10 n
      digit_table small

-- a text that does not go on with a digit
abbrev pub no_digit : String → Bool
no_digit String.[] = true
no_digit (String.◌∷◌ c s) = leb (code c) 47 || leb 58 (code c)

value_step :
    (acc d m : ℕ) (s : String)
    → d < 10
    → acc * 10 + d ≡ m
    → decimal_value acc (digit_prefix (String.◌∷◌ (hex_digit d) s))
      ≡ decimal_value m (digit_prefix s)
unfolding digit_prefix decimal_value
value_step acc d m s small sum = ground (arith, hex_digit-digit d small)

decimal-value :
    (fuel n : ℕ) (s : String)
    → n < fuel
    → decimal_value 0 (digit_prefix (decimal fuel n s)) ≡ decimal_value n (digit_prefix s)
unfolding decimal
decimal-value zero n s enough = absurd (omega arith)
decimal-value (suc fuel) n s enough = elim (Bool-cases (ltb n 10)) [
  | inl small ↦ rw small (value_step 0 n n s (ground arith) (omega arith))
  | inr large ↦ rw large (
      decimal-value fuel (n / 10) _ (ground arith)
      ∙ value_step (n / 10) (n % 10) n s (omega arith) (omega arith))
]

digit_prefix-no_digit : (s : String) → no_digit s ≡ true → digit_prefix s ≡ ""
unfolding digit_prefix
digit_prefix-no_digit String.[] stop = refl
digit_prefix-no_digit (String.◌∷◌ c s) stop = ground arith

-- the digits that `%d` prints are read back
decimal-atoi :
    (n : ℕ) (s : String)
    → no_digit s ≡ true
    → n ≤ max_int
    → atoi (digit_prefix (decimal (suc n) n s)) ≡ some n
unfolding atoi decimal_value
decimal-atoi n s stop fits =
    rw (decimal-value (suc n) n s (omega arith), digit_prefix-no_digit s stop) (ground arith)

decimal-append : (fuel n : ℕ) (s t : String) → decimal fuel n s <> t ≡ decimal fuel n (s <> t)
unfolding decimal
decimal-append zero n s t = refl
decimal-append (suc fuel) n s t = elim (Bool-cases (ltb n 10)) [
  | inl small ↦ rw small (cons-append (hex_digit n) s t)
  | inr large ↦ rw large (
      decimal-append fuel (n / 10) _ t
      ∙ ap (decimal fuel (n / 10)) (cons-append (hex_digit (n % 10)) s t))
]

strip_prefix-append : (p s : String) → strip_prefix p (p <> s) ≡ some s
strip_prefix-append String.[] s = ap some (nil-append s)
strip_prefix-append (String.◌∷◌ c p) s =
    rw (cons-append c p s, strip_prefix-append p s) (ground arith)

cut_after-append : (p s : String) → cut_after p (p <> s) ≡ some s
unfolding cut_after
cut_after-append String.[] String.[] = refl
cut_after-append String.[] (String.◌∷◌ c s) = rw (nil-append (String.◌∷◌ c s)) refl
cut_after-append (String.◌∷◌ c p) s =
    rw (cons-append c p s) (ground (arith, strip_prefix-append p s))

cons_nonempty : (c : Char) (s : String) → (String.◌∷◌ c s == "") ≡ false
cons_nonempty c s = elim (Bool-cases (String.◌∷◌ c s == "")) [
  | inl e ↦ absurd (text.Mathlib.TextLemmas.cons-ne-nil c s ((eq_iff (String.◌∷◌ c s) "").0 e))
  | inr e ↦ e
]

digits_nonempty :
    (fuel n : ℕ) (s : String) → n < fuel → (digit_prefix (decimal fuel n s) == "") ≡ false
unfolding decimal digit_prefix
digits_nonempty zero n s enough = absurd (omega arith)
digits_nonempty (suc fuel) n s enough = elim (Bool-cases (ltb n 10)) [
  | inl small ↦
      rw small (ground (arith, hex_digit-digit n, cons_nonempty (hex_digit n) (digit_prefix s)))
  | inr large ↦ rw large (digits_nonempty fuel (n / 10) _ (ground arith))
]

itoa-append : (n : ℕ) (rest : String) → itoa (pos n) <> rest ≡ decimal (suc n) n rest
unfolding itoa
itoa-append n rest = decimal-append (suc n) n "" rest ∙ ap (decimal (suc n) n) (nil-append rest)

suffix-underscore :
    (n : ℕ) (y : String)
    → atoi (digit_prefix y) ≡ some n
    → (digit_prefix y == "") ≡ false
    → suffix_duration ("_" <> y) ≡ wrap_int64 (n * second)
unfolding suffix_duration
suffix-underscore n y number nonempty = rw (cons-append _ "" y, nil-append y, number, nonempty) refl

suffix-seconds :
    (n : ℕ) (rest : String)
    → no_digit rest ≡ true
    → n ≤ max_int
    → suffix_duration ("_" <> itoa (pos n) <> rest) ≡ wrap_int64 (n * second)
suffix-seconds n rest stop fits = rw (itoa-append n rest) (
    suffix-underscore n (decimal (suc n) n rest) (decimal-atoi n rest stop fits)
      (digits_nonempty (suc n) n rest (omega arith)))

wrap-fits : (n : ℕ) → n ≤ max_int → wrap_int64 n ≡ pos n
unfolding wrap_int64
wrap-fits n fits = ground arith

wrap-negative :
    (n : ℕ)
    → max_int < n
    → n < 18446744073709551616
    → wrap_int64 n ≡ negsuc (18446744073709551615 - n)
unfolding wrap_int64
wrap-negative n above below = ground arith

-- the duration of such a directive, before it is known to fit
parsed_seconds :
    (n : ℕ) (rest : String)
    → no_digit rest ≡ true
    → n ≤ max_int
    → parse_notification_disable (directive <> "_" <> itoa (pos n) <> rest)
      ≡ some (wrap_int64 (n * second))
unfolding parse_notification_disable
parsed_seconds n rest stop fits =
    rw (parse_notification_disable, cut_after-append directive ("_" <> itoa (pos n) <> rest))
      (ap some (suffix-seconds n rest stop fits))

-- A message that begins with the directive, an underscore and a number of seconds, and does not go on
-- with a digit, disables notifications for this number of seconds, if its nanoseconds fit in 63 bits.
pub directive-seconds :
    (n : ℕ) (rest : String)
    → no_digit rest ≡ true
    → n * second ≤ max_int
    → parse_notification_disable (directive <> "_" <> itoa (pos n) <> rest)
      ≡ some (pos (n * second))
directive-seconds n rest stop fits =
    parsed_seconds n rest stop (omega arith) ∙ ap some (wrap-fits (n * second) fits)

send-negative :
    (k : ℕ) (start now : Time) (m : CheckNotification) (sender : Notifications)
    → start ≤ now
    → send now m (disable start (negsuc k) sender)
      ≡ record (send now m (enable sender)) { disabled_time = start }
unfolding send disable enable
send-negative k start now m sender later = ground arith

-- A number of seconds from 9223372037 to 18446744073 overflows to a negative duration: the directive is
-- accepted, and every notification after it is sent as if notifications were enabled.
pub directive-overflow :
    (n : ℕ) (rest : String) (start now : Time) (m : CheckNotification) (sender : Notifications)
    → no_digit rest ≡ true
    → max_int < n * second
    → n * second < 18446744073709551616
    → sender.disabled ≡ false
    → start ≤ now
    → send now m (apply_directive start (directive <> "_" <> itoa (pos n) <> rest) sender)
      ≡ record (send now m (enable sender)) { disabled_time = start }
unfolding apply_directive enabled disable enable
directive-overflow n rest start now m sender stop above below on later =
    rw (apply_directive, parsed_seconds n rest stop (omega arith), on)
      (rw (wrap-negative (n * second) above below) (send-negative _ start now m sender later))
